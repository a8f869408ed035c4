-- ===== src/Image.antt =====
-- `XenonUtils/section.h`, `XenonUtils/image.h` and the lookups of `XenonUtils/image.cpp`. The
-- `std::set` of sections is a list in the comparer's order; `data` of a section is an offset into
-- the image's buffer.
pub mod Lookup
use Prim.Native.String.{String}
use text.Mathlib.Text.{◌==◌ as str_eq}
use xenon_recomp.Base.{
  ℕ, ◌+◌, ◌-◌, ◌||◌, ltb, leb, if◌then◌else◌, Option, none, some, List, [], ◌∷◌, add64,
}

pub record Section : Type 0 where
  pub name : String
  pub base : ℕ
  pub size : ℕ
  pub flags : ℕ
  pub data_at : ℕ

abbrev pub flag_code : ℕ
flag_code = 2

-- `sections.insert(..)`: in the order of the bases, and nothing where the base is taken.
unfoldable pub insert_section : Section → List Section → List Section
insert_section s [] = s ∷ []
insert_section s (t ∷ ts) =
    if ltb s.base t.base
    then s ∷ t ∷ ts
    else if ltb t.base s.base
    then t ∷ insert_section s ts
    else t ∷ ts

-- `Image::Map` for an image at `image_base`.
unfoldable pub map_section : ℕ → String → ℕ → ℕ → ℕ → ℕ → List Section → List Section
map_section image_base name base size flags data_at = insert_section (record {
  name = name;
  base = add64 image_base base;
  size = size;
  flags = flags;
  data_at = data_at;
})

-- The element before `sections.upper_bound(address)`, the first whose base is above the address;
-- `before` is the last element passed.
unfoldable pub before_upper_bound : ℕ → Option Section → List Section → Option Section
before_upper_bound address before [] = before
before_upper_bound address before (s ∷ ss) =
    let rest = before_upper_bound address (some s) ss in if ltb address s.base then before else rest

-- The check of the section before the upper bound; none means that there is no element before it.
unfoldable pub check_section : ℕ → Option Section → Option Section
check_section address none = none
check_section address (some s) =
    if ltb address s.base || leb (add64 s.base s.size) address then none else some s

-- `Image::FindSection`.
unfoldable pub find_section : List Section → ℕ → Option Section
unfolding before_upper_bound check_section
find_section sections address = check_section address (before_upper_bound address none sections)

-- `Image::Find` by address: the offset of the byte in the image's buffer.
unfoldable pub find_address : List Section → ℕ → Option ℕ
unfolding find_section
find_address sections address = elim (find_section sections address) [
  | none ↦ none
  | some s ↦ some (s.data_at + (address - s.base))
]

-- `Image::Find` by name.
unfoldable pub find_name : List Section → String → Option Section
find_name [] name = none
find_name (s ∷ ss) name = if str_eq s.name name then some s else find_name ss name
