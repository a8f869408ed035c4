-- ===== src/Xdbf.antt =====
-- `XDBFWrapper` of `XenonUtils/xdbf_wrapper.cpp` on the structures of `XenonUtils/xdbf.h`. Pointers
-- are offsets into the buffer; a read past its end is not noticed, as in the code.
pub mod Laws
use xenon_recomp.Base.{
  ℕ, zero, suc, ◌+◌, ◌*◌, ◌^◌, not, ◌&&◌, leb, ◌==◌, if◌then◌else◌, Option, none, some, List, [],
  ◌∷◌,
}
use xenon_recomp.Memory.{Bytes, be16, be32}

-- `be<uint64_t>`.
unfoldable pub be64 : Bytes → ℕ → ℕ
be64 m p = be32 m p * 2 ^ 32 + be32 m (p + 4)

-- `XDBF_SIGNATURE` and `XACH_SIGNATURE`.
abbrev pub xdbf_signature : ℕ
xdbf_signature = 0x58444246

abbrev pub xach_signature : ℕ
xach_signature = 0x58414348

-- `XDBF_SPA_NAMESPACE_METADATA`, `XDBF_SPA_NAMESPACE_IMAGE` and `XDBF_SPA_NAMESPACE_STRING_TABLE`.
abbrev pub namespace_metadata : ℕ
namespace_metadata = 1

abbrev pub namespace_image : ℕ
namespace_image = 2

abbrev pub namespace_string_table : ℕ
namespace_string_table = 3

-- `sizeof` of `XDBFHeader`, `XDBFEntry`, `XDBFFreeSpaceEntry`, `XSTRHeader`, `XSTREntry`,
-- `XACHHeader` and `XACHEntry`.
abbrev pub xdbf_header_bytes : ℕ
xdbf_header_bytes = 24

abbrev pub entry_bytes : ℕ
entry_bytes = 18

abbrev pub free_entry_bytes : ℕ
free_entry_bytes = 8

abbrev pub string_header_bytes : ℕ
string_header_bytes = 14

abbrev pub string_entry_bytes : ℕ
string_entry_bytes = 4

abbrev pub achievement_header_bytes : ℕ
achievement_header_bytes = 14

abbrev pub achievement_entry_bytes : ℕ
achievement_entry_bytes = 36

-- `EntryCount` and `FreeSpaceTableLength` of `XDBFHeader`.
abbrev pub entry_count : Bytes → ℕ
entry_count m = be32 m 12

abbrev pub free_table_length : Bytes → ℕ
free_table_length m = be32 m 16

-- The fields of `XDBFWrapper`; its header stands at the start.
pub record Wrapper : Type 0 where
  pub buffer : Bytes
  pub size : ℕ
  pub entries : ℕ
  pub files : ℕ
  pub content : ℕ

-- The constructor; none where it leaves `pBuffer` null.
unfoldable pub open_wrapper : Bytes → ℕ → Option Wrapper
open_wrapper m n =
    let files = xdbf_header_bytes + entry_bytes * entry_count m in
    if leb n xdbf_header_bytes
    then none
    else if not (be32 m 0 == xdbf_signature)
    then none
    else some (record {
      buffer = m;
      size = n;
      entries = xdbf_header_bytes;
      files = files;
      content = files + free_entry_bytes * free_table_length m;
    })

-- `XDBFBlock`, with its pointer not null.
pub record XdbfBlock : Type 0 where
  pub at : ℕ
  pub size : ℕ

-- The loop of `GetResource` from the entry at `p` on, with `left` entries to go.
unfoldable pub resource_loop : Wrapper → ℕ → ℕ → ℕ → ℕ → Option XdbfBlock
resource_loop w ns id zero p = none
resource_loop w ns id (suc left) p =
    let rest = resource_loop w ns id left (p + entry_bytes) in
    if be16 w.buffer p == ns && be64 w.buffer (p + 2) == id
    then some (record { at = w.content + be32 w.buffer (p + 10); size = be32 w.buffer (p + 14) })
    else rest

-- `GetResource`.
unfoldable pub get_resource : Wrapper → ℕ → ℕ → Option XdbfBlock
unfolding resource_loop
get_resource w ns id = resource_loop w ns id (entry_count w.buffer) w.entries

-- `std::string` of `n` bytes.
unfoldable pub text_at : Bytes → ℕ → ℕ → List ℕ
text_at m p zero = []
text_at m p (suc n) = m p ∷ text_at m (p + 1) n

-- The loop of `GetString`, with `left` strings to go.
unfoldable pub string_loop : Bytes → ℕ → ℕ → ℕ → List ℕ
unfolding text_at
string_loop m id zero p = []
string_loop m id (suc left) p =
    let n = be16 m (p + 2) in
    let rest = string_loop m id left (p + string_entry_bytes + n) in
    if be16 m p == id then text_at m (p + string_entry_bytes) n else rest

-- `StringCount` of `XSTRHeader` and `AchievementCount` of `XACHHeader`.
abbrev pub count_at : Bytes → ℕ → ℕ
count_at m p = be16 m (p + 12)

abbrev pub string_in : Bytes → ℕ → Option XdbfBlock → List ℕ
string_in m id none = []
string_in m id (some b) = string_loop m id (count_at m b.at) (b.at + string_header_bytes)

-- `GetString`.
unfoldable pub get_string : Wrapper → ℕ → ℕ → List ℕ
unfolding get_resource string_loop
get_string w language id = string_in w.buffer id (get_resource w namespace_string_table language)

-- `Achievement`; the image is none where its buffer is null.
pub record Achievement : Type 0 where
  pub id : ℕ
  pub name : List ℕ
  pub unlocked : List ℕ
  pub locked : List ℕ
  pub image : Option XdbfBlock
  pub score : ℕ

abbrev pub no_achievement : Achievement
no_achievement = record { id = 0; name = []; unlocked = []; locked = []; image = none; score = 0 }

-- The `XACHEntry` at `p`.
unfoldable pub achievement_at : Wrapper → ℕ → ℕ → Achievement
unfolding get_string get_resource
achievement_at w language p = record {
  id = be16 w.buffer p;
  name = get_string w language (be16 w.buffer (p + 2));
  unlocked = get_string w language (be16 w.buffer (p + 4));
  locked = get_string w language (be16 w.buffer (p + 6));
  image = get_resource w namespace_image (be32 w.buffer (p + 8));
  score = be16 w.buffer (p + 12);
}

-- The loop of `GetAchievements`.
unfoldable pub achievements_loop : Wrapper → ℕ → ℕ → ℕ → List Achievement
unfolding achievement_at
achievements_loop w language zero p = []
achievements_loop w language (suc left) p =
    achievement_at w language p ∷ achievements_loop w language left (p + achievement_entry_bytes)

abbrev pub achievements_in : Wrapper → ℕ → Option XdbfBlock → List Achievement
achievements_in w language none = []
achievements_in w language (some b) =
    achievements_loop w language (count_at w.buffer b.at) (b.at + achievement_header_bytes)

-- `GetAchievements`.
unfoldable pub get_achievements : Wrapper → ℕ → List Achievement
unfolding get_resource achievements_loop
get_achievements w language =
    achievements_in w language (get_resource w namespace_metadata xach_signature)

-- The loop of `GetAchievement`.
unfoldable pub achievement_loop : Wrapper → ℕ → ℕ → ℕ → ℕ → Achievement
unfolding achievement_at
achievement_loop w language id zero p = no_achievement
achievement_loop w language id (suc left) p =
    let rest = achievement_loop w language id left (p + achievement_entry_bytes) in
    if be16 w.buffer p == id then achievement_at w language p else rest

abbrev pub achievement_in : Wrapper → ℕ → ℕ → Option XdbfBlock → Achievement
achievement_in w language id none = no_achievement
achievement_in w language id (some b) =
    achievement_loop w language id (count_at w.buffer b.at) (b.at + achievement_header_bytes)

-- `GetAchievement`.
unfoldable pub get_achievement : Wrapper → ℕ → ℕ → Achievement
unfolding get_resource achievement_loop
get_achievement w language id =
    achievement_in w language id (get_resource w namespace_metadata xach_signature)
