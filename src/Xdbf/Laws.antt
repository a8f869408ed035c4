-- ===== src/Xdbf/Laws.antt =====
-- The lookups of XDBF files find the first entry with an id.
use xenon_recomp.Base.{
  ℕ, zero, suc, ◌+◌, ◌≡◌, refl, ap, ◌∙◌, ◌==◌, if◌then◌else◌, Option, none, some, List, [], ◌∷◌,
  length,
}
use xenon_recomp.Memory.{Bytes, be16}
use xenon_recomp.Xdbf.{
  Wrapper, XdbfBlock, get_resource, namespace_string_table, namespace_metadata, xach_signature,
  text_at, string_loop, string_in, get_string, Achievement, no_achievement, achievement_at,
  achievements_loop, achievements_in, get_achievements, achievement_loop, achievement_in,
  get_achievement, count_at,
}

-- The first achievement with an id, or an empty one.
unfoldable pub first_with_id : ℕ → List Achievement → Achievement
first_with_id id [] = no_achievement
first_with_id id (a ∷ as') = if a.id == id then a else first_with_id id as'

achievement_loop-first :
    (w : Wrapper) (language id left p : ℕ)
    → achievement_loop w language id left p ≡ first_with_id id (achievements_loop w language left p)
unfolding achievement_loop achievements_loop first_with_id achievement_at
achievement_loop-first w language id zero p = refl
achievement_loop-first w language id (suc left) p =
    ap (λ r. if be16 w.buffer p == id then achievement_at w language p else r)
      (achievement_loop-first w language id left (p + 36))

achievement_in-first :
    (w : Wrapper) (language id : ℕ) (b : Option XdbfBlock)
    → achievement_in w language id b ≡ first_with_id id (achievements_in w language b)
unfolding first_with_id
achievement_in-first w language id none = refl
achievement_in-first w language id (some b) =
    achievement_loop-first w language id (count_at w.buffer b.at) (b.at + 14)

-- The lookup of one achievement gives the first one with its id of those that the listing gives, or
-- an empty one if there is none.
pub get_achievement-first_with_id :
    (w : Wrapper) (language id : ℕ)
    → get_achievement w language id ≡ first_with_id id (get_achievements w language)
unfolding get_achievement get_achievements
get_achievement-first_with_id w language id =
    achievement_in-first w language id (get_resource w namespace_metadata xach_signature)

-- Strings with their ids, one behind the other from `p` on: the id, the length and the bytes.
abbrev pub Strings : Bytes → ℕ → List (ℕ × List ℕ) → Type 0
Strings m p [] = Unit
Strings m p (t ∷ ts) =
    (be16 m p ≡ t.0)
    × (be16 m (p + 2) ≡ length t.1)
    × (text_at m (p + 4) (length t.1) ≡ t.1)
    × Strings m (p + 4 + length t.1) ts

unfoldable pub first_text : ℕ → List (ℕ × List ℕ) → List ℕ
first_text id [] = []
first_text id (t ∷ ts) = if t.0 == id then t.1 else first_text id ts

string_loop-first :
    (m : Bytes) (id p : ℕ) (ts : List (ℕ × List ℕ))
    → Strings m p ts
    → string_loop m id (length ts) p ≡ first_text id ts
unfolding string_loop first_text
string_loop-first m id p [] h = refl
string_loop-first m id p (t ∷ ts) (is_id, is_length, is_text, h) =
    rw (is_id, is_length, is_text, string_loop-first m id (p + 4 + length t.1) ts h) refl

-- Where a language has a string table, the lookup of a string gives the first one with its id in the
-- table, or an empty string if there is none.
pub get_string-first_text :
    (w : Wrapper) (language id : ℕ) (b : XdbfBlock) (ts : List (ℕ × List ℕ))
    → get_resource w namespace_string_table language ≡ some b
    → count_at w.buffer b.at ≡ length ts
    → Strings w.buffer (b.at + 14) ts
    → get_string w language id ≡ first_text id ts
unfolding get_string
get_string-first_text w language id b ts found count h =
    ap (string_in w.buffer id) found
    ∙ ap (λ (n : ℕ). string_loop w.buffer id n (b.at + 14)) count
    ∙ string_loop-first w.buffer id (b.at + 14) ts h
