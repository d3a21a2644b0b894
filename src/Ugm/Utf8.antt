-- ===== src/Ugm/Utf8.antt =====
-- The check of `std::str::from_utf8`: the well-formed byte sequences of the Unicode standard.
use entheai.Base.{ℕ, Bool, true, ◌&&◌, ◌||◌, List, [], ◌∷◌, leb, ltb, ◌==◌, if◌then◌else◌}

abbrev is_tail : ℕ → Bool
is_tail b = leb 0x80 b && leb b 0xbf

abbrev pair_ok : ℕ → Bool
pair_ok a = leb 0xc2 a && leb a 0xdf

abbrev triple_ok : ℕ → ℕ → Bool
triple_ok a b =
    ((a == 0xe0) && leb 0xa0 b && leb b 0xbf)
    || (((leb 0xe1 a && leb a 0xec) || (leb 0xee a && leb a 0xef)) && is_tail b)
    || ((a == 0xed) && leb 0x80 b && leb b 0x9f)

abbrev quad_ok : ℕ → ℕ → Bool
quad_ok a b =
    ((a == 0xf0) && leb 0x90 b && leb b 0xbf)
    || (leb 0xf1 a && leb a 0xf3 && is_tail b)
    || ((a == 0xf4) && leb 0x80 b && leb b 0x8f)

unfoldable pub is_utf8 : List ℕ → Bool
is_utf8 [] = true
is_utf8 (a ∷ []) = ltb a 0x80
is_utf8 (a ∷ b ∷ []) = (ltb a 0x80 && is_utf8 (b ∷ [])) || (pair_ok a && is_tail b)
is_utf8 (a ∷ b ∷ c ∷ []) =
    (ltb a 0x80 && is_utf8 (b ∷ c ∷ []))
    || (pair_ok a && is_tail b && is_utf8 (c ∷ []))
    || (triple_ok a b && is_tail c)
is_utf8 (a ∷ b ∷ c ∷ d ∷ rest) =
    let one = is_utf8 (b ∷ c ∷ d ∷ rest) in
    let two = is_utf8 (c ∷ d ∷ rest) in
    let three = is_utf8 (d ∷ rest) in
    let four = is_utf8 rest in
    if ltb a 0x80
    then one
    else if pair_ok a
    then is_tail b && two
    else if triple_ok a b
    then is_tail c && three
    else quad_ok a b && is_tail c && is_tail d && four
