-- ===== src/Base/Text.antt =====
-- Text as a list of code points, and the few operations of Rust's `str` that the program uses on it.
use Prim.Native.Nat.{ℕ, suc, ◌+◌}
use Prim.Native.Char.{Char, code}
use Prim.Native.String.{String}
use mathlib.Core.Bool.{Bool, true, false, ◌&&◌, ◌||◌}
use mathlib.Core.List.{List, [], ◌∷◌, map, reverse}
use mathlib.Core.Option.{Option, none, some}
use entheai.Base.Tests.{leb, ◌==◌, if◌then◌else◌}

abbrev pub codes : String → List ℕ
codes String.[] = []
codes (String.◌∷◌ c s) = code c ∷ codes s

-- `char::to_ascii_lowercase`.
unfoldable pub ascii_lower : ℕ → ℕ
ascii_lower c = if leb b'A' c && leb c b'Z' then c + 32 else c

unfoldable pub to_ascii_lowercase : List ℕ → List ℕ
unfolding ascii_lower
to_ascii_lowercase s = map ascii_lower s

-- `str::starts_with`, and `str::contains` for a text pattern.
unfoldable pub starts_with : List ℕ → List ℕ → Bool
starts_with s [] = true
starts_with [] (p ∷ ps) = false
starts_with (c ∷ s) (p ∷ ps) = (c == p) && starts_with s ps

unfoldable pub contains : List ℕ → List ℕ → Bool
unfolding starts_with
contains [] p = starts_with [] p
contains (c ∷ s) p = starts_with (c ∷ s) p || contains s p

-- The code points with the Unicode property White_Space, as `char::is_whitespace` tests it.
unfoldable pub is_whitespace : ℕ → Bool
is_whitespace c =
    (leb 0x9 c && leb c 0xd)
    || c == 0x20
    || c == 0x85
    || c == 0xa0
    || c == 0x1680
    || (leb 0x2000 c && leb c 0x200a)
    || c == 0x2028
    || c == 0x2029
    || c == 0x202f
    || c == 0x205f
    || c == 0x3000

unfoldable pub trim_start : List ℕ → List ℕ
unfolding is_whitespace
trim_start [] = []
trim_start (c ∷ s) = let rest = trim_start s in if is_whitespace c then rest else c ∷ s

unfoldable pub trim : List ℕ → List ℕ
unfolding trim_start
trim s = reverse (trim_start (reverse (trim_start s)))

abbrev pub text_eq : List ℕ → List ℕ → Bool
text_eq [] [] = true
text_eq (c ∷ s) (d ∷ t) = (c == d) && text_eq s t
text_eq _ _ = false

-- `trim` and `replace` of a `str`, as a text.
abbrev reverse_onto : String → String → String
reverse_onto t String.[] = t
reverse_onto t (String.◌∷◌ c s) = reverse_onto (String.◌∷◌ c t) s

unfoldable skip_spaces : String → String
unfolding is_whitespace
skip_spaces String.[] = String.[]
skip_spaces (String.◌∷◌ c s) =
    let rest = skip_spaces s in if is_whitespace (code c) then rest else String.◌∷◌ c s

unfoldable pub trimmed : String → String
unfolding skip_spaces
trimmed s = reverse_onto String.[] (skip_spaces (reverse_onto String.[] (skip_spaces s)))

abbrev pub replace : Char → Char → String → String
replace a b String.[] = String.[]
replace a b (String.◌∷◌ c s) =
    let rest = replace a b s in if code c == code a then String.◌∷◌ b rest else String.◌∷◌ c rest

-- `find` and `rfind` of an ASCII character: the position of the first, and of the last.
abbrev pub find : ℕ → List ℕ → Option ℕ
find a [] = none
find a (c ∷ s) = if c == a then some 0 else elim (find a s) [ none ↦ none | some i ↦ some (suc i) ]

abbrev pub rfind : ℕ → List ℕ → Option ℕ
rfind a [] = none
rfind a (c ∷ s) = elim (rfind a s) [
  | none ↦ if c == a then some 0 else none
  | some i ↦ some (suc i)
]
