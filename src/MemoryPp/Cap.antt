-- ===== src/MemoryPp/Cap.antt =====
-- `cap_bytes` of crates/memory-pp/src/processor.rs and of crates/memory-pp/src/frozen.rs, and `cap` of
-- crates/memory-pp/src/mesh.rs: a text cut to a number of bytes. A text is a list of code points, of which
-- each has one to four bytes.
use entheai.Base.{
  ℕ, zero, suc, ◌+◌, ◌-◌, ◌≤◌, ◌<◌, ◌≡◌, ◌⊎◌, inl, inr, refl, ap, ◌∙◌, Bool, true, false, Option,
  none, some, List, [], ◌∷◌, ◌++◌, ltb, leb, if◌then◌else◌, arith, Bool-cases,
}

-- `char::len_utf8`.
unfoldable pub len_utf8 : ℕ → ℕ
len_utf8 c = if ltb c 0x80 then 1 else if ltb c 0x800 then 2 else if ltb c 0x10000 then 3 else 4

-- `str::len`.
unfoldable pub byte_len : List ℕ → ℕ
byte_len [] = 0
byte_len (c ∷ s) = len_utf8 c + byte_len s

-- `str::is_char_boundary`.
unfoldable pub is_char_boundary : List ℕ → ℕ → Bool
is_char_boundary s zero = true
is_char_boundary [] (suc e) = false
is_char_boundary (c ∷ s) (suc e) =
    let rest = is_char_boundary s (suc e - len_utf8 c) in
    if ltb (suc e) (len_utf8 c) then false else rest

-- `&s[..end]`, which panics where `end` is no boundary.
unfoldable pub slice_to : List ℕ → ℕ → Option (List ℕ)
slice_to s zero = some []
slice_to [] (suc e) = none
slice_to (c ∷ s) (suc e) =
    let rest = slice_to s (suc e - len_utf8 c) in
    if ltb (suc e) (len_utf8 c) then none else elim rest [ none ↦ none | some t ↦ some (c ∷ t) ]

-- `while end > 0 && !s.is_char_boundary(end) { end -= 1 }`.
unfoldable pub boundary_below : List ℕ → ℕ → ℕ
boundary_below s zero = 0
boundary_below s (suc e) =
    let rest = boundary_below s e in if is_char_boundary s (suc e) then suc e else rest

unfoldable pub cap_bytes : List ℕ → ℕ → Option (List ℕ)
unfolding byte_len slice_to boundary_below is_char_boundary
cap_bytes s max = if leb (byte_len s) max then some s else slice_to s (boundary_below s max)

-- The longest beginning of whole code points within a number of bytes.
unfoldable pub fitting : List ℕ → ℕ → List ℕ
fitting [] max = []
fitting (c ∷ s) max =
    let rest = fitting s (max - len_utf8 c) in if ltb max (len_utf8 c) then [] else c ∷ rest

len_utf8_pos : (c : ℕ) → 0 < len_utf8 c
unfolding len_utf8
len_utf8_pos c = ground arith

fitting-whole : (s : List ℕ) (max : ℕ) → byte_len s ≤ max → fitting s max ≡ s
unfolding byte_len fitting
fitting-whole [] max h = refl
fitting-whole (c ∷ s) max h = ground (arith, fitting-whole s (max - len_utf8 c))

boundary_below_self : (s : List ℕ) (e : ℕ) → is_char_boundary s e ≡ true → boundary_below s e ≡ e
unfolding boundary_below
boundary_below_self s zero h = refl
boundary_below_self s (suc e) h = ground (arith, h)

boundary_below-none :
    (s : List ℕ) (e : ℕ)
    → is_char_boundary s e ≡ false
    → boundary_below s e ≡ boundary_below s (e - 1)
unfolding boundary_below is_char_boundary
boundary_below-none s zero h = ground (arith, h)
boundary_below-none s (suc e) h = rw (h, boundary_below) (ap (boundary_below s) (omega arith))

boundary_below-nil : (e : ℕ) → boundary_below [] e ≡ 0
unfolding boundary_below is_char_boundary
boundary_below-nil zero = refl
boundary_below-nil (suc e) = boundary_below-nil e

is_char_boundary-cons :
    (c : ℕ) (s : List ℕ) (e : ℕ)
    → is_char_boundary (c ∷ s) (suc e)
      ≡ (if ltb (suc e) (len_utf8 c) then false else is_char_boundary s (suc e - len_utf8 c))
unfolding is_char_boundary
is_char_boundary-cons c s e = refl

boundary_below_zero : (s : List ℕ) → boundary_below s 0 ≡ 0
unfolding boundary_below
boundary_below_zero s = refl

is_char_boundary_zero : (s : List ℕ) (e : ℕ) → e ≡ 0 → is_char_boundary s e ≡ true
unfolding is_char_boundary
is_char_boundary_zero s zero h = refl
is_char_boundary_zero s (suc e) h = absurd (omega arith)

boundary_below-cons :
    (c : ℕ) (s : List ℕ) (e : ℕ)
    → boundary_below (c ∷ s) e
      ≡ (if ltb e (len_utf8 c) then 0 else len_utf8 c + boundary_below s (e - len_utf8 c))
boundary_below-cons c s zero = ground (arith, len_utf8_pos c, boundary_below_zero (c ∷ s))
boundary_below-cons c s (suc e) =
    let l = len_utf8 c in
    let down : e - l ≡ suc e - l - 1 = omega arith in
    ground (
      arith,
      boundary_below-cons c s e,
      ap (boundary_below s) down,
      is_char_boundary-cons c s e,
      boundary_below-none (c ∷ s) (suc e),
      boundary_below_self (c ∷ s) (suc e),
      boundary_below-none s (suc e - l),
      boundary_below_self s (suc e - l),
      is_char_boundary_zero s (suc e - l),
    )

slice_to-cons :
    (c : ℕ) (s t : List ℕ) (n e : ℕ)
    → n ≡ len_utf8 c + e
    → slice_to s e ≡ some t
    → slice_to (c ∷ s) n ≡ some (c ∷ t)
unfolding slice_to
slice_to-cons c s t zero e k h = absurd (omega (arith, len_utf8_pos c))
slice_to-cons c s t (suc n) e k h =
    let same : e ≡ suc n - len_utf8 c = omega arith in ground (arith, h, ap (slice_to s) same)

slice_to_zero : (s : List ℕ) → slice_to s 0 ≡ some []
unfolding slice_to
slice_to_zero s = refl

pub slice_to-fitting :
    (s : List ℕ) (max : ℕ) → slice_to s (boundary_below s max) ≡ some (fitting s max)
unfolding fitting
slice_to-fitting [] max = ap (slice_to []) (boundary_below-nil max) ∙ slice_to_zero []
slice_to-fitting (c ∷ s) max = elim (Bool-cases (ltb max (len_utf8 c))) [
  | inl small ↦
      let start : boundary_below (c ∷ s) max ≡ 0 =
        ground (arith, small, boundary_below-cons c s max) in
      ground (arith, small, start, slice_to_zero (c ∷ s))
  | inr large ↦
      let rest = boundary_below s (max - len_utf8 c) in
      let end : boundary_below (c ∷ s) max ≡ len_utf8 c + rest =
        ground (arith, large, boundary_below-cons c s max) in
      slice_to-cons c s (fitting s (max - len_utf8 c)) (boundary_below (c ∷ s) max) rest end
        (slice_to-fitting s (max - len_utf8 c))
      ∙ ground (arith, large)
]

pub cap_bytes-fitting : (s : List ℕ) (max : ℕ) → cap_bytes s max ≡ some (fitting s max)
unfolding cap_bytes
cap_bytes-fitting s max = ground (arith, slice_to-fitting s max, fitting-whole s max)

-- What is left of a text where only a beginning of it fits.
abbrev pub Stops : ℕ → List ℕ → List ℕ → Type 0
Stops max t cut =
    (cut ≡ []) ⊎ ((c : ℕ) × (rest : List ℕ) × (cut ≡ c ∷ rest) × (max < byte_len t + len_utf8 c))

Stops-cons :
    (c max : ℕ) (t cut : List ℕ)
    → len_utf8 c ≤ max
    → Stops (max - len_utf8 c) t cut
    → Stops max (c ∷ t) cut
unfolding byte_len
Stops-cons c max t cut h (inl e) = inl e
Stops-cons c max t cut h (inr (d, rest, e, k)) = inr (d, rest, e, omega arith)

byte_len_nil : (max : ℕ) → byte_len [] ≤ max
unfolding byte_len
byte_len_nil max = omega arith

byte_len-cons :
    (c max : ℕ) (t : List ℕ)
    → len_utf8 c ≤ max
    → byte_len t ≤ max - len_utf8 c
    → byte_len (c ∷ t) ≤ max
unfolding byte_len
byte_len-cons c max t h k = omega arith

over : (c max : ℕ) → ltb max (len_utf8 c) ≡ true → max < byte_len [] + len_utf8 c
unfolding byte_len
over c max h = ground (arith, h)

pub fitting-Stops :
    (s : List ℕ) (max : ℕ)
    → (cut : List ℕ) × (s ≡ fitting s max ++ cut)
      × (byte_len (fitting s max) ≤ max)
      × Stops max (fitting s max) cut
unfolding fitting
fitting-Stops [] max = ([], refl, byte_len_nil max, inl refl)
fitting-Stops (c ∷ s) max = elim (Bool-cases (ltb max (len_utf8 c))) [
  | inl small ↦ rw small (c ∷ s, refl, byte_len_nil max, inr (c, s, refl, over c max small))
  | inr large ↦
      let (cut, split, small, stops) = fitting-Stops s (max - len_utf8 c) in
      let fits : len_utf8 c ≤ max = ground (arith, large) in
      rw large (
        cut,
        ap (λ (t : List ℕ). c ∷ t) split,
        byte_len-cons c max (fitting s (max - len_utf8 c)) fits small,
        Stops-cons c max (fitting s (max - len_utf8 c)) cut fits stops,
      )
]

-- Cutting a text to a number of bytes does not panic; it gives a beginning of the text with at most that
-- number of bytes, and, unless that is the whole text, one code point more would be too many.
pub cap_bytes-longest :
    (s : List ℕ) (max : ℕ)
    → (t : List ℕ) × (cut : List ℕ) × (cap_bytes s max ≡ some t)
      × (s ≡ t ++ cut)
      × (byte_len t ≤ max)
      × Stops max t cut
cap_bytes-longest s max =
    let (cut, split, small, stops) = fitting-Stops s max in
    (fitting s max, cut, cap_bytes-fitting s max, split, small, stops)
