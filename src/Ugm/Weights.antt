-- ===== src/Ugm/Weights.antt =====
-- What a module that was read holds (crates/ultragraph/src/ugm.rs, `from_bytes`).
use entheai.Base.{
  ℕ, zero, suc, ◌+◌, ◌-◌, ◌*◌, ◌≤◌, ◌<◌, ◌^◌, ◌≡◌, refl, subst, sym, ap, ◌∙◌, inl, inr, Bool, true,
  false, not, some, none, List, [], ◌∷◌, length, take, drop, All, ltb, ◌==◌, if◌then◌else◌, arith,
  Bool-cases,
}
use entheai.Ugm.{
  Outcome, ok, invalid, panics, ◌>>=◌, usize, slice, le_bytes, u16_at, u32_at, kind_dense, UgmTree,
  UgmFile, read_tree, read_trees, read_edges, floats, read_weight, read_weights, same_bytes, magic,
  from_bytes,
}
use native.Mathlib.Nat.{mul-le-mul_left, pow-suc, pow-le-pow_right}

-- `P` holds of the value, if there is one.
unfoldable Yields {ℓ κ} : {A : Type ℓ} → (A → Type κ) → Outcome A → Type κ
Yields P (ok a) = P a
Yields P invalid = Unit
Yields P panics = Unit

module _ {ℓ μ κ ρ} {A : Type ℓ} {B : Type κ} (Q : A → Type μ) (P : B → Type ρ) where
  Yields-bind :
      (m : Outcome A) (f : A → Outcome B)
      → Yields Q m
      → ((a : A) → Q a → Yields P (f a))
      → Yields P (m >>= f)
  unfolding Yields
  Yields-bind (ok a) f q k = k a q
  Yields-bind invalid f q k = tt
  Yields-bind panics f q k = tt

module _ {ℓ κ} {A : Type ℓ} (P : A → Type κ) where
  Yields-if : (b : Bool) (m n : Outcome A) → Yields P m → Yields P n → Yields P (if b then m else n)
  unfolding Yields
  Yields-if true m n h k = h
  Yields-if false m n h k = k

  Yields-pure : (a : A) → P a → Yields P (ok a)
  unfolding Yields
  Yields-pure a h = h

  Yields-invalid : Yields P invalid
  unfolding Yields
  Yields-invalid = tt

  Yields-ok : (m : Outcome A) (a : A) → Yields P m → m ≡ ok a → P a
  unfolding Yields
  Yields-ok (ok b) a h e = subst P (ground (arith, e)) h
  Yields-ok invalid a h e = ground (arith, e)
  Yields-ok panics a h e = ground (arith, e)

Yields-itself {ℓ} : {A : Type ℓ} (m : Outcome A) → Yields (λ a. m ≡ ok a) m
unfolding Yields
Yields-itself (ok a) = refl
Yields-itself invalid = tt
Yields-itself panics = tt

abbrev Anything {ℓ} : {A : Type ℓ} → A → Type 0
Anything a = Unit

Yields-Anything {ℓ} : {A : Type ℓ} (m : Outcome A) → Yields Anything m
unfolding Yields
Yields-Anything (ok a) = tt
Yields-Anything invalid = tt
Yields-Anything panics = tt

abbrev pub IsByte : ℕ → Type 0
IsByte b = b < 256

length-take : (n : ℕ) (xs : List ℕ) → n ≤ length xs → length (take n xs) ≡ n
length-take zero xs h = refl
length-take (suc n) [] h = elim h [ ]
length-take (suc n) (x ∷ xs) h = omega (arith, length-take n xs (omega arith))

length-drop : (n : ℕ) (xs : List ℕ) → length (drop n xs) ≡ length xs - n
length-drop zero xs = omega arith
length-drop (suc n) [] = omega arith
length-drop (suc n) (x ∷ xs) = omega (arith, length-drop n xs)

take-IsByte : (n : ℕ) (xs : List ℕ) → All IsByte xs → All IsByte (take n xs)
take-IsByte zero xs h = tt
take-IsByte (suc n) [] h = tt
take-IsByte (suc n) (x ∷ xs) (h, k) = (h, take-IsByte n xs k)

drop-IsByte : (n : ℕ) (xs : List ℕ) → All IsByte xs → All IsByte (drop n xs)
drop-IsByte zero xs h = h
drop-IsByte (suc n) [] h = tt
drop-IsByte (suc n) (x ∷ xs) (h, k) = drop-IsByte n xs k

-- A slice that does not panic has the bytes between its two ends.
abbrev IsSlice : ℕ → ℕ → List ℕ → Type 0
IsSlice a b s = (a ≤ b) × (length s ≡ b - a) × All IsByte s

slice-IsSlice :
    (bytes : List ℕ) (a b : ℕ) → All IsByte bytes → Yields (IsSlice a b) (slice bytes a b)
unfolding slice Yields
slice-IsSlice bytes a b h = elim (Bool-cases (ltb b a)) [
  | inl back ↦ rw back tt
  | inr fwd ↦ rw fwd (elim (Bool-cases (ltb (length bytes) b)) [
    | inl long ↦ rw long tt
    | inr fits ↦ rw fits (
      ground (arith, fwd),
      length-take (b - a) (drop a bytes) (ground (arith, fwd, fits, length-drop a bytes)),
      take-IsByte (b - a) (drop a bytes) (drop-IsByte a bytes h),
    )
  ])
]

le_bytes-lt : (s : List ℕ) → All IsByte s → le_bytes s < 256 ^ length s
le_bytes-lt [] h = omega arith
le_bytes-lt (b ∷ s) h = omega (arith, h.0, le_bytes-lt s h.1, pow-suc 256 (length s))

abbrev IsWord : ℕ → Type 0
IsWord n = n < 2 ^ 32

u32_at-IsWord : (bytes : List ℕ) (c : ℕ) → All IsByte bytes → Yields IsWord (u32_at bytes c)
unfolding u32_at
u32_at-IsWord bytes c h =
    Yields-bind (IsSlice c (usize (c + 4))) IsWord (slice bytes c (usize (c + 4))) _
      (slice-IsSlice bytes c (usize (c + 4)) h)
      (λ s (lo, len, small).
        let short : length s ≤ 4 = omega arith in
        let top : 256 ^ length s ≤ 256 ^ 4 = pow-le-pow_right (omega arith) short in
        Yields-pure IsWord (le_bytes s) (omega (arith, le_bytes-lt s small, top)))

-- A row of the tree table: its dimensions have 32 bits and no weight is loaded yet.
abbrev IsRow : UgmTree → Type 0
IsRow t = (t.in_dim < 2 ^ 32) × (t.out_dim < 2 ^ 32) × (t.wq ≡ none) × (t.bias ≡ none)

read_tree-IsRow :
    (bytes : List ℕ) (c : ℕ) → All IsByte bytes → Yields (λ r. IsRow (r.0)) (read_tree bytes c)
unfolding read_tree Yields
read_tree-IsRow bytes c h =
    let i = u32_at-IsWord bytes (usize (c + 2)) h in
    let o = u32_at-IsWord bytes (usize (usize (c + 2) + 4)) h in ground (arith, i, o)

read_trees-IsRow :
    (n : ℕ) (bytes : List ℕ) (c : ℕ)
    → All IsByte bytes
    → Yields (λ ts. (length ts ≡ n) × All IsRow ts) (read_trees n bytes c)
unfolding read_trees
read_trees-IsRow zero bytes c h = Yields-pure _ [] (refl, tt)
read_trees-IsRow (suc n) bytes c h =
    Yields-bind (λ r. IsRow (r.0)) _ (read_tree bytes c) _ (read_tree-IsRow bytes c h)
      (λ r row.
        Yields-bind _ _ (read_trees n bytes r.1) _ (read_trees-IsRow n bytes r.1 h)
          (λ ts (len, rows). Yields-pure _ (r.0 ∷ ts) (ap suc len, (row, rows))))

read_edges-length :
    (n : ℕ) (bytes : List ℕ) (c : ℕ) → Yields (λ es. length es ≡ n) (read_edges n bytes c)
unfolding read_edges Yields
read_edges-length zero bytes c = refl
read_edges-length (suc n) bytes c =
    let rest = read_edges-length n bytes (usize (c + 9)) in ground (arith, rest)

length-floats : (n : ℕ) (s : List ℕ) → length s ≡ n * 4 → length (floats s) ≡ n
length-floats zero [] e = refl
length-floats zero (a ∷ s) e = ground (arith, e)
length-floats (suc n) [] e = ground (arith, e)
length-floats (suc n) (a ∷ []) e = ground (arith, e)
length-floats (suc n) (a ∷ b ∷ []) e = ground (arith, e)
length-floats (suc n) (a ∷ b ∷ c ∷ []) e = ground (arith, e)
length-floats (suc n) (a ∷ b ∷ c ∷ d ∷ s) e = ap suc (length-floats n s (omega (arith, e)))

-- What is loaded into a tree: for a dense one a weight for each pair of an output and an input, and a
-- bias for each output; for another one nothing.
abbrev pub LoadedAs : Bool → UgmTree → Type 0
LoadedAs true t =
    (w : List ℕ) × (b : List ℕ) × (t.wq ≡ some w)
    × (t.bias ≡ some b)
    × (length w ≡ t.out_dim * t.in_dim)
    × (length b ≡ t.out_dim)
LoadedAs false t = (t.wq ≡ none) × (t.bias ≡ none)

abbrev pub IsLoaded : UgmTree → Type 0
IsLoaded t = LoadedAs (t.kind == kind_dense) t

-- No wrap hides in a slice of `m` bytes that does not panic.
exact : (c m : ℕ) → m < 2 ^ 64 → c ≤ usize (c + usize m) → usize (c + usize m) - c ≡ m
exact c m h k = omega (arith, h, k)

words : (a b : ℕ) → IsWord a → IsWord b → a * b < 2 ^ 64
words a b h k =
    let top : b ≤ 2 ^ 32 - 1 = omega (arith, k) in omega (arith, h, mul-le-mul_left a top)

dense-IsLoaded :
    (t : UgmTree) (w b : List ℕ)
    → (t.kind == kind_dense) ≡ true
    → length w ≡ t.out_dim * t.in_dim
    → length b ≡ t.out_dim
    → IsLoaded (record t { wq = some w; bias = some b })
dense-IsLoaded t w b dense e e' = rw dense (w, b, refl, refl, e, e')

read_dense :
    (bytes : List ℕ) (c : ℕ) (t : UgmTree)
    → All IsByte bytes
    → IsRow t
    → (t.kind == kind_dense) ≡ true
    → Yields (λ r. IsLoaded (r.0)) (read_weight bytes c t)
unfolding read_weight
read_dense bytes c t h (i, o, w, b) dense =
    let m = t.out_dim * t.in_dim in
    let cw = usize (c + usize m) in
    let end = usize (cw + usize (t.out_dim * 4)) in
    rw dense (
      Yields-if _ _ invalid _ (Yields-invalid _) (
        Yields-bind (IsSlice c cw) _ (slice bytes c cw) _ (slice-IsSlice bytes c cw h)
          (λ wq (lo, len, _).
            Yields-bind (IsSlice cw end) _ (slice bytes cw end) _ (slice-IsSlice bytes cw end h)
              (λ s (lo', len', _).
                Yields-pure _ (_, _)
                  (dense-IsLoaded t wq (floats s) dense
                    (len ∙ exact c m (words t.out_dim t.in_dim o i) lo)
                    (length-floats t.out_dim s
                      (len' ∙ exact cw (t.out_dim * 4) (omega arith) lo')))))))

read_weight-IsLoaded :
    (bytes : List ℕ) (c : ℕ) (t : UgmTree)
    → All IsByte bytes
    → IsRow t
    → Yields (λ r. IsLoaded (r.0)) (read_weight bytes c t)
unfolding read_weight
read_weight-IsLoaded bytes c t h row = elim (Bool-cases (t.kind == kind_dense)) [
  | inl dense ↦ read_dense bytes c t h row dense
  | inr other ↦ rw other (Yields-pure _ (t, c) (rw other (row.2, row.3)))
]

read_weights-IsLoaded :
    (bytes : List ℕ) (c : ℕ) (ts : List UgmTree)
    → All IsByte bytes
    → All IsRow ts
    → Yields (λ us. (length us ≡ length ts) × All IsLoaded us) (read_weights bytes c ts)
unfolding read_weights
read_weights-IsLoaded bytes c [] h rows = Yields-pure _ [] (refl, tt)
read_weights-IsLoaded bytes c (t ∷ ts) h (row, rows) =
    Yields-bind (λ r. IsLoaded (r.0)) _ (read_weight bytes c t) _
      (read_weight-IsLoaded bytes c t h row)
      (λ r loaded.
        Yields-bind _ _ (read_weights bytes r.1 ts) _ (read_weights-IsLoaded bytes r.1 ts h rows)
          (λ us (len, all'). Yields-pure _ (r.0 ∷ us) (ap suc len, (loaded, all'))))

-- What the header says and what the trees hold.
abbrev IsModuleOf : List ℕ → UgmFile → Type 0
IsModuleOf bytes f =
    (u32_at bytes 8 ≡ ok (length f.trees))
    × (u32_at bytes 12 ≡ ok (length f.ultra_edges))
    × All IsLoaded f.trees

skip {ℓ} :
    {A : Type ℓ} (bytes : List ℕ) (m : Outcome A) (f : A → Outcome UgmFile)
    → ((a : A) → Yields (IsModuleOf bytes) (f a))
    → Yields (IsModuleOf bytes) (m >>= f)
skip bytes m f k = Yields-bind Anything (IsModuleOf bytes) m f (Yields-Anything m) (λ a _. k a)

guard :
    (bytes : List ℕ) (b : Bool) (m : Outcome UgmFile)
    → Yields (IsModuleOf bytes) m
    → Yields (IsModuleOf bytes) (if b then invalid else m)
guard bytes b m k = Yields-if (IsModuleOf bytes) b invalid m (Yields-invalid _) k

from_bytes-IsModuleOf :
    (bytes : List ℕ) → All IsByte bytes → Yields (IsModuleOf bytes) (from_bytes bytes)
unfolding from_bytes
from_bytes-IsModuleOf bytes h = guard bytes (ltb (length bytes) 32) _ (
    skip bytes (slice bytes 0 4) _ (λ head. guard bytes (not (same_bytes head magic)) _ (
      skip bytes (u16_at bytes 4) _ (λ version. guard bytes (not (version == 1)) _ (
        skip bytes (u16_at bytes 6) _ (λ flags.
          Yields-bind _ _ (u32_at bytes 8) _ (Yields-itself (u32_at bytes 8)) (λ n e.
            Yields-bind _ _ (u32_at bytes 12) _ (Yields-itself (u32_at bytes 12)) (λ k e'.
              skip bytes (u32_at bytes 16) _ (λ at. skip bytes (u32_at bytes 20) _ (λ ue_at.
                skip bytes (u32_at bytes 24) _ (λ w_at. skip bytes (u32_at bytes 28) _ (λ size.
                  Yields-bind _ _ (read_trees n bytes at) _ (read_trees-IsRow n bytes at h)
                    (λ ts (len, rows).
                      Yields-bind _ _ (read_edges k bytes ue_at) _ (read_edges-length k bytes ue_at)
                        (λ es len'.
                          Yields-bind _ _ (read_weights bytes w_at ts) _
                            (read_weights-IsLoaded bytes w_at ts h rows)
                            (λ us (same, loaded).
                              Yields-pure _ (record { trees = us; ultra_edges = es })
                                (
                                  e ∙ ap ok (sym len ∙ sym same),
                                  e' ∙ ap ok (sym len'),
                                  loaded,
                                ))))))))))))))))

-- The module that a file of bytes is read as, if it is read, has the numbers of trees and of edges that
-- the header gives (bytes 8 to 15), and each of its trees is loaded: a dense one with a weight for
-- each pair of an output and an input and a bias for each output, another one with nothing.
pub from_bytes-IsLoaded :
    (bytes : List ℕ) (f : UgmFile)
    → All IsByte bytes
    → from_bytes bytes ≡ ok f
    → (u32_at bytes 8 ≡ ok (length f.trees))
      × (u32_at bytes 12 ≡ ok (length f.ultra_edges))
      × All IsLoaded f.trees
from_bytes-IsLoaded bytes f h e =
    Yields-ok (IsModuleOf bytes) (from_bytes bytes) f (from_bytes-IsModuleOf bytes h) e
