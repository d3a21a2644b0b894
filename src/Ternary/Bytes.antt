-- ===== src/Ternary/Bytes.antt =====
-- Five ternary values to a byte, and back (crates/ultragraph/src/pack.rs).
use entheai.Base.{
  ℕ, zero, suc, ◌+◌, ◌*◌, ◌/◌, ◌%◌, ◌<◌, ◌≤◌, ◌≡◌, refl, ap, ◌∙◌, some, List, [], ◌∷◌, ◌++◌, length,
  take, All, arith, true,
}
use entheai.Base.Assoc.{is_some}
use entheai.Ternary.{
  ℤ, pos, negsuc, digit_of, value_of, chunks, pack_chunks, pack_ternary, unpack_byte, unpack_bytes,
  unpack_ternary,
}

abbrev pub IsTernary : ℤ → Type 0
IsTernary v = is_some (digit_of v) ≡ true

-- A ternary value is that of a digit below 3.
digit : (v : ℤ) → IsTernary v → (d : ℕ) × (d < 3) × (digit_of v ≡ some d) × (value_of d ≡ v)
digit (negsuc zero) h = (0, omega arith, refl, refl)
digit (negsuc (suc n)) h = cc
digit (pos zero) h = (1, omega arith, refl, refl)
digit (pos (suc zero)) h = (2, omega arith, refl, refl)
digit (pos (suc (suc n))) h = cc

abbrev byte_of : ℕ → ℕ → ℕ → ℕ → ℕ → ℕ
byte_of a b c d e = a + b * 3 + c * 9 + d * 27 + e * 81

-- A byte holds the digits of five values without loss.
whole_byte :
    (a b c d e s : ℕ)
    → a < 3
    → b < 3
    → c < 3
    → d < 3
    → e < 3
    → s ≡ byte_of a b c d e
    → unpack_byte 5 (s % 256) ≡ value_of a ∷ value_of b ∷ value_of c ∷ value_of d ∷ value_of e ∷ []
whole_byte a b c d e s ha hb hc hd he hs =
    let t = s % 256 in
    let ta : t % 3 ≡ a = omega arith in
    let t1 : t / 3 ≡ b + c * 3 + d * 9 + e * 27 = omega arith in
    let tb : t / 3 % 3 ≡ b = omega arith in
    let t2 : t / 3 / 3 ≡ c + d * 3 + e * 9 = omega arith in
    let tc : t / 3 / 3 % 3 ≡ c = omega arith in
    let t3 : t / 3 / 3 / 3 ≡ d + e * 3 = omega arith in
    let td : t / 3 / 3 / 3 % 3 ≡ d = omega arith in
    let te : t / 3 / 3 / 3 / 3 % 3 ≡ e = omega arith in cc (ta, tb, tc, td, te)

-- Packing succeeds on these values, to these bytes, which give the values back.
abbrev Packs : List ℤ → Type 0
Packs q =
    (bytes : List ℕ) × (pack_chunks (chunks q) ≡ some bytes)
    × (take (length q) (unpack_bytes bytes) ≡ q)
    × (length q ≤ 5 * length bytes)
    × (5 * length bytes < length q + 5)

packs : (q : List ℤ) → All IsTernary q → Packs q
packs [] h = ([], refl, refl, omega arith, omega arith)
packs (v ∷ []) h =
    let (a, ha, da, va) = digit v h.0 in
    let s : ℕ = 0 + a * 1 in
    (
      s % 256 ∷ [],
      rw da refl,
      ap (λ (l : List ℤ). take 1 (l ++ []))
            (whole_byte a 0 0 0 0 s ha (omega arith) (omega arith) (omega arith) (omega arith)
              (omega arith))
          ∙ cc va,
      omega arith,
      omega arith,
    )
packs (v ∷ w ∷ []) h =
    let (a, ha, da, va) = digit v h.0 in
    let (b, hb, db, vb) = digit w h.1.0 in
    let s : ℕ = 0 + a * 1 + b * 3 in
    (
      s % 256 ∷ [],
      rw (da, db) refl,
      ap (λ (l : List ℤ). take 2 (l ++ []))
            (whole_byte a b 0 0 0 s ha hb (omega arith) (omega arith) (omega arith) (omega arith))
          ∙ cc (va, vb),
      omega arith,
      omega arith,
    )
packs (v ∷ w ∷ x ∷ []) h =
    let (a, ha, da, va) = digit v h.0 in
    let (b, hb, db, vb) = digit w h.1.0 in
    let (c, hc, dc, vc) = digit x h.1.1.0 in
    let s : ℕ = 0 + a * 1 + b * 3 + c * 9 in
    (
      s % 256 ∷ [],
      rw (da, db, dc) refl,
      ap (λ (l : List ℤ). take 3 (l ++ []))
            (whole_byte a b c 0 0 s ha hb hc (omega arith) (omega arith) (omega arith))
          ∙ cc (va, vb, vc),
      omega arith,
      omega arith,
    )
packs (v ∷ w ∷ x ∷ y ∷ []) h =
    let (a, ha, da, va) = digit v h.0 in
    let (b, hb, db, vb) = digit w h.1.0 in
    let (c, hc, dc, vc) = digit x h.1.1.0 in
    let (d, hd, dd, vd) = digit y h.1.1.1.0 in
    let s : ℕ = 0 + a * 1 + b * 3 + c * 9 + d * 27 in
    (
      s % 256 ∷ [],
      rw (da, db, dc, dd) refl,
      ap (λ (l : List ℤ). take 4 (l ++ []))
            (whole_byte a b c d 0 s ha hb hc hd (omega arith) (omega arith))
          ∙ cc (va, vb, vc, vd),
      omega arith,
      omega arith,
    )
packs (v ∷ w ∷ x ∷ y ∷ z ∷ rest) h =
    let (a, ha, da, va) = digit v h.0 in
    let (b, hb, db, vb) = digit w h.1.0 in
    let (c, hc, dc, vc) = digit x h.1.1.0 in
    let (d, hd, dd, vd) = digit y h.1.1.1.0 in
    let (e, he, de, ve) = digit z h.1.1.1.1.0 in
    let (bytes, p, u, low, high) = packs rest h.1.1.1.1.1 in
    let s : ℕ = 0 + a * 1 + b * 3 + c * 9 + d * 27 + e * 81 in
    (
      s % 256 ∷ bytes,
      rw (da, db, dc, dd, de) (rw p),
      ap
            (λ (l : List ℤ).
              take (suc (suc (suc (suc (suc (length rest)))))) (l ++ unpack_bytes bytes))
            (whole_byte a b c d e s ha hb hc hd he (omega arith))
          ∙ cc (va, vb, vc, vd, ve, u),
      omega arith,
      omega arith,
    )

-- Packing a list of values in -1, 0, 1 never fails, takes one byte for each five values and one for
-- the rest, and unpacking as many values as there were gives the list back.
pub unpack_ternary-pack_ternary :
    (q : List ℤ)
    → All IsTernary q
    → (bytes : List ℕ) × (pack_ternary q ≡ some bytes)
      × (unpack_ternary bytes (length q) ≡ q)
      × (length bytes ≡ (length q + 4) / 5)
unfolding pack_ternary unpack_ternary
unpack_ternary-pack_ternary q h =
    let (bytes, p, u, low, high) = packs q h in (bytes, p, u, omega arith)
