-- ===== src/Ternary/Codes.antt =====
-- Packing and unpacking of two-bit codes are inverse to each other (crates/ternary/src/codes.rs).
use Prim.Native.Nat.{bit_or}
use entheai.Base.{
  ℕ, zero, suc, ◌+◌, ◌*◌, ◌/◌, ◌%◌, ◌^◌, ◌<◌, ◌≤◌, ◌≡◌, refl, ap, subst, ◌∙◌, List, [], ◌∷◌, length,
  All, arith,
}
use entheai.Base.Bits.{bit_or_above, bit_and_three}
use entheai.Ternary.{decode_fields, decode_word, encode_fields, encode_word}
use native.Mathlib.Nat.{pow-suc, pow-le-pow_right, one-le-pow, mod-eq_of_lt, div-div-eq-div-mul}

-- The value of a list of codes in base 4.
abbrev pub base4 : List ℕ → ℕ
base4 [] = 0
base4 (c ∷ cs) = c + 4 * base4 cs

base4-lt : (cs : List ℕ) → All (λ c. c < 4) cs → base4 cs < 4 ^ length cs
base4-lt [] h = omega arith
base4-lt (c ∷ cs) h = omega (arith, base4-lt cs h.1, pow-suc 4 (length cs))

-- The digits of a number in base 4.
abbrev pub digits4 : ℕ → ℕ → List ℕ
digits4 zero w = []
digits4 (suc n) w = w % 4 ∷ digits4 n (w / 4)

digits4-base4 : (cs : List ℕ) → All (λ c. c < 4) cs → digits4 (length cs) (base4 cs) ≡ cs
digits4-base4 [] h = refl
digits4-base4 (c ∷ cs) h =
    let low : (c + 4 * base4 cs) % 4 ≡ c = omega arith in
    let high : (c + 4 * base4 cs) / 4 ≡ base4 cs = omega arith in
    rw (low, high) (ap (λ (t : List ℕ). c ∷ t) (digits4-base4 cs h.1))

base4-digits4 : (n w : ℕ) → w < 4 ^ n → base4 (digits4 n w) ≡ w
base4-digits4 zero w h = omega arith
base4-digits4 (suc n) w h = omega (arith, base4-digits4 n (w / 4) (omega (arith, pow-suc 4 n)))

four_pow : (i : ℕ) → 2 ^ (2 * i) ≡ 4 ^ i
four_pow zero = refl
four_pow (suc i) =
    let e : 2 * suc i ≡ suc (suc (2 * i)) = omega arith in
    rw e (omega (arith, pow-suc 2 (suc (2 * i)), pow-suc 2 (2 * i), pow-suc 4 i, four_pow i))

next_field : (i w : ℕ) → w / 2 ^ (2 * i) / 4 ≡ w / 2 ^ (2 * suc i)
next_field i w =
    div-div-eq-div-mul w (2 ^ (2 * i)) 4
    ∙ ap (λ (t : ℕ). w / t) (omega (arith, four_pow i, four_pow (suc i), pow-suc 4 i))

decode_fields-digits4 : (n i w : ℕ) → decode_fields n i w ≡ digits4 n (w / 2 ^ (2 * i))
unfolding decode_fields
decode_fields-digits4 zero i w = refl
decode_fields-digits4 (suc n) i w =
    rw (bit_and_three (w / 2 ^ (2 * i)))
      (rw (decode_fields-digits4 n (suc i) w) (rw (next_field i w)))

pub decode_word-digits4 : (w : ℕ) → decode_word w ≡ digits4 16 w
unfolding decode_word
decode_word-digits4 w = decode_fields-digits4 16 0 w ∙ ap (digits4 16) (omega arith)

-- The shift of a code into its field loses no bit.
shifted : (c i : ℕ) → c < 4 → i < 16 → c * 2 ^ (2 * i) % 2 ^ 32 ≡ c * 2 ^ (2 * i)
shifted c i h k =
    let top : 4 ^ suc i ≤ 4 ^ 16 = pow-le-pow_right (omega arith) k in
    mod-eq_of_lt (grind (arith, top, pow-suc 4 i, four_pow i, one-le-pow i 4 (omega arith)))

encode_fields-base4 :
    (i word : ℕ) (cs : List ℕ)
    → word < 4 ^ i
    → i + length cs ≤ 16
    → All (λ c. c < 4) cs
    → encode_fields i word cs ≡ word + 4 ^ i * base4 cs
unfolding encode_fields
encode_fields-base4 i word [] h k a = omega arith
encode_fields-base4 i word (c ∷ cs) h k a =
    let e : bit_or word (c * 2 ^ (2 * i) % 2 ^ 32) ≡ word + c * 4 ^ i =
      rw (shifted c i a.0 (omega arith)) (
        bit_or_above (2 * i) word c (rw (four_pow i) h)
        ∙ ap (λ (t : ℕ). word + c * t) (four_pow i)) in
    let fits : word + c * 4 ^ i < 4 ^ suc i = grind (arith, pow-suc 4 i, h, a.0) in
    let sum : word + c * 4 ^ i + 4 ^ suc i * base4 cs ≡ word + 4 ^ i * (c + 4 * base4 cs) =
      rw (pow-suc 4 i) (omega arith) in
    rw e (encode_fields-base4 (suc i) (word + c * 4 ^ i) cs fits (omega arith) a.1 ∙ sum)

encode_word-base4 : (cs : List ℕ) → length cs ≤ 16 → All (λ c. c < 4) cs → encode_word cs ≡ base4 cs
unfolding encode_word
encode_word-base4 cs h a = encode_fields-base4 0 0 cs (omega arith) (omega arith) a ∙ omega arith

All-digits4 : (n w : ℕ) → All (λ c. c < 4) (digits4 n w)
All-digits4 zero w = tt
All-digits4 (suc n) w = (omega arith, All-digits4 n (w / 4))

length-digits4 : (n w : ℕ) → length (digits4 n w) ≡ n
length-digits4 zero w = refl
length-digits4 (suc n) w = ap suc (length-digits4 n (w / 4))

-- Unpacking a packed list of sixteen two-bit codes gives the codes back.
pub decode_word-encode_word :
    (cs : List ℕ) → length cs ≡ 16 → All (λ c. c < 4) cs → decode_word (encode_word cs) ≡ cs
decode_word-encode_word cs n a = rw (encode_word-base4 cs (omega (arith, n)) a) (
    decode_word-digits4 (base4 cs)
    ∙ subst (λ (k : ℕ). digits4 k (base4 cs) ≡ cs) n (digits4-base4 cs a))

-- Packing the codes of a 32-bit word gives the word back, and the codes are sixteen, each below 4.
pub encode_word-decode_word :
    (w : ℕ)
    → w < 2 ^ 32
    → (encode_word (decode_word w) ≡ w)
      × (length (decode_word w) ≡ 16)
      × All (λ c. c < 4) (decode_word w)
encode_word-decode_word w h = rw (decode_word-digits4 w) (
  encode_word-base4 (digits4 16 w) (omega (arith, length-digits4 16 w)) (All-digits4 16 w)
      ∙ base4-digits4 16 w h,
  length-digits4 16 w,
  All-digits4 16 w,
)
