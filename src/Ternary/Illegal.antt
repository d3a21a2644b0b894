-- ===== src/Ternary/Illegal.antt =====
-- The whole-word test for the reserved code (crates/ternary/src/codes.rs) finds it in every field.
use Prim.Native.Nat.{bit_and}
use entheai.Base.{ℕ, zero, suc, ◌+◌, ◌*◌, ◌/◌, ◌%◌, ◌≡◌, not, any, ◌==◌, min, arith}
use entheai.Base.Bits.{bit_and_digit, bit_and-zero}
use entheai.Ternary.{word_has_illegal_code, decode_word}
use entheai.Ternary.Codes.{digits4, decode_word-digits4}

-- The mask that keeps the lower bit of each of `n` fields.
abbrev low_bits : ℕ → ℕ
low_bits zero = 0
low_bits (suc n) = 1 + 4 * low_bits n

-- One field of the test.
field_test :
    (w m : ℕ)
    → bit_and (bit_and w (w / 2)) (1 + 4 * m)
      ≡ 4 * bit_and (bit_and (w / 4) (w / 4 / 2)) m + min (w % 2) (w / 2 % 2)
field_test w m =
    let quarter : w / 2 / 2 ≡ w / 4 = omega arith in
    let eighth : w / 2 / 2 / 2 ≡ w / 4 / 2 = omega arith in
    let m1 : (1 + 4 * m) / 2 ≡ 2 * m = omega arith in
    let m2 : 2 * m / 2 ≡ m = omega arith in
    let x = bit_and w (w / 2) in
    let x1 : x / 2 ≡ bit_and (w / 2) (w / 2 / 2) = omega (arith, bit_and_digit w (w / 2)) in
    let x2 : x / 2 / 2 ≡ bit_and (w / 2 / 2) (w / 2 / 2 / 2) =
      omega (arith, x1, bit_and_digit (w / 2) (w / 2 / 2)) in
    let y : bit_and (x / 2) (2 * m) ≡ bit_and (x / 2 / 2) m * 2 =
      ground (arith, bit_and_digit (x / 2) (2 * m), m2) in
    ground (arith, bit_and_digit x (1 + 4 * m), m1, y, x2, quarter, eighth, bit_and_digit w (w / 2))

some_three :
    (n w : ℕ)
    → (bit_and (bit_and w (w / 2)) (low_bits n) == 0) ≡ not (any (λ c. c == 3) (digits4 n w))
some_three zero w = ground (arith, bit_and-zero (bit_and w (w / 2)))
some_three (suc n) w = ground (arith, field_test w (low_bits n), some_three n (w / 4))

-- The test on the whole word is true exactly when one of the sixteen decoded codes is the reserved 3.
pub word_has_illegal_code-any :
    (w : ℕ) → word_has_illegal_code w ≡ any (λ c. c == 3) (decode_word w)
unfolding word_has_illegal_code
word_has_illegal_code-any w = rw (decode_word-digits4 w) (ground (arith, some_three 16 w))
