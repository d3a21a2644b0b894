-- ===== src/Base/Float.antt =====
-- The machine's `f64`, which is no code of the repository: a type with the operations that the
-- program calls, and the facts of IEEE 754 that its correctness rests on. `geb a b` is `a >= b`,
-- false when either is not a number.
use mathlib.Core.Path.{◌≡◌}
use mathlib.Core.Bool.{Bool, true}

pub record F64 : Type 1 where
  pub Num : Type 0
  pub zero : Num
  pub add : Num → Num → Num
  pub max : Num → Num → Num
  pub geb : Num → Num → Bool
  -- `f64::max` returns the other operand when one is not a number.
  pub max-geb_zero : (x : Num) → geb (max x zero) zero ≡ true
  pub geb_trans : (a b c : Num) → geb a b ≡ true → geb b c ≡ true → geb a c ≡ true
  -- Rounding is monotone, so adding a margin that is not negative does not go below.
  pub geb_add : (c i m : Num) → geb m zero ≡ true → geb c (add i m) ≡ true → geb c i ≡ true
