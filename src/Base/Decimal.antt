-- ===== src/Base/Decimal.antt =====
-- `format!` of a number, and that two numbers are never written alike.
use Prim.Native.Nat.{ℕ, zero, suc, ◌+◌, ◌-◌, ◌*◌, ◌/◌, ◌%◌, ◌≤◌}
use Prim.Native.Char.{Char, code}
use Prim.Native.String.{String}
use mathlib.Core.Path.{◌≡◌, refl, sym, ap, ◌∙◌}
use native.Mathlib.Omega.{arith}
use mathlib.Core.Logic.{inl, inr}
use entheai.Base.Tests.{◌==◌, ==_iff, Bool-cases, if◌then◌else◌}

abbrev digit : ℕ → Char
digit zero = "0"
digit (suc zero) = "1"
digit (suc (suc zero)) = "2"
digit (suc (suc (suc zero))) = "3"
digit (suc (suc (suc (suc zero)))) = "4"
digit (suc (suc (suc (suc (suc zero))))) = "5"
digit (suc (suc (suc (suc (suc (suc zero)))))) = "6"
digit (suc (suc (suc (suc (suc (suc (suc zero))))))) = "7"
digit (suc (suc (suc (suc (suc (suc (suc (suc zero)))))))) = "8"
digit (suc (suc (suc (suc (suc (suc (suc (suc (suc n))))))))) = "9"

-- The digits of a number before a text, on fuel that is at least the number.
unfoldable digits : ℕ → ℕ → String → String
digits zero n s = s
digits (suc fuel) n s =
    let shorter = String.◌∷◌ (digit (n % 10)) s in
    let rest = digits fuel (n / 10) shorter in if n / 10 == 0 then shorter else rest

unfoldable pub decimal : ℕ → String
unfolding digits
decimal n = digits (suc n) n String.[]

-- The value of a text of digits, read on from a number.
abbrev value : ℕ → String → ℕ
value n String.[] = n
value n (String.◌∷◌ c s) = value (10 * n + (code c - 48)) s

code-digit : (n : ℕ) → n ≤ 9 → code (digit n) - 48 ≡ n
code-digit zero h = refl
code-digit (suc zero) h = refl
code-digit (suc (suc zero)) h = refl
code-digit (suc (suc (suc zero))) h = refl
code-digit (suc (suc (suc (suc zero)))) h = refl
code-digit (suc (suc (suc (suc (suc zero))))) h = refl
code-digit (suc (suc (suc (suc (suc (suc zero)))))) h = refl
code-digit (suc (suc (suc (suc (suc (suc (suc zero))))))) h = refl
code-digit (suc (suc (suc (suc (suc (suc (suc (suc zero)))))))) h = refl
code-digit (suc (suc (suc (suc (suc (suc (suc (suc (suc n))))))))) h = ground (arith, h)

value-digits : (fuel n : ℕ) (s : String) → suc n ≤ fuel → value 0 (digits fuel n s) ≡ value n s
unfolding digits
value-digits zero n s h = ground (arith, h)
value-digits (suc fuel) n s h =
    let e : 10 * (n / 10) + (code (digit (n % 10)) - 48) ≡ n =
      omega (arith, code-digit (n % 10) (omega arith)) in
    elim (Bool-cases (n / 10 == 0)) [
      | inl last ↦
          rw last (ap (λ (m : ℕ). value m s) (omega (arith, (==_iff (n / 10) 0).0 last, e)))
      | inr more ↦ rw more (
          value-digits fuel (n / 10) (String.◌∷◌ (digit (n % 10)) s) (ground (arith, h, more))
          ∙ ap (λ (m : ℕ). value m s) e)
    ]

pub decimal-injective : (m n : ℕ) → decimal m ≡ decimal n → m ≡ n
unfolding decimal
decimal-injective m n e =
    sym (value-digits (suc m) m String.[] (omega arith))
    ∙ ap (value 0) e
    ∙ value-digits (suc n) n String.[] (omega arith)

-- `push_str`.
infixr 65 ◌+s+◌
abbrev pub ◌+s+◌ : String → String → String
String.[] +s+ t = t
(String.◌∷◌ c s) +s+ t = String.◌∷◌ c (s +s+ t)

pub push_str-cancel : (s t u : String) → (s +s+ t) ≡ (s +s+ u) → t ≡ u
push_str-cancel String.[] t u e = e
push_str-cancel (String.◌∷◌ c s) t u e = push_str-cancel s t u (ground (arith, e))
