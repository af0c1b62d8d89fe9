-- ===== src/Base/Decimal.antt =====
-- `strconv.Atoi` reads what `%d` prints.
use Prim.Native.Char.{Char, code}
use Prim.Native.Nat.{ℕ, zero, suc, ◌+◌, ◌*◌, ◌/◌, ◌%◌, ◌<◌, ◌≤◌}
use Prim.Native.String.{String}
use mathlib.Core.Path.{◌≡◌, refl, sym, ap, ◌∙◌}
use mathlib.Core.Logic.{inl, inr}
use mathlib.Core.Option.{some}
use native.Mathlib.Omega.{arith}
use lxcri.Base.Tests.{eqb, Bool-cases}
use lxcri.Base.Text.{◌<>◌, digit, digits_from, decimal}
use lxcri.Base.Int.{pos, digits_value, unsigned_value, in_range, atoi}

-- The digit of a number below ten.
digit_lem : (d : ℕ) → d < 10 → (c : Char) × (digit d ≡ String.◌∷◌ c "") × (code c ≡ 48 + d)
unfolding digit
digit_lem zero lt = (_, refl, refl)
digit_lem (suc zero) lt = (_, refl, refl)
digit_lem (suc (suc zero)) lt = (_, refl, refl)
digit_lem (suc (suc (suc zero))) lt = (_, refl, refl)
digit_lem (suc (suc (suc (suc zero)))) lt = (_, refl, refl)
digit_lem (suc (suc (suc (suc (suc zero))))) lt = (_, refl, refl)
digit_lem (suc (suc (suc (suc (suc (suc zero)))))) lt = (_, refl, refl)
digit_lem (suc (suc (suc (suc (suc (suc (suc zero))))))) lt = (_, refl, refl)
digit_lem (suc (suc (suc (suc (suc (suc (suc (suc zero)))))))) lt = (_, refl, refl)
digit_lem (suc (suc (suc (suc (suc (suc (suc (suc (suc zero))))))))) lt = (_, refl, refl)
digit_lem (suc (suc (suc (suc (suc (suc (suc (suc (suc (suc d)))))))))) lt = absurd (omega arith)

digits_value-cons :
    (n acc : ℕ) (t : String)
    → digits_value acc (digit (n % 10) <> t) ≡ digits_value (acc * 10 + n % 10) t
unfolding digits_value
digits_value-cons n acc t = let (c, e, q) = digit_lem (n % 10) (omega arith) in rw e (ground arith)

-- The digits of a number are read back, in front of any text.
digits_value-digits_from :
    (f n : ℕ) (t : String) → n < f → digits_value 0 (digits_from f n t) ≡ digits_value n t
unfolding digits_from
digits_value-digits_from zero n t lt = absurd (omega arith)
digits_value-digits_from (suc f) n t lt = elim (Bool-cases (eqb (n / 10) 0)) [
  | inl small ↦ rw small (digits_value-cons n 0 t ∙ ap (λ m. digits_value m t) (ground arith))
  | inr large ↦ rw large (
      digits_value-digits_from f (n / 10) (digit (n % 10) <> t) (ground arith)
      ∙ digits_value-cons n (n / 10) t
      ∙ ap (λ m. digits_value m t) (ground arith))
]

-- They are not empty, and start with a digit.
abbrev StartsWithDigit : String → Type 0
StartsWithDigit s = (c : Char) × (t : String) × (s ≡ String.◌∷◌ c t) × (48 ≤ code c) × (code c ≤ 57)

digits_from-StartsWithDigit : (f n : ℕ) (t : String) → n < f → StartsWithDigit (digits_from f n t)
unfolding digits_from
digits_from-StartsWithDigit zero n t lt = absurd (omega arith)
digits_from-StartsWithDigit (suc f) n t lt = elim (Bool-cases (eqb (n / 10) 0)) [
  | inl small ↦
      let (c, e, q) = digit_lem (n % 10) (omega arith) in
      rw (small, e) (c, t, refl, omega arith, omega arith)
  | inr large ↦
      rw large (digits_from-StartsWithDigit f (n / 10) (digit (n % 10) <> t) (ground arith))
]

atoi-digits :
    (c : Char) (t : String)
    → 48 ≤ code c
    → code c ≤ 57
    → atoi (String.◌∷◌ c t) ≡ in_range (digits_value 0 (String.◌∷◌ c t))
unfolding atoi unsigned_value
atoi-digits c t lo hi = ground arith

-- Atoi reads what %d prints of a number in range.
pub atoi-decimal : (n : ℕ) → n < 9223372036854775808 → atoi (decimal n) ≡ some (pos n)
unfolding decimal in_range digits_value
atoi-decimal n lt =
    let (c, t, e, lo, hi) = digits_from-StartsWithDigit (suc n) n "" (omega arith) in
    ap atoi e
    ∙ atoi-digits c t lo hi
    ∙ ap (λ s. in_range (digits_value 0 s)) (sym e)
    ∙ ap in_range (digits_value-digits_from (suc n) n "" (omega arith))
    ∙ ground arith
