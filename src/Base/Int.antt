-- ===== src/Base/Int.antt =====
-- Go's signed integers, and `strconv.Atoi`. `negsuc n` is -(n + 1).
use Prim.Native.Char.{code}
use Prim.Native.Nat.{ℕ, zero, suc, ◌+◌, ◌-◌, ◌*◌}
use Prim.Native.String.{String}
use mathlib.Core.Path.{◌≡◌, refl, ap}
use mathlib.Core.Bool.{Bool, true, false, ◌&&◌}
use mathlib.Core.Option.{Option, none, some}
use lxcri.Base.Tests.{leb, ltb, eqb, eqb_iff, if◌then◌else◌}
use lxcri.Base.Text.{decimal, ◌<>◌}

pub data ℤ : Type 0 where
  pos : ℕ → ℤ
  negsuc : ℕ → ℤ

abbrev pub eq_ℤ : ℤ → ℤ → Bool
eq_ℤ (pos a) (pos b) = eqb a b
eq_ℤ (negsuc a) (negsuc b) = eqb a b
eq_ℤ _ _ = false

pub eq_ℤ_lem : (a b : ℤ) → eq_ℤ a b ≡ true → a ≡ b
eq_ℤ_lem (pos a) (pos b) e = ap pos ((eqb_iff a b).0 e)
eq_ℤ_lem (negsuc a) (negsuc b) e = ap negsuc ((eqb_iff a b).0 e)
eq_ℤ_lem (pos a) (negsuc b) e = absurd cc
eq_ℤ_lem (negsuc a) (pos b) e = absurd cc

-- fmt.Sprintf("%d", z)
unfoldable pub decimal_ℤ : ℤ → String
decimal_ℤ (pos n) = decimal n
decimal_ℤ (negsuc n) = "-" <> decimal (suc n)

abbrev negate : ℕ → ℤ
negate zero = pos 0
negate (suc n) = negsuc n

-- The value of a text of digits, with `acc` in front.
unfoldable pub digits_value : ℕ → String → Option ℕ
digits_value acc String.[] = some acc
digits_value acc (String.◌∷◌ c s) =
    let rest = digits_value (acc * 10 + (code c - b'0')) s in
    if leb b'0' (code c) && leb (code c) b'9' then rest else none

unfoldable pub unsigned_value : String → Option ℕ
unsigned_value String.[] = none
unsigned_value (String.◌∷◌ c s) = digits_value 0 (String.◌∷◌ c s)

-- An int has 64 bits.
unfoldable pub in_range : Option ℕ → Option ℤ
in_range none = none
in_range (some n) = if ltb n 9223372036854775808 then some (pos n) else none

negative_in_range : Option ℕ → Option ℤ
negative_in_range none = none
negative_in_range (some n) = if leb n 9223372036854775808 then some (negate n) else none

-- strconv.Atoi; `none` is its error
unfoldable pub atoi : String → Option ℤ
unfolding digits_value unsigned_value in_range negative_in_range
atoi String.[] = none
atoi (String.◌∷◌ c s) =
    if eqb (code c) b'-'
    then negative_in_range (unsigned_value s)
    else if eqb (code c) b'+'
    then in_range (unsigned_value s)
    else in_range (unsigned_value (String.◌∷◌ c s))

atoi_test : atoi "-042" ≡ some (negsuc 41)
unfolding atoi
atoi_test = refl

atoi_empty : atoi "-" ≡ none
unfolding atoi
atoi_empty = refl
