-- ===== src/Base/Errors.antt =====
-- Go's errors as values.
use Prim.Native.Nat.{ℕ}
use Prim.Native.String.{String}
use mathlib.Core.Path.{◌≡◌, refl}
use mathlib.Core.Logic.{◌⊎◌, inl, inr}
use mathlib.Core.Bool.{Bool, true, false}
use lxcri.Base.Int.{ℤ}

-- The error numbers that the source tells apart.
pub data Errno : Type 0 where
  enoent esrch enodev echild enotdir : Errno
  other_errno : ℕ → Errno

-- `failed m` is fmt.Errorf without %w, less what %s prints of another error, `wrapped m e` with %w. `errno` is what a system call returns,
-- bare or in an os.PathError.
pub data Error : Type 0 where
  errno : Errno → Error
  failed : String → Error
  wrapped : String → Error → Error
  container_not_exist : Error
  deadline_exceeded : Error
  nil_dereference : Error
  index_out_of_range : Error
  -- execError of cmd/lxcri/cli.go
  exit_status : ℤ → Error
  -- of the model: a loop without a bound was given too few rounds
  out_of_fuel : Error

-- os.IsNotExist looks through an os.PathError, but not through fmt's wrapping.
abbrev pub is_not_exist : Error → Bool
is_not_exist (errno enoent) = true
is_not_exist _ = false

-- errors.Is(err, unix.ENODEV) looks through every wrapping.
abbrev pub is_enodev : Error → Bool
is_enodev (errno enodev) = true
is_enodev (wrapped m e) = is_enodev e
is_enodev _ = false

pub data Result {ℓ} (A : Type ℓ) : Type ℓ where
  ok : A → Result A
  err : Error → Result A

abbrev pub is_ok {ℓ} : {A : Type ℓ} → Result A → Bool
is_ok (ok a) = true
is_ok (err e) = false

pub Result-cases {ℓ} :
    {A : Type ℓ} (r : Result A) → ((a : A) × (r ≡ ok a)) ⊎ ((e : Error) × (r ≡ err e))
Result-cases (ok a) = inl (a, refl)
Result-cases (err e) = inr (e, refl)
