-- ===== src/Base/Free.antt =====
-- Kinds of errors that neither a message of the code nor an answer of the host is of, seen through
-- wrapping, and the steps that return none of a kind.
use mathlib.Core.Path.{◌≡◌, refl, ◌∙◌}
use mathlib.Core.Bool.{Bool, true, false}
use mathlib.Core.Option.{Option, some}
use native.Mathlib.Omega.{arith}
use Prim.Native.Nat.{ℕ}
use Prim.Native.String.{String}
use lxcri.Base.Lists.{All}
use lxcri.Base.Errors.{Error, failed, wrapped, Result, ok, err}
use lxcri.Base.Host.{
  Host, M, History, Call, perform, lift, answer, bind_step, wrap_step, attempt, attempt_step,
  logged, logged_step, deferred, deferred_step, when, throw_if, with_error, ◌>>=◌, ◌>>◌,
}
use lxcri.Base.Poll.{poll}

abbrev pub bad_of : {A : Type 0} → (Error → Bool) → Result A → Bool
bad_of bad (ok a) = false
bad_of bad (err e) = bad e

-- A kind of error, for which nothing but the code can be the reason: it is seen through wrapping, no
-- message of the code is of it, and the host does not return it. A loop with this fuel does not
-- return it where its rounds do not.
pub record IsForeign (h : Host) (bad : Error → Bool) (fuel : ℕ) : Type 0 where
  pub through : (s : String) (e : Error) → bad (wrapped s e) ≡ bad e
  pub message : (s : String) → bad (failed s) ≡ false
  pub reply : (w : History) (c : Call) → bad_of bad (answer (h.reply w c)) ≡ false
  pub stat : (w : History) (path : String) → bad_of bad (h.stat w path) ≡ false
  pub read_file : (w : History) (path : String) → bad_of bad (h.read_file w path) ≡ false
  pub read_dir : (w : History) (path : String) → bad_of bad (h.read_dir w path) ≡ false
  pub walk :
      (w : History) (path : String) → All (λ visit. bad_of bad visit.1 ≡ false) (h.walk w path)
  pub poll :
      (ms : ℕ) (look : History → Option (Result (Unit {0}))) (w : History)
      → ((v : History) (r : Result (Unit {0})) → look v ≡ some r → bad_of bad r ≡ false)
      → bad_of bad (poll h ms look fuel w).0 ≡ false

module _ (bad : Error → Bool) where
  -- The step never returns an error of the kind.
  abbrev pub Free : {A : Type 0} → M A → Type 0
  Free m = (w : History) → bad_of bad (m w).0 ≡ false

  pub >>=-Free :
      {A B : Type 0} (m : M A) (f : A → M B) → Free m → ((a : A) → Free (f a)) → Free (m >>= f)
  >>=-Free {A} {B} m f sm sf w = go (m w) (sm w)
    where
      go : (r : Result A × History) → bad_of bad r.0 ≡ false → bad_of bad (bind_step r f).0 ≡ false
      go (ok a, v) e = sf a v
      go (err x, v) e = e

  pub lift-Free : {A : Type 0} (r : Result A) → bad_of bad r ≡ false → Free (lift r)
  lift-Free r q w = q

  pub then-Free : {B : Type 0} (m : M (Unit {0})) (k : M B) → Free m → Free k → Free (m >> k)
  then-Free m k sm sk = >>=-Free m (λ _. k) sm (λ _. sk)

  -- An outcome that is looked at is not of the kind.
  pub attempt-Free :
      {A B : Type 0} (m : M A) (f : Result A → M B)
      → Free m
      → ((r : Result A) → bad_of bad r ≡ false → Free (f r))
      → Free (attempt m >>= f)
  attempt-Free {A} {B} m f sm sf w = go (m w) (sm w)
    where
      go :
          (r : Result A × History)
          → bad_of bad r.0 ≡ false
          → bad_of bad (bind_step (attempt_step r) f).0 ≡ false
      go (r, v) e = sf r e v

  pub logged-Free : {A : Type 0} (m : M A) → Free m → Free (logged m)
  logged-Free {A} m s w = go (m w) (s w)
    where
      go : (r : Result A × History) → bad_of bad r.0 ≡ false → bad_of bad (logged_step r).0 ≡ false
      go (ok a, v) e = refl
      go (err x, v) e = ground arith

  pub with_error-Free :
      {A : Type 0} (f : Error → Error) (m : M A)
      → ((e : Error) → bad e ≡ false → bad (f e) ≡ false)
      → Free m
      → Free (with_error f m)
  with_error-Free {A} f m keeps s w = go (m w) (s w)
    where
      go : (r : Result A × History) → bad_of bad r.0 ≡ false → bad_of bad (wrap_step f r).0 ≡ false
      go (ok a, v) e = refl
      go (err x, v) e = keeps x e

  pub deferred-Free : {A : Type 0} (c : Call) (m : M A) → Free m → Free (deferred c m)
  deferred-Free {A} c m s w = go (m w) (s w)
    where
      go :
          (r : Result A × History)
          → bad_of bad r.0 ≡ false
          → bad_of bad (deferred_step c r).0 ≡ false
      go (r, v) e = e

  pub when-Free : (b : Bool) (m : M (Unit {0})) → Free m → Free (when b m)
  when-Free true m s = s
  when-Free false m s = λ w. refl

  pub throw_if-Free : (b : Bool) (e : Error) → bad e ≡ false → Free (throw_if b e)
  throw_if-Free true e q = λ w. q
  throw_if-Free false e q = λ w. refl

module _ {h : Host} {bad : Error → Bool} {fuel : ℕ} (f : IsForeign h bad fuel) where
  pub perform-Free : (c : Call) → Free bad (perform h c)
  perform-Free c w = f.reply w c

  pub wrapped-Free :
      {A : Type 0} (s : String) (m : M A) → Free bad m → Free bad (with_error (wrapped s) m)
  wrapped-Free s m = with_error-Free bad (wrapped s) m (λ e q. f.through s e ∙ q)
