-- ===== src/Runtime/Ends.antt =====
-- The loops of `Start`, `Kill` and `Delete`: how many rounds they need.
use lxcri.Base.{
  ok, err, ℕ, String, ◌≡◌, refl, ap, Bool, true, false, ◌<◌, Option, some, Error, wrapped,
  out_of_fuel, nil_dereference, index_out_of_range, Result, All,
}
use lxcri.Base.Host.{Host, Call, History, answer}
use lxcri.Base.Poll.{poll, poll-Ended, Ended, decided, expired, slept}
use lxcri.Base.Free.{bad_of, IsForeign}
use lxcri.Base.Int.{ℤ}
use lxcri.Container.{Container}
use lxcri.Runtime.Lifecycle.{start, kill, delete}
use lxcri.Runtime.Free.{start-Free, kill-Free, delete-Free}

-- The errors of the model that are no error values of the program, bare or wrapped: a loop ran out of
-- rounds, or the program panics
abbrev pub is_abnormal : Error → Bool
is_abnormal out_of_fuel = true
is_abnormal nil_dereference = true
is_abnormal index_out_of_range = true
is_abnormal (wrapped s e) = is_abnormal e
is_abnormal _ = false

-- A loop ran out of rounds.
abbrev pub is_out_of_fuel : Error → Bool
is_out_of_fuel out_of_fuel = true
is_out_of_fuel (wrapped s e) = is_out_of_fuel e
is_out_of_fuel _ = false

error_has_fuel : (e : Error) → is_abnormal e ≡ false → is_out_of_fuel e ≡ false
error_has_fuel (wrapped s e) q = error_has_fuel e q
error_has_fuel out_of_fuel q = q
error_has_fuel _ q = refl

has_fuel :
    {A : Type 0} (r : Result A) → bad_of is_abnormal r ≡ false → bad_of is_out_of_fuel r ≡ false
has_fuel (ok a) q = refl
has_fuel (err e) q = error_has_fuel e q

-- The host returns no error that only the model has.
pub record IsReal (h : Host) : Type 0 where
  pub reply : (w : History) (c : Call) → bad_of is_abnormal (answer (h.reply w c)) ≡ false
  pub stat : (w : History) (path : String) → bad_of is_abnormal (h.stat w path) ≡ false
  pub read_file : (w : History) (path : String) → bad_of is_abnormal (h.read_file w path) ≡ false
  pub read_dir : (w : History) (path : String) → bad_of is_abnormal (h.read_dir w path) ≡ false
  pub walk :
      (w : History) (path : String)
      → All (λ visit. bad_of is_abnormal visit.1 ≡ false) (h.walk w path)

module _ (h : Host) (real : IsReal h) (k fuel : ℕ) (enough : k < fuel)
    (ends : (ms : ℕ) (w : History) → h.is_done (slept ms k w) ≡ true) where
  poll-good :
      (ms : ℕ) (look : History → Option (Result (Unit {0}))) (w : History)
      → ((v : History) (r : Result (Unit {0})) → look v ≡ some r → bad_of is_abnormal r ≡ false)
      → bad_of is_abnormal (poll h ms look fuel w).0 ≡ false
  poll-good ms look w good =
      go (poll h ms look fuel w).0 (poll h ms look fuel w).1
        (poll-Ended h ms look fuel k w enough (ends ms w))
    where
      go :
          (r : Result (Unit {0})) (v : History) → Ended h ms look r v → bad_of is_abnormal r ≡ false
      go r v (decided going seen) = good v r seen
      go r v (expired now late) = ap (bad_of is_abnormal) late

  pub foreign : IsForeign h is_abnormal fuel
  foreign = record {
    through = λ s e. refl;
    message = λ s. refl;
    reply = real.reply;
    stat = real.stat;
    read_file = real.read_file;
    read_dir = real.read_dir;
    walk = real.walk;
    poll = poll-good;
  }

  -- If the context is done whenever a loop has slept k times, and the host returns no error that only
  -- the model has (`IsReal`), then k + 1 rounds are enough for `Start`, `Kill` and `Delete`: from any
  -- history none of their loops runs out of rounds.
  pub operations_end :
      (cgroup_root : String) (c : Container) (sig : ℤ) (force : Bool) (w : History)
      → (bad_of is_out_of_fuel (start h c fuel w).0 ≡ false)
        × (bad_of is_out_of_fuel (kill h cgroup_root c sig fuel w).0 ≡ false)
        × (bad_of is_out_of_fuel (delete h cgroup_root c force fuel w).0 ≡ false)
  operations_end cgroup_root c sig force w = (
    has_fuel (start h c fuel w).0 (start-Free foreign c w),
    has_fuel (kill h cgroup_root c sig fuel w).0 (kill-Free foreign cgroup_root c sig w),
    has_fuel (delete h cgroup_root c force fuel w).0 (delete-Free foreign cgroup_root c force w),
  )
