-- ===== src/Cgroup/Freezer.antt =====
-- What `killCgroup` leaves in cgroup.freeze.
use lxcri.Base.{
  ℕ, zero, suc, String, ◌≡◌, refl, ◌∙◌, ap, Bool, true, false, Option, none, some, List, [], ◌∷◌,
  ◌++◌, ◌==◌, eq_refl, if◌then◌else◌, Result, ok, err,
}
use lxcri.Base.Host.{
  Host, Call, History, write_text, open_write, sleep, bind_step, ◌>>◌, IsCompliant,
}
use lxcri.Base.Int.{ℤ}
use lxcri.Base.FilePath.{join_path}
use lxcri.Base.Poll.{poll, slept, poll-slept}
use lxcri.Cgroup.Events.{cgroup_freeze, poll_cgroup_events, look_events}
use lxcri.Cgroup.Kill.{visit_all, kill_frozen}
use lxcri.Cgroup.Killed.{signals, visit_all_signals}

-- The text last written to a file, after `o` had been.
abbrev pub written : String → Option String → History → Option String
written f o [] = o
written f o (write_text g t ∷ w) = written f (if g == f then some t else o) w
written f o (_ ∷ w) = written f o w

written-append :
    (f : String) (o : Option String) (v w : History)
    → written f o (v ++ w) ≡ written f (written f o v) w
written-append f o [] w = refl
written-append f o (c ∷ v) w = go c (λ o. written-append f o v w)
  where
    go :
        (c : Call)
        → ((o : Option String) → written f o (v ++ w) ≡ written f (written f o v) w)
        → written f o ((c ∷ v) ++ w) ≡ written f (written f o (c ∷ v)) w
    go (write_text g t) ih = ih (if g == f then some t else o)
    go _ ih = ih o

written-signals :
    (f : String) (o : Option String) (sig : ℤ) (ps : List ℤ) → written f o (signals sig ps) ≡ o
written-signals f o sig [] = refl
written-signals f o sig (p ∷ ps) = written-signals f o sig ps

written-slept :
    (f : String) (ms k : ℕ) (w : History) → written f none (slept ms k w) ≡ written f none w
written-slept f ms zero w = refl
written-slept f ms (suc k) w =
    written-slept f ms k (w ++ (sleep ms ∷ [])) ∙ written-append f none w (sleep ms ∷ [])

-- On a host that refuses no call, the freezer is written and says so.
cgroup_freeze_lem :
    (h : Host) (f : String) (freeze : Bool) (w : History)
    → IsCompliant h
    → cgroup_freeze h f freeze w
      ≡ (ok tt, (w ++ (open_write f ∷ [])) ++ (write_text f (if freeze then "1" else "0") ∷ []))
unfolding cgroup_freeze
cgroup_freeze_lem h f freeze w willing =
    rw
      (
        willing w (open_write f),
        willing (w ++ (open_write f ∷ [])) (write_text f (if freeze then "1" else "0")),
      )
      refl

written-freeze :
    (f : String) (t : String) (w : History)
    → written f none ((w ++ (open_write f ∷ [])) ++ (write_text f t ∷ [])) ≡ some t
written-freeze f t w =
    written-append f none (w ++ (open_write f ∷ [])) (write_text f t ∷ []) ∙ rw (eq_refl f) refl

-- The freezer says whether the function failed.
abbrev pub FreezerTells : String → Result (Unit {0}) × History → Type 0
FreezerTells f (ok u, w) = written f none w ≡ some "0"
FreezerTells f (err e, w) = written f none w ≡ some "1"

module _ (h : Host) (monitor sig : ℤ) (f : String) (willing : IsCompliant h) where
  thaw :
      (r : Result (Unit {0})) (w : History)
      → written f none w ≡ some "1"
      → FreezerTells f (bind_step (r, w) (λ _. cgroup_freeze h f false))
  thaw (err e) w frozen = frozen
  thaw (ok u) w frozen = rw (cgroup_freeze_lem h f false w willing) (written-freeze f "0" w)

  walk_thaw :
      (visits : List (String × Result String)) (w : History)
      → written f none w ≡ some "1"
      → FreezerTells f ((visit_all h monitor sig visits >> cgroup_freeze h f false) w)
  walk_thaw visits w frozen =
      let (ps, e, _) = visit_all_signals h monitor sig visits w in
      thaw (visit_all h monitor sig visits w).0 (visit_all h monitor sig visits w).1 (
        ap (written f none) e
        ∙ written-append f none w (signals sig ps)
        ∙ written-signals f (written f none w) sig ps
        ∙ frozen)

  wait_walk :
      (r : Result (Unit {0})) (root_dir : String) (w : History)
      → written f none w ≡ some "1"
      → FreezerTells f (
          bind_step
            (r, w)
            (λ _ w. (visit_all h monitor sig (h.walk w root_dir) >> cgroup_freeze h f false) w))
  wait_walk (err e) root_dir w frozen = frozen
  wait_walk (ok u) root_dir w frozen = walk_thaw (h.walk w root_dir) w frozen

-- On a host that refuses no call, the part of `killCgroup` behind its test for members ends with
-- cgroup.freeze at 0 if it succeeds. If it fails, because the cgroup did not freeze in time or because
-- the walk met an error, it leaves the cgroup frozen: the last write was 1.
pub kill_frozen_freezer :
    (h : Host) (monitor sig : ℤ) (root_dir : String) (fuel : ℕ) (w : History)
    → IsCompliant h
    → FreezerTells
        (join_path (root_dir ∷ "cgroup.freeze" ∷ []))
        (kill_frozen h monitor sig root_dir fuel w)
unfolding kill_frozen poll_cgroup_events
kill_frozen_freezer h monitor sig root_dir fuel w willing =
    let f = join_path (root_dir ∷ "cgroup.freeze" ∷ []) in
    let w₁ : History = (w ++ (open_write f ∷ [])) ++ (write_text f "1" ∷ []) in
    let file = join_path (root_dir ∷ "cgroup.events" ∷ []) in
    let look = look_events h file (λ ev. ev.frozen) in
    let (k, e) = poll-slept h 5 look fuel w₁ in
    rw (cgroup_freeze_lem h f true w willing, kill_frozen)
      (wait_walk h monitor sig f willing (poll h 5 look fuel w₁).0 root_dir
        (poll h 5 look fuel w₁).1
        (ap (written f none) e ∙ written-slept f 5 k w₁ ∙ written-freeze f "1" w))
