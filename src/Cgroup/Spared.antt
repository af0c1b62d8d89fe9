-- ===== src/Cgroup/Spared.antt =====
-- `killCgroup` and the monitor process.
use lxcri.Base.{
  ℕ, zero, suc, ◌+◌, String, ◌≡◌, refl, sym, ◌∙◌, ap, Bool, true, false, List, [], ◌∷◌, ◌++◌, ◌==◌,
  if◌then◌else◌, Result, ok, err, All, arith, Bool-cases, Result-cases, inl, inr,
}
use lxcri.Base.Host.{
  Host, M, Call, History, send_signal, write_text, open_write, sleep, perform, bind_step, ◌>>=◌,
  ◌>>◌, query,
}
use lxcri.Base.Int.{ℤ, eq_ℤ}
use lxcri.Base.FilePath.{join_path}
use lxcri.Base.Poll.{slept, poll-slept}
use lxcri.Cgroup.Events.{
  CgroupEvents, parse_cgroup_events, cgroup_freeze, poll_cgroup_events, look_events,
}
use lxcri.Cgroup.Kill.{visit_all, kill_frozen, kill_cgroup}
use lxcri.Cgroup.Killed.{signals, visit_all_signals}

-- How often a process was signalled.
abbrev pub signals_to : ℤ → History → ℕ
signals_to p [] = 0
signals_to p (send_signal q sig ∷ w) =
    let rest = signals_to p w in if eq_ℤ q p then suc rest else rest
signals_to p (_ ∷ w) = signals_to p w

pub signals_to-append :
    (p : ℤ) (v w : History) → signals_to p (v ++ w) ≡ signals_to p v + signals_to p w
signals_to-append p [] w = ground arith
signals_to-append p (c ∷ v) w = go c (signals_to-append p v w)
  where
    go :
        (c : Call)
        → signals_to p (v ++ w) ≡ signals_to p v + signals_to p w
        → signals_to p ((c ∷ v) ++ w) ≡ signals_to p (c ∷ v) + signals_to p w
    go (send_signal q sig) ih = elim (Bool-cases (eq_ℤ q p)) [
      | inl same ↦ rw same (ground arith)
      | inr other ↦ rw other ih
    ]
    go _ ih = ih

module _ (h : Host) (monitor : ℤ) where
  -- The step does not signal the monitor.
  abbrev pub Spares : {A : Type 0} → M A → Type 0
  Spares m = (w : History) → signals_to monitor (m w).1 ≡ signals_to monitor w

  pub >>=-Spares :
      {A B : Type 0} (m : M A) (f : A → M B)
      → Spares m
      → ((a : A) → Spares (f a))
      → Spares (m >>= f)
  >>=-Spares {A} {B} m f sm sf w = go (m w) refl
    where
      go :
          (r : Result A × History)
          → m w ≡ r
          → signals_to monitor (bind_step r f).1 ≡ signals_to monitor w
      go (ok a, v) e = sf a v ∙ ap (λ r. signals_to monitor r.1) (sym e) ∙ sm w
      go (err x, v) e = ap (λ r. signals_to monitor r.1) (sym e) ∙ sm w

  pub then-Spares :
      {B : Type 0} (m : M (Unit {0})) (k : M B) → Spares m → Spares k → Spares (m >> k)
  then-Spares m k sm sk = >>=-Spares m (λ _. k) sm (λ _. sk)

  pub perform-Spares : (c : Call) → signals_to monitor (c ∷ []) ≡ 0 → Spares (perform h c)
  perform-Spares c other w = signals_to-append monitor w (c ∷ []) ∙ rw other (ground arith)

  pub slept-signals :
      (ms k : ℕ) (w : History) → signals_to monitor (slept ms k w) ≡ signals_to monitor w
  slept-signals ms zero w = refl
  slept-signals ms (suc k) w =
      slept-signals ms k (w ++ (sleep ms ∷ []))
      ∙ signals_to-append monitor w (sleep ms ∷ [])
      ∙ ground arith

  signals-spare :
      (sig : ℤ) (ps : List ℤ)
      → All (λ p. eq_ℤ p monitor ≡ false) ps
      → signals_to monitor (signals sig ps) ≡ 0
  signals-spare sig [] a = refl
  signals-spare sig (p ∷ ps) (e, a) = rw e (signals-spare sig ps a)

  visit_all-Spares :
      (sig : ℤ) (visits : List (String × Result String)) → Spares (visit_all h monitor sig visits)
  visit_all-Spares sig visits w =
      let (ps, e, a) = visit_all_signals h monitor sig visits w in
      ap (signals_to monitor) e
      ∙ signals_to-append monitor w (signals sig ps)
      ∙ rw (signals-spare sig ps a) (ground arith)

  cgroup_freeze-Spares :
      (filename : String) (freeze : Bool) → Spares (cgroup_freeze h filename freeze)
  unfolding cgroup_freeze
  cgroup_freeze-Spares filename freeze =
      then-Spares (perform h (open_write filename))
        (perform h (write_text filename (if freeze then "1" else "0")))
        (perform-Spares (open_write filename) refl)
        (perform-Spares (write_text filename (if freeze then "1" else "0")) refl)

  pub poll_cgroup_events-Spares :
      (file : String) (test : CgroupEvents → Bool) (fuel : ℕ)
      → Spares (poll_cgroup_events h file test fuel)
  unfolding poll_cgroup_events
  poll_cgroup_events-Spares file test fuel w =
      let (k, e) = poll-slept h 5 (look_events h file test) fuel w in
      ap (signals_to monitor) e ∙ slept-signals 5 k w

  kill_frozen-Spares :
      (sig : ℤ) (root_dir : String) (fuel : ℕ) → Spares (kill_frozen h monitor sig root_dir fuel)
  unfolding kill_frozen
  kill_frozen-Spares sig root_dir fuel =
      let freezer = join_path (root_dir ∷ "cgroup.freeze" ∷ []) in
      let wait_frozen =
        poll_cgroup_events h (join_path (root_dir ∷ "cgroup.events" ∷ [])) (λ ev. ev.frozen) fuel in
      let walk_all =
        query (λ w. h.walk w root_dir)
        >>= (λ visits. visit_all h monitor sig visits >> cgroup_freeze h freezer false) in
      then-Spares (cgroup_freeze h freezer true) (wait_frozen >> walk_all)
        (cgroup_freeze-Spares freezer true)
        (then-Spares wait_frozen walk_all
          (poll_cgroup_events-Spares (join_path (root_dir ∷ "cgroup.events" ∷ [])) (λ ev. ev.frozen)
            fuel)
          (λ w.
            then-Spares (visit_all h monitor sig (h.walk w root_dir))
              (cgroup_freeze h freezer false) (visit_all-Spares sig (h.walk w root_dir))
              (cgroup_freeze-Spares freezer false) w))

  -- Whatever the host answers, whether it fails or not and however long it waits, `killCgroup` sends
  -- the monitor process no signal.
  pub kill_cgroup_spares_monitor :
      (cgroup_root cgroup_dir : String) (sig : ℤ) (fuel : ℕ) (w : History)
      → signals_to monitor (kill_cgroup h cgroup_root cgroup_dir monitor sig fuel w).1
        ≡ signals_to monitor w
  unfolding kill_cgroup
  kill_cgroup_spares_monitor cgroup_root cgroup_dir sig fuel w =
      elim (Bool-cases (cgroup_dir == "")) [
        | inl unset ↦ rw (unset, kill_cgroup) refl
        | inr set ↦
            let root_dir = join_path (cgroup_root ∷ cgroup_dir ∷ []) in
            elim (Result-cases
              (parse_cgroup_events h (join_path (root_dir ∷ "cgroup.events" ∷ [])) w)) [
                | inr (x, e) ↦ rw (set, e, kill_cgroup) refl
                | inl (ev, e) ↦ elim (Bool-cases ev.populated) [
                  | inr empty ↦ rw (set, e, empty, kill_cgroup) refl
                  | inl full ↦
                      rw (set, e, full, kill_cgroup) (kill_frozen-Spares sig root_dir fuel w)
                ]
              ]
      ]
