-- ===== src/Cgroup/Killed.antt =====
-- Whom `killCgroup` signals, and how it leaves the freezer.
use lxcri.Base.{
  String, ◌≡◌, refl, sym, ◌∙◌, ap, false, none, some, List, [], ◌∷◌, ◌++◌, append_assoc, append-nil,
  ◌==◌, split, if◌then◌else◌, Result, ok, err, All, Bool-cases, Option-cases, Result-cases, inl,
  inr, trim_space,
}
use mathlib.Core.Path.{subst}
use lxcri.Base.Host.{Host, Call, History, send_signal}
use lxcri.Base.Int.{ℤ, atoi, eq_ℤ}
use lxcri.Cgroup.Kill.{kill_pids, kill_text, visit, visit_all}

-- The processes to signal: every PID of the lines but the monitor's.
abbrev targets : ℤ → List String → List ℤ
targets monitor [] = []
targets monitor (line ∷ lines) = elim (atoi line) [
  | none ↦ targets monitor lines
  | some pid ↦ let rest = targets monitor lines in if eq_ℤ pid monitor then rest else pid ∷ rest
]

abbrev pub signals : ℤ → List ℤ → List Call
signals sig [] = []
signals sig (pid ∷ pids) = send_signal pid sig ∷ signals sig pids

signals-append :
    (sig : ℤ) (ps qs : List ℤ) → signals sig (ps ++ qs) ≡ signals sig ps ++ signals sig qs
signals-append sig [] qs = refl
signals-append sig (p ∷ ps) qs = ap (λ l. send_signal p sig ∷ l) (signals-append sig ps qs)

module _ (h : Host) (monitor : ℤ) (sig : ℤ) where
  -- Each line that is a PID, other than the monitor's, gets the signal, in order.
  pub kill_pids_lem :
      (lines : List String) (w : History)
      → kill_pids h monitor sig lines w ≡ (ok tt, w ++ signals sig (targets monitor lines))
  unfolding kill_pids
  kill_pids_lem [] w = rw append-nil refl
  kill_pids_lem (line ∷ lines) w = elim (Option-cases (atoi line)) [
    | inl no_pid ↦ rw (no_pid, kill_pids, targets) (kill_pids_lem lines w)
    | inr (pid, e) ↦ elim (Bool-cases (eq_ℤ pid monitor)) [
      | inl same ↦ rw (e, same, kill_pids, targets) (kill_pids_lem lines w)
      | inr other ↦
          rw (e, other, kill_pids, targets)
            (kill_pids_lem lines (w ++ (send_signal pid sig ∷ [])) ∙ simp append_assoc)
    ]
  ]

  targets_other : (lines : List String) → All (λ p. eq_ℤ p monitor ≡ false) (targets monitor lines)
  targets_other [] = tt
  targets_other (line ∷ lines) = elim (Option-cases (atoi line)) [
    | inl no_pid ↦ rw (no_pid, targets) (targets_other lines)
    | inr (pid, e) ↦ elim (Bool-cases (eq_ℤ pid monitor)) [
      | inl same ↦ rw (e, targets) (rw same (targets_other lines))
      | inr other ↦ rw (e, targets) (rw other (other, targets_other lines))
    ]
  ]

  -- The history grew by signals only, none of them to the monitor.
  abbrev OnlySignals : History → History → Type 0
  OnlySignals w w' =
      (ps : List ℤ) × (w' ≡ w ++ signals sig ps) × All (λ p. eq_ℤ p monitor ≡ false) ps

  OnlySignals-refl : (w : History) → OnlySignals w w
  OnlySignals-refl w = ([], sym (append-nil w), tt)

  All-append :
      (ps qs : List ℤ)
      → All (λ p. eq_ℤ p monitor ≡ false) ps
      → All (λ p. eq_ℤ p monitor ≡ false) qs
      → All (λ p. eq_ℤ p monitor ≡ false) (ps ++ qs)
  All-append [] qs _ b = b
  All-append (p ∷ ps) qs (x, a) b = (x, All-append ps qs a b)

  OnlySignals-trans : (u v w : History) → OnlySignals u v → OnlySignals v w → OnlySignals u w
  OnlySignals-trans u v w (ps, e, a) (qs, f, b) = (
    ps ++ qs,
    f ∙ rw (e, signals-append) (append_assoc u (signals sig ps) (signals sig qs)),
    All-append ps qs a b,
  )

  kill_text_signals :
      (text : String) (w : History) → OnlySignals w (kill_text h monitor sig text w).1
  unfolding kill_text
  kill_text_signals text w = elim (Bool-cases (text == "")) [
    | inl empty ↦ rw (empty, kill_text) (OnlySignals-refl w)
    | inr lines ↦
        rw (lines, kill_text)
          (
            targets monitor (split 10 text),
            ap (λ r. r.1) (kill_pids_lem (split 10 text) w),
            targets_other (split 10 text),
          )
  ]

  visit_signals :
      (path : String) (info : Result String) (w : History)
      → OnlySignals w (visit h monitor sig path info w).1
  unfolding visit
  visit_signals path (err e) w = OnlySignals-refl w
  visit_signals path (ok name) w = elim (Bool-cases (name == "cgroup.procs")) [
    | inr other ↦ rw (other, visit) (OnlySignals-refl w)
    | inl procs ↦ elim (Result-cases (h.read_file w path)) [
      | inl (text, e) ↦ rw (procs, visit) (rw e (kill_text_signals (trim_space text) w))
      | inr (x, e) ↦ rw (procs, visit) (rw e (OnlySignals-refl w))
    ]
  ]

  pub visit_all_signals :
      (visits : List (String × Result String)) (w : History)
      → OnlySignals w (visit_all h monitor sig visits w).1
  unfolding visit_all
  visit_all_signals [] w = OnlySignals-refl w
  visit_all_signals ((path, info) ∷ visits) w =
      go (visit h monitor sig path info w) refl (visit_all_signals visits)
    where
      go :
          (r : Result (Unit {0}) × History)
          → visit h monitor sig path info w ≡ r
          → ((w : History) → OnlySignals w (visit_all h monitor sig visits w).1)
          → OnlySignals w (visit_all h monitor sig ((path, info) ∷ visits) w).1
      go (ok u, v) e ih =
          rw (e, visit_all)
            (OnlySignals-trans w v (visit_all h monitor sig visits v).1
              (subst (OnlySignals w) (ap (λ r. r.1) e) (visit_signals path info w)) (ih v))
      go (err x, v) e ih =
          rw (e, visit_all) (subst (OnlySignals w) (ap (λ r. r.1) e) (visit_signals path info w))
