-- ===== src/Runtime/Deletes.antt =====
-- When `Kill` and `Delete` succeed, and in which order `Delete` works.
use lxcri.Base.{
  ℕ, String, ◌≡◌, ◌≢◌, refl, sym, ◌∙◌, ap, Bool, true, false, not, ◌||◌, none, [], ◌∷◌, ◌++◌, Error,
  wrapped, failed, Result, ok, err, is_ok, is_not_exist, is_enodev, out_of_fuel, ◌⊎◌, Bool-cases,
  inl, inr,
}
use mathlib.Core.Path.{subst}
use lxcri.Base.Host.{
  Host, M, History, destroy, release, remove_all, perform, with_error, logged, attempt, >>=-eq-ok,
  perform-ok, wrapped-ok, ◌>>◌, ◌>>=◌,
}
use lxcri.Base.FilePath.{join_path}
use lxcri.Base.Int.{ℤ, pos}
use lxcri.Oci.{ContainerState}
use lxcri.Container.{Container, runtime_path}
use lxcri.Container.State.{container_state}
use lxcri.Container.Wait.{wait_monitor_stopped}
use lxcri.Cgroup.Events.{poll_cgroup_events}
use lxcri.Cgroup.Kill.{kill_cgroup}
use lxcri.Cgroup.Delete.{delete_cgroup}
use lxcri.Runtime.Lifecycle.{
  is_stopped, missing, run_after, judge_kill, kill_members, kill, stop_for_delete, judge_deleted,
  tear_down, delete,
}

-- A result that the caller takes for "it is gone".
abbrev IsGone : Result (Unit {0}) → Type 0
IsGone r = (is_ok r || missing r) ≡ true

-- The outcomes of `killCgroup` that `kill` takes for success.
abbrev pub IsTolerated : Result (Unit {0}) → Type 0
IsTolerated (ok u) = Unit
IsTolerated (err e) = (is_not_exist e || is_enodev e) ≡ true

is_stopped_other : (s : ContainerState) → s ≢ ContainerState.stopped → is_stopped s ≡ false
is_stopped_other ContainerState.creating other = refl
is_stopped_other ContainerState.created other = refl
is_stopped_other ContainerState.running other = refl
is_stopped_other ContainerState.stopped other = absurd (other refl)

module _ (h : Host) where
  judge_kill_lem :
      (r : Result (Unit {0})) (w : History)
      → ((judge_kill h r w).0 ≡ ok tt → IsTolerated r)
        × (IsTolerated r → (judge_kill h r w).0 ≡ ok tt)
        × ((judge_kill h r w).1 ≡ w)
  unfolding judge_kill
  judge_kill_lem (ok u) w = (λ p. tt, λ p. refl, refl)
  judge_kill_lem (err e) w = elim (Bool-cases (is_not_exist e || is_enodev e)) [
    | inl fine ↦ rw (fine, judge_kill) (λ p. refl, λ p. refl, refl)
    | inr bad ↦ rw (bad, judge_kill) (λ p. cc, λ p. cc, refl)
  ]

  judge_deleted_lem :
      (cgroup_root : String) (r : Result (Unit {0})) (w v : History)
      → judge_deleted h cgroup_root r w ≡ (ok tt, v)
      → IsGone r × (v ≡ w)
  judge_deleted_lem cgroup_root (ok u) w v e = (refl, ap (λ r. r.1) (sym e))
  judge_deleted_lem cgroup_root (err x) w v e = elim (Bool-cases (is_not_exist x)) [
    | inl gone ↦
        let fine : judge_deleted h cgroup_root (err x) w ≡ (ok tt, w) = rw gone refl in
        (gone, ap (λ r. r.1) (sym e ∙ fine))
    | inr bad ↦
        let stuck : judge_deleted h cgroup_root (err x) w
            ≡ (err (failed "failed to delete cgroup"), w) =
          rw bad refl in
        absurd cc
  ]

  -- `Kill` returns an error for a stopped container and for one whose state cannot be told, and has
  -- called nothing then. Otherwise it does what `killCgroup` does, and succeeds exactly if that
  -- succeeds, or fails because the cgroup or one of its files is gone.
  pub kill_iff :
      (cgroup_root : String) (c : Container) (signum : ℤ) (fuel : ℕ) (w : History)
      → let done = kill_cgroup h cgroup_root c.cgroup_dir (pos c.pid) signum fuel w in
        ((container_state h w ≡ ok ContainerState.stopped)
            ⊎ ((e : Error) × (container_state h w ≡ err e))
          → (is_ok (kill h cgroup_root c signum fuel w).0 ≡ false)
            × ((kill h cgroup_root c signum fuel w).1 ≡ w))
        × ((s : ContainerState)
            → container_state h w ≡ ok s
            → s ≢ ContainerState.stopped
            → ((kill h cgroup_root c signum fuel w).1 ≡ done.1)
              × ((kill h cgroup_root c signum fuel w).0 ≡ ok tt → IsTolerated done.0)
              × (IsTolerated done.0 → (kill h cgroup_root c signum fuel w).0 ≡ ok tt))
  unfolding kill kill_members
  kill_iff cgroup_root c signum fuel w = (refuses, serves)
    where
      refuses :
          (container_state h w ≡ ok ContainerState.stopped)
            ⊎ ((e : Error) × (container_state h w ≡ err e))
          → (is_ok (kill h cgroup_root c signum fuel w).0 ≡ false)
            × ((kill h cgroup_root c signum fuel w).1 ≡ w)
      refuses (inl q) = rw (q, kill) (refl, refl)
      refuses (inr (e, q)) = rw (q, kill) (refl, refl)

      serves :
          (s : ContainerState)
          → container_state h w ≡ ok s
          → s ≢ ContainerState.stopped
          → let done = kill_cgroup h cgroup_root c.cgroup_dir (pos c.pid) signum fuel w in
            ((kill h cgroup_root c signum fuel w).1 ≡ done.1)
            × ((kill h cgroup_root c signum fuel w).0 ≡ ok tt → IsTolerated done.0)
            × (IsTolerated done.0 → (kill h cgroup_root c signum fuel w).0 ≡ ok tt)
      serves s q other =
          let done = kill_cgroup h cgroup_root c.cgroup_dir (pos c.pid) signum fuel w in
          let (down, up, same) = judge_kill_lem done.0 done.1 in
          let active : is_stopped s ≡ false = is_stopped_other s other in
          rw (q, active, kill) (same, down, up)

-- A logged step passes its history on.
logged-ok :
    (m : M (Unit {0})) (w v : History) (r : Result (Unit {0}))
    → logged m w ≡ (ok r, v)
    → v ≡ (m w).1
logged-ok m w v r e = go (m w) refl
  where
    go : (q : Result (Unit {0}) × History) → m w ≡ q → v ≡ (m w).1
    go (ok u, x) p = rw p (ap (λ r. r.1) (sym e) ∙ rw p refl)
    go (err (Error.errno n), x) p = rw p (ap (λ r. r.1) (sym e) ∙ rw p refl)
    go (err (failed m), x) p = rw p (ap (λ r. r.1) (sym e) ∙ rw p refl)
    go (err (wrapped m y), x) p = rw p (ap (λ r. r.1) (sym e) ∙ rw p refl)
    go (err Error.container_not_exist, x) p = rw p (ap (λ r. r.1) (sym e) ∙ rw p refl)
    go (err Error.deadline_exceeded, x) p = rw p (ap (λ r. r.1) (sym e) ∙ rw p refl)
    go (err Error.nil_dereference, x) p = rw p (ap (λ r. r.1) (sym e) ∙ rw p refl)
    go (err Error.index_out_of_range, x) p = rw p (ap (λ r. r.1) (sym e) ∙ rw p refl)
    go (err (Error.exit_status z), x) p = rw p (ap (λ r. r.1) (sym e) ∙ rw p refl)
    go (err out_of_fuel, x) p =
        let stuck : logged m w ≡ (err out_of_fuel, x) = rw p refl in absurd cc

-- A container is taken down from one history to another: its monitor is waited for, then liblxc
-- destroys the container without an error, then the cgroup is deleted or found gone, and the last call
-- removes the runtime directory, without an error.
abbrev pub TornDown : Host → String → Container → ℕ → History → History → Type 0
TornDown h cgroup_root c fuel w w' =
    let w₁ = (wait_monitor_stopped h c.pid fuel w).1 in
    (w₂ w₃ : History) × (h.reply w₁ destroy ≡ none)
    × (w₂
        ≡ (poll_cgroup_events h (join_path (cgroup_root ∷ c.cgroup_dir ∷ "cgroup.events" ∷ []))
            (λ ev. not ev.populated) fuel (w₁ ++ (destroy ∷ []))).1)
    × IsGone (delete_cgroup h cgroup_root c.cgroup_dir w₂).0
    × (h.reply w₃ (remove_all (runtime_path c "")) ≡ none)
    × (w' ≡ w₃ ++ (remove_all (runtime_path c "") ∷ []))

module _ (h : Host) (cgroup_root : String) (c : Container) (fuel : ℕ) where
  tear_down-ok :
      (w w' : History)
      → tear_down h cgroup_root c fuel w ≡ (ok tt, w')
      → TornDown h cgroup_root c fuel w w'
  unfolding tear_down
  tear_down-ok w w' e =
      let wait = wait_monitor_stopped h c.pid fuel in
      let poll =
        poll_cgroup_events h (join_path (cgroup_root ∷ c.cgroup_dir ∷ "cgroup.events" ∷ []))
          (λ ev. not ev.populated) fuel in
      let remove = perform h (remove_all (runtime_path c "")) in
      let hooks = run_after h (λ hooks. hooks.poststop) c.spec.hooks in
      let finish : M (Unit {0}) = hooks >> remove in
      let judged : Result (Unit {0}) → M (Unit {0}) =
        λ d. judge_deleted h cgroup_root d >> finish in
      let cleaned : M (Unit {0}) = attempt (delete_cgroup h cgroup_root c.cgroup_dir) >>= judged in
      let polled : M (Unit {0}) = logged poll >>= (λ _. cleaned) in
      let destroyed = with_error (wrapped "failed to destroy container") (perform h destroy) in
      let (r₁, v₁, monitor, rest₁) = >>=-eq-ok (logged wait) (λ _. destroyed >> polled) w e in
      let (_, v₂, destroys, rest₂) = >>=-eq-ok destroyed (λ _. polled) v₁ rest₁ in
      let (r₃, v₃, empties, rest₃) = >>=-eq-ok (logged poll) (λ _. cleaned) v₂ rest₂ in
      let d = delete_cgroup h cgroup_root c.cgroup_dir v₃ in
      let (_, v₄, gone, rest₄) =
        >>=-eq-ok (judge_deleted h cgroup_root d.0) (λ _. finish) d.1 rest₃ in
      let (_, v₅, ran, rest₅) = >>=-eq-ok hooks (λ _. remove) v₄ rest₄ in
      let (accepts, grown) = perform-ok h destroy v₁ v₂ (
        wrapped-ok (wrapped "failed to destroy container") (perform h destroy v₁) tt v₂ destroys) in
      let (removes, last) = perform-ok h (remove_all (runtime_path c "")) v₅ w' rest₅ in
      let first : v₁ ≡ (wait w).1 = logged-ok wait w v₁ r₁ monitor in
      let second : v₃ ≡ (poll v₂).1 = logged-ok poll v₂ v₃ r₃ empties in
      (
        v₃,
        v₅,
        subst (λ v. h.reply v destroy ≡ none) first accepts,
        second ∙ ap (λ v. (poll v).1) (grown ∙ ap (λ v. v ++ (destroy ∷ [])) first),
        (judge_deleted_lem h cgroup_root d.0 d.1 v₄ gone).0,
        removes,
        last,
      )

  stop-ok :
      (force : Bool) (s : ContainerState) (w u : History)
      → stop_for_delete h cgroup_root c force s fuel w ≡ (ok tt, u)
      → ((s ≡ ContainerState.stopped) × (u ≡ w))
        ⊎ ((force ≡ true) × (kill_members h cgroup_root c (pos 9) fuel w ≡ (ok tt, u)))
  unfolding stop_for_delete
  stop-ok force ContainerState.stopped w u e = inl (refl, ap (λ r. r.1) (sym e))
  stop-ok true ContainerState.creating w u e = inr (
    refl,
    wrapped-ok (wrapped "failed to kill container") (kill_members h cgroup_root c (pos 9) fuel w) tt
        u e,
  )
  stop-ok true ContainerState.created w u e = inr (
    refl,
    wrapped-ok (wrapped "failed to kill container") (kill_members h cgroup_root c (pos 9) fuel w) tt
        u e,
  )
  stop-ok true ContainerState.running w u e = inr (
    refl,
    wrapped-ok (wrapped "failed to kill container") (kill_members h cgroup_root c (pos 9) fuel w) tt
        u e,
  )
  stop-ok false ContainerState.creating w u e = absurd cc
  stop-ok false ContainerState.created w u e = absurd cc
  stop-ok false ContainerState.running w u e = absurd cc

  -- If `Delete` succeeds, the state of the container could be told; it was stopped, or the deletion was
  -- forced and its processes were killed; then the container was taken down step by step (`TornDown`),
  -- and the handle of liblxc was released last.
  pub delete_sound :
      (force : Bool) (w w' : History)
      → delete h cgroup_root c force fuel w ≡ (ok tt, w')
      → (s : ContainerState) × (u v : History) × (container_state h w ≡ ok s)
        × (((s ≡ ContainerState.stopped) × (u ≡ w))
            ⊎ ((force ≡ true) × (kill_members h cgroup_root c (pos 9) fuel w ≡ (ok tt, u))))
        × TornDown h cgroup_root c fuel u v
        × (w' ≡ v ++ (release ∷ []))
  unfolding delete
  delete_sound force w w' e =
      let stop : ContainerState → M (Unit {0}) =
        λ s. stop_for_delete h cgroup_root c force s fuel in
      let tear = tear_down h cgroup_root c fuel in
      let state : M ContainerState = λ w. (container_state h w, w) in
      let body : M (Unit {0}) = state >>= (λ s. stop s >> tear) in
      let v = (body w).1 in
      let fine : body w ≡ (ok tt, v) = ap (λ r. (r.0, v)) e in
      let (s, w₁, told, rest) = >>=-eq-ok state (λ s. stop s >> tear) w fine in
      let (_, u, stops, torn) = >>=-eq-ok (stop s) (λ _. tear) w₁ rest in
      let same : w₁ ≡ w = ap (λ r. r.1) (sym told) in
      (
        s,
        u,
        v,
        ap (λ r. r.0) told,
        stop-ok force s w u (ap (stop s) (sym same) ∙ stops),
        tear_down-ok u v torn,
        ap (λ r. r.1) (sym e),
      )

  -- Without force, `Delete` refuses a container that is not stopped, and only releases its handle.
  delete_refuses :
      (s : ContainerState) (w : History)
      → container_state h w ≡ ok s
      → s ≢ ContainerState.stopped
      → (is_ok (delete h cgroup_root c false fuel w).0 ≡ false)
        × ((delete h cgroup_root c false fuel w).1 ≡ w ++ (release ∷ []))
  unfolding delete stop_for_delete
  delete_refuses s w q other =
      rw (q, is_stopped_other s other, delete, stop_for_delete) (refl, refl)
