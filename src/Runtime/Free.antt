-- ===== src/Runtime/Free.antt =====
-- The kinds of errors of `Start`, `Kill` and `Delete`.
use lxcri.Base.{
  ℕ, String, ◌≡◌, refl, Bool, true, false, not, Option, none, some, List, [], ◌∷◌, ◌<>◌, Error,
  failed, wrapped, out_of_fuel, Result, ok, err, arith,
}
use lxcri.Base.Host.{
  Host, LxcState, M, History, perform, with_error, attempt, logged, throw_if, query_result, return,
  destroy, release, remove_all, start_command, write_stdin, wait_command, open_write, close_file,
  ◌>>=◌, ◌>>◌,
}
use lxcri.Base.Free.{
  bad_of, IsForeign, Free, >>=-Free, then-Free, attempt-Free, logged-Free, deferred-Free, when-Free,
  throw_if-Free, perform-Free, wrapped-Free,
}
use lxcri.Base.Int.{ℤ, pos}
use lxcri.Base.FilePath.{join_path}
use lxcri.Oci.{ContainerState, state_name, Hook, Hooks}
use lxcri.Container.{Container, sync_fifo_path, runtime_path}
use lxcri.Container.State.{container_state, state}
use lxcri.Container.Wait.{
  look_started, wait_started, look_stopped, wait_monitor_stopped, is_created,
}
use lxcri.Hooks.{run_hook, after_hook, run_hooks}
use lxcri.Cgroup.Events.{poll_cgroup_events}
use lxcri.Cgroup.Kill.{kill_cgroup}
use lxcri.Cgroup.Delete.{delete_cgroup}
use lxcri.Cgroup.Ends.{poll_cgroup_events-Free, kill_cgroup-Free, delete_cgroup-Free}
use lxcri.Runtime.Lifecycle.{
  is_stopped, spec_state, run_after, unblock, start, kill_error, judge_kill, kill_members, kill,
  stop_for_delete, judge_deleted, tear_down, delete,
}

module _ {h : Host} {bad : Error → Bool} {fuel : ℕ} (f : IsForeign h bad fuel) where
  pub container_state-good : (w : History) → bad_of bad (container_state h w) ≡ false
  unfolding container_state state
  container_state-good w = go (h.lxc_state w)
    where
      go : (s : LxcState) → bad_of bad (state h s w) ≡ false
      go (LxcState.other_state s) = f.message _
      go LxcState.stopped = refl
      go LxcState.starting = refl
      go _ = refl

  spec_state-Free : Free bad (spec_state h)
  unfolding spec_state
  spec_state-Free =
      wrapped-Free f "failed go get container status" (query_result (λ w. container_state h w))
        container_state-good

  after_hook-Free :
      (r : Result (Unit {0})) (rest : M (Unit {0}))
      → Free bad rest
      → Free bad (after_hook h true r rest)
  after_hook-Free (ok u) rest s = s
  after_hook-Free (err e) rest s = s

  run_hook-Free : (hook : Hook) → Free bad (run_hook h hook)
  unfolding run_hook
  run_hook-Free hook =
      let wait = perform h (wait_command hook.path) in
      let feed = perform h (write_stdin hook.path) in
      then-Free bad (perform h (start_command hook.path hook.args hook.env hook.timeout))
        (feed >> wait) (perform-Free f _)
        (then-Free bad feed wait (perform-Free f _) (perform-Free f _))

  run_hooks-Free : (hooks : List Hook) → Free bad (run_hooks h true hooks)
  unfolding run_hooks
  run_hooks-Free [] = λ w. refl
  run_hooks-Free (hook ∷ hooks) =
      attempt-Free bad (run_hook h hook) (λ r. after_hook h true r (run_hooks h true hooks))
        (run_hook-Free hook)
        (λ r q. after_hook-Free r (run_hooks h true hooks) (run_hooks-Free hooks))

  run_after-Free :
      (select : Hooks → List Hook) (hooks : Option Hooks) → Free bad (run_after h select hooks)
  unfolding run_after
  run_after-Free select none = λ w. refl
  run_after-Free select (some hooks) =
      >>=-Free bad (with_error (wrapped "failed to get container state") (spec_state h))
        (λ status. attempt (run_hooks h true (select hooks)) >>= (λ outcome. return tt))
        (wrapped-Free f "failed to get container state" (spec_state h) spec_state-Free)
        (λ status.
          attempt-Free bad (run_hooks h true (select hooks)) (λ outcome. return tt)
            (run_hooks-Free (select hooks)) (λ outcome q w. refl))

  wait_started-Free : (pid : ℕ) → Free bad (wait_started h pid fuel)
  unfolding wait_started
  wait_started-Free pid w = f.poll 10 (look_started h pid) w (λ v r e. ground arith)

  wait_monitor_stopped-Free : (pid : ℕ) → Free bad (wait_monitor_stopped h pid fuel)
  unfolding wait_monitor_stopped
  wait_monitor_stopped-Free pid w = f.poll 100 (look_stopped h pid) w (λ v r e. ground arith)

  pub start-Free : (c : Container) → Free bad (start h c fuel)
  unfolding start unblock
  start-Free c =
      let close : M (Unit {0}) = perform h (close_file (sync_fifo_path c)) in
      let wait = wait_started h c.pid fuel in
      let after = run_after h (λ hooks. hooks.poststart) c.spec.hooks in
      let check : ContainerState → M (Unit {0}) = λ status.
        throw_if (not (is_created status))
          (failed ("invalid container state. expected created, but was " <> state_name status)) in
      >>=-Free bad (with_error (wrapped "failed to get container state") (spec_state h))
        (λ status. check status >> (unblock h c fuel >> after))
        (wrapped-Free f "failed to get container state" (spec_state h) spec_state-Free)
        (λ status.
          then-Free bad (check status) (unblock h c fuel >> after)
            (throw_if-Free bad _ _ (f.message _))
            (then-Free bad (unblock h c fuel) after
              (then-Free bad (perform h (open_write (sync_fifo_path c))) (close >> wait)
                (perform-Free f _)
                (then-Free bad close wait (perform-Free f _) (wait_started-Free c.pid)))
              (run_after-Free _ c.spec.hooks)))

  module _ (cgroup_root : String) (c : Container) where
    kill_error-good : (e : Error) → bad e ≡ false → bad (kill_error e) ≡ false
    unfolding kill_error
    kill_error-good out_of_fuel q = q
    kill_error-good _ q = f.message _

    judge_kill-Free : (r : Result (Unit {0})) → bad_of bad r ≡ false → Free bad (judge_kill h r)
    unfolding judge_kill kill_error
    judge_kill-Free (ok u) q = λ w. refl
    judge_kill-Free (err e) q = throw_if-Free bad _ _ (kill_error-good e q)

    kill_members-Free : (sig : ℤ) → Free bad (kill_members h cgroup_root c sig fuel)
    unfolding kill_members
    kill_members-Free sig =
        attempt-Free bad (kill_cgroup h cgroup_root c.cgroup_dir (pos c.pid) sig fuel)
          (judge_kill h) (kill_cgroup-Free f (pos c.pid) sig cgroup_root c.cgroup_dir)
          judge_kill-Free

    pub kill-Free : (sig : ℤ) → Free bad (kill h cgroup_root c sig fuel)
    unfolding kill
    kill-Free sig =
        let check : ContainerState → M (Unit {0}) =
          λ status. throw_if (is_stopped status) (failed "container already stopped") in
        let all = kill_members h cgroup_root c sig fuel in
        >>=-Free bad (query_result (λ w. container_state h w)) (λ s. check s >> all)
          container_state-good
          (λ s.
            then-Free bad (check s) all (throw_if-Free bad _ _ (f.message _))
              (kill_members-Free sig))

    judge_deleted-Free : (r : Result (Unit {0})) → Free bad (judge_deleted h cgroup_root r)
    judge_deleted-Free (ok u) = λ w. refl
    judge_deleted-Free (err e) = throw_if-Free bad _ _ (f.message _)

    tear_down-Free : Free bad (tear_down h cgroup_root c fuel)
    unfolding tear_down delete_cgroup
    tear_down-Free =
        let drain =
          poll_cgroup_events h (join_path (cgroup_root ∷ c.cgroup_dir ∷ "cgroup.events" ∷ []))
            (λ ev. not ev.populated) fuel in
        let clear = delete_cgroup h cgroup_root c.cgroup_dir in
        let after = run_after h (λ hooks. hooks.poststop) c.spec.hooks in
        let remove = perform h (remove_all (runtime_path c "")) in
        let judge : Result (Unit {0}) → M (Unit {0}) =
          λ r. judge_deleted h cgroup_root r >> (after >> remove) in
        let kill_off : M (Unit {0}) =
          with_error (wrapped "failed to destroy container") (perform h destroy) in
        let close : M (Unit {0}) = logged drain >>= (λ _. attempt clear >>= judge) in
        >>=-Free bad (logged (wait_monitor_stopped h c.pid fuel)) (λ _. kill_off >> close)
          (logged-Free bad (wait_monitor_stopped h c.pid fuel) (wait_monitor_stopped-Free c.pid))
          (λ _.
            then-Free bad kill_off close
              (wrapped-Free f "failed to destroy container" (perform h destroy) (perform-Free f _))
              (>>=-Free bad (logged drain) (λ _. attempt clear >>= judge)
                (logged-Free bad drain (poll_cgroup_events-Free f _ _))
                (λ _.
                  attempt-Free bad clear judge (delete_cgroup-Free f cgroup_root 10 c.cgroup_dir)
                    (λ r q.
                      then-Free bad (judge_deleted h cgroup_root r) (after >> remove)
                        (judge_deleted-Free r)
                        (then-Free bad after remove (run_after-Free _ c.spec.hooks)
                          (perform-Free f _))))))

    pub delete-Free : (force : Bool) → Free bad (delete h cgroup_root c force fuel)
    unfolding delete stop_for_delete
    delete-Free force =
        let refuse : ContainerState → M (Unit {0}) = λ status.
          throw_if (not force)
            (failed ("container is not not stopped (current state " <> state_name status <> ")")) in
        let all : M (Unit {0}) =
          with_error (wrapped "failed to kill container")
            (kill_members h cgroup_root c (pos 9) fuel) in
        let stop : ContainerState → M (Unit {0}) =
          λ status. stop_for_delete h cgroup_root c force status fuel in
        let remove = tear_down h cgroup_root c fuel in
        deferred-Free bad release
          (query_result (λ w. container_state h w) >>= (λ status. stop status >> remove))
          (>>=-Free bad (query_result (λ w. container_state h w)) (λ status. stop status >> remove)
            container_state-good
            (λ status.
              then-Free bad (stop status) remove
                (when-Free bad (not (is_stopped status)) (refuse status >> all) (
                  then-Free bad (refuse status) all (throw_if-Free bad _ _ (f.message _)) (
                    wrapped-Free f "failed to kill container"
                      (kill_members h cgroup_root c (pos 9) fuel) (kill_members-Free (pos 9)))))
                tear_down-Free))
