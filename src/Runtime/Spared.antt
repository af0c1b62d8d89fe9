-- ===== src/Runtime/Spared.antt =====
-- The monitor process and the operations of the life cycle, one behind the other.
use lxcri.Base.{
  ℕ, zero, suc, String, ◌≡◌, refl, ◌∙◌, ap, Bool, not, ◌&&◌, ◌||◌, List, [], ◌∷◌, ◌++◌, ◌<>◌, ◌==◌,
  failed, wrapped, Result, ok, err, arith,
}
use lxcri.Base.Host.{
  Host, M, Call, History, perform, with_error, attempt, logged, when, throw_if, query_result,
  destroy, release, remove_all, remove_dir, open_write, close_file, ◌>>=◌, ◌>>◌,
}
use lxcri.Base.Int.{ℤ, pos}
use lxcri.Base.FilePath.{join_path}
use lxcri.Base.Poll.{poll-slept}
use lxcri.Oci.{ContainerState, state_name}
use lxcri.Container.{Container, sync_fifo_path, runtime_path}
use lxcri.Container.State.{container_state}
use lxcri.Container.Wait.{
  look_started, wait_started, look_stopped, wait_monitor_stopped, is_created,
}
use lxcri.Cgroup.Events.{poll_cgroup_events}
use lxcri.Cgroup.Kill.{kill_cgroup}
use lxcri.Cgroup.Delete.{delete_entries, delete_cgroup_recursive, delete_cgroup}
use lxcri.Cgroup.Spared.{
  signals_to, signals_to-append, Spares, >>=-Spares, then-Spares, perform-Spares, slept-signals,
  poll_cgroup_events-Spares, kill_cgroup_spares_monitor,
}
use lxcri.Runtime.Quiet.{
  attempt-Spares, with_error-Spares, logged-Spares, deferred-Spares, when-Spares, throw_if-Spares,
  run_after-Spares,
}
use lxcri.Runtime.Lifecycle.{
  is_stopped, spec_state, run_after, unblock, start, judge_kill, kill_members, kill,
  stop_for_delete, judge_deleted, tear_down, delete,
}

module _ (h : Host) (cgroup_root : String) (monitor : ℤ) where
  delete_entries-Spares :
      (delete_child : String → M (Unit {0})) (cgroup_name : String) (entries : List (String × Bool))
      → ((name : String) → Spares h monitor (delete_child name))
      → Spares h monitor (delete_entries h cgroup_root delete_child cgroup_name entries)
  delete_entries-Spares delete_child cgroup_name [] s = λ w. refl
  delete_entries-Spares delete_child cgroup_name ((name, is_dir) ∷ entries) s =
      let child = delete_child (join_path (cgroup_name ∷ name ∷ [])) in
      then-Spares h monitor (when (is_dir && not (name == "." || name == "..")) child)
        (delete_entries h cgroup_root delete_child cgroup_name entries)
        (when-Spares h monitor _ child (s (join_path (cgroup_name ∷ name ∷ []))))
        (delete_entries-Spares delete_child cgroup_name entries s)

  delete_cgroup-Spares :
      (left : ℕ) (cgroup_name : String)
      → Spares h monitor (delete_cgroup_recursive h cgroup_root left cgroup_name)
  unfolding delete_cgroup_recursive
  delete_cgroup-Spares zero cgroup_name = λ w. refl
  delete_cgroup-Spares (suc left) cgroup_name =
      let path = join_path (cgroup_root ∷ cgroup_name ∷ []) in
      let children = delete_cgroup_recursive h cgroup_root left in
      let clear : List (String × Bool) → M (Unit {0}) = λ entries.
        delete_entries h cgroup_root children cgroup_name entries >> perform h (remove_dir path) in
      >>=-Spares h monitor (query_result (λ w. h.read_dir w path)) clear (λ w. refl)
        (λ entries.
          then-Spares h monitor (delete_entries h cgroup_root children cgroup_name entries)
            (perform h (remove_dir path))
            (delete_entries-Spares children cgroup_name entries (delete_cgroup-Spares left))
            (perform-Spares h monitor (remove_dir path) refl))

  wait_monitor_stopped-Spares : (pid fuel : ℕ) → Spares h monitor (wait_monitor_stopped h pid fuel)
  unfolding wait_monitor_stopped
  wait_monitor_stopped-Spares pid fuel w =
      let (k, e) = poll-slept h 100 (look_stopped h pid) fuel w in
      ap (signals_to monitor) e ∙ slept-signals h monitor 100 k w

  wait_started-Spares : (pid fuel : ℕ) → Spares h monitor (wait_started h pid fuel)
  unfolding wait_started
  wait_started-Spares pid fuel w =
      let (k, e) = poll-slept h 10 (look_started h pid) fuel w in
      ap (signals_to monitor) e ∙ slept-signals h monitor 10 k w

  judge_deleted-Spares : (r : Result (Unit {0})) → Spares h monitor (judge_deleted h cgroup_root r)
  judge_deleted-Spares (ok u) = λ w. refl
  judge_deleted-Spares (err e) = throw_if-Spares h monitor _ _

  tear_down-Spares : (c : Container) (fuel : ℕ) → Spares h monitor (tear_down h cgroup_root c fuel)
  unfolding tear_down delete_cgroup
  tear_down-Spares c fuel =
      let wait = wait_monitor_stopped h c.pid fuel in
      let drain =
        poll_cgroup_events h (join_path (cgroup_root ∷ c.cgroup_dir ∷ "cgroup.events" ∷ []))
          (λ ev. not ev.populated) fuel in
      let clear = delete_cgroup h cgroup_root c.cgroup_dir in
      let after = run_after h (λ hooks. hooks.poststop) c.spec.hooks in
      let remove = perform h (remove_all (runtime_path c "")) in
      let end : M (Unit {0}) = after >> remove in
      let judge : Result (Unit {0}) → M (Unit {0}) = λ r. judge_deleted h cgroup_root r >> end in
      let kill_off : M (Unit {0}) =
        with_error (wrapped "failed to destroy container") (perform h destroy) in
      >>=-Spares h monitor (logged wait)
        (λ _. kill_off >> (logged drain >>= λ _. attempt clear >>= judge))
        (logged-Spares h monitor wait (wait_monitor_stopped-Spares c.pid fuel))
        (λ _.
          then-Spares h monitor kill_off (logged drain >>= λ _. attempt clear >>= judge)
            (with_error-Spares h monitor _ (perform h destroy)
              (perform-Spares h monitor destroy refl))
            (>>=-Spares h monitor (logged drain) (λ _. attempt clear >>= judge)
              (logged-Spares h monitor drain (poll_cgroup_events-Spares h monitor _ _ fuel))
              (λ _.
                >>=-Spares h monitor (attempt clear) judge
                  (attempt-Spares h monitor clear (delete_cgroup-Spares 10 c.cgroup_dir))
                  (λ r.
                    then-Spares h monitor (judge_deleted h cgroup_root r) end
                      (judge_deleted-Spares r)
                      (then-Spares h monitor after remove
                        (run_after-Spares h monitor _ c.spec.hooks)
                        (perform-Spares h monitor (remove_all (runtime_path c "")) refl))))))

  start-Spares : (c : Container) (fuel : ℕ) → Spares h monitor (start h c fuel)
  unfolding start unblock spec_state
  start-Spares c fuel =
      let unlock = perform h (open_write (sync_fifo_path c)) in
      let close : M (Unit {0}) = perform h (close_file (sync_fifo_path c)) in
      let wait = wait_started h c.pid fuel in
      let after = run_after h (λ hooks. hooks.poststart) c.spec.hooks in
      let go : ContainerState → M (Unit {0}) = λ status. unblock h c fuel >> after in
      let check : ContainerState → M (Unit {0}) = λ status.
        throw_if (not (is_created status))
          (failed ("invalid container state. expected created, but was " <> state_name status)) in
      >>=-Spares h monitor (with_error (wrapped "failed to get container state") (spec_state h))
        (λ status. check status >> go status)
        (with_error-Spares h monitor _ (spec_state h)
          (with_error-Spares h monitor _ (query_result (λ w. container_state h w)) (λ w. refl)))
        (λ status.
          then-Spares h monitor (check status) (go status) (throw_if-Spares h monitor _ _) (
            then-Spares h monitor (unblock h c fuel) after
              (then-Spares h monitor unlock (close >> wait) (perform-Spares h monitor _ refl) (
                then-Spares h monitor close wait (perform-Spares h monitor _ refl)
                  (wait_started-Spares c.pid fuel)))
              (run_after-Spares h monitor _ c.spec.hooks)))

-- The operations on a container, whose monitor process is known
module _ (h : Host) (cgroup_root : String) (c : Container) where
  judge_kill-Spares : (r : Result (Unit {0})) → Spares h (pos c.pid) (judge_kill h r)
  unfolding judge_kill
  judge_kill-Spares (ok u) = λ w. refl
  judge_kill-Spares (err e) = throw_if-Spares h (pos c.pid) _ _

  kill_members-Spares :
      (sig : ℤ) (fuel : ℕ) → Spares h (pos c.pid) (kill_members h cgroup_root c sig fuel)
  unfolding kill_members
  kill_members-Spares sig fuel =
      let all = kill_cgroup h cgroup_root c.cgroup_dir (pos c.pid) sig fuel in
      >>=-Spares h (pos c.pid) (attempt all) (judge_kill h)
        (attempt-Spares h (pos c.pid) all
          (kill_cgroup_spares_monitor h (pos c.pid) cgroup_root c.cgroup_dir sig fuel))
        judge_kill-Spares

  kill-Spares : (sig : ℤ) (fuel : ℕ) → Spares h (pos c.pid) (kill h cgroup_root c sig fuel)
  unfolding kill
  kill-Spares sig fuel =
      let check : ContainerState → M (Unit {0}) =
        λ status. throw_if (is_stopped status) (failed "container already stopped") in
      let all = kill_members h cgroup_root c sig fuel in
      >>=-Spares h (pos c.pid) (query_result (λ w. container_state h w)) (λ s. check s >> all)
        (λ w. refl)
        (λ s.
          then-Spares h (pos c.pid) (check s) all (throw_if-Spares h (pos c.pid) _ _)
            (kill_members-Spares sig fuel))

  delete-Spares :
      (force : Bool) (fuel : ℕ) → Spares h (pos c.pid) (delete h cgroup_root c force fuel)
  unfolding delete stop_for_delete
  delete-Spares force fuel =
      let refuse : ContainerState → M (Unit {0}) = λ status.
        throw_if (not force)
          (failed ("container is not not stopped (current state " <> state_name status <> ")")) in
      let all : M (Unit {0}) =
        with_error (wrapped "failed to kill container")
          (kill_members h cgroup_root c (pos 9) fuel) in
      let stop : ContainerState → M (Unit {0}) =
        λ status. stop_for_delete h cgroup_root c force status fuel in
      let remove = tear_down h cgroup_root c fuel in
      deferred-Spares h (pos c.pid) release
        (query_result (λ w. container_state h w) >>= λ status. stop status >> remove) refl
        (>>=-Spares h (pos c.pid) (query_result (λ w. container_state h w))
          (λ status. stop status >> remove) (λ w. refl)
          (λ status.
            then-Spares h (pos c.pid) (stop status) remove
              (when-Spares h (pos c.pid) (not (is_stopped status)) (refuse status >> all) (
                then-Spares h (pos c.pid) (refuse status) all (throw_if-Spares h (pos c.pid) _ _) (
                  with_error-Spares h (pos c.pid) _ (kill_members h cgroup_root c (pos 9) fuel)
                    (kill_members-Spares (pos 9) fuel))))
              (tear_down-Spares h cgroup_root (pos c.pid) c fuel)))

  -- One operation on the container, with any outcome, or a call of someone else that is no signal to the
  -- monitor
  pub data Step (w w' : History) : Type 0 where
    starts : (fuel : ℕ) → w' ≡ (start h c fuel w).1 → Step w w'
    kills : (sig : ℤ) (fuel : ℕ) → w' ≡ (kill h cgroup_root c sig fuel w).1 → Step w w'
    deletes : (force : Bool) (fuel : ℕ) → w' ≡ (delete h cgroup_root c force fuel w).1 → Step w w'
    calls :
        (call : Call) → signals_to (pos c.pid) (call ∷ []) ≡ 0 → w' ≡ w ++ (call ∷ []) → Step w w'

  pub data Reach (w : History) : History → Type 0 where
    here : Reach w w
    next : {v u : History} → Reach w v → Step v u → Reach w u

  Step-spares : (w w' : History) → Step w w' → signals_to (pos c.pid) w' ≡ signals_to (pos c.pid) w
  Step-spares w w' (starts fuel e) =
      ap (signals_to (pos c.pid)) e ∙ start-Spares h cgroup_root (pos c.pid) c fuel w
  Step-spares w w' (kills sig fuel e) = ap (signals_to (pos c.pid)) e ∙ kill-Spares sig fuel w
  Step-spares w w' (deletes force fuel e) =
      ap (signals_to (pos c.pid)) e ∙ delete-Spares force fuel w
  Step-spares w w' (calls call other e) =
      ap (signals_to (pos c.pid)) e
      ∙ signals_to-append (pos c.pid) w (call ∷ [])
      ∙ ground (arith, other)

  -- No sequence of `Start`, `Kill` and `Delete` on a container, in any order, with any signals and any
  -- outcomes, and with any calls of others between them that do not signal the monitor, sends a signal
  -- to the monitor process of the container.
  pub operations_spare_monitor :
      {w w' : History} → Reach w w' → signals_to (pos c.pid) w' ≡ signals_to (pos c.pid) w
  operations_spare_monitor here = refl
  operations_spare_monitor (next {v} {u} before step) =
      Step-spares v u step ∙ operations_spare_monitor before
