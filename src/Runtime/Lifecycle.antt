-- ===== src/Runtime/Lifecycle.antt =====
-- The life cycle behind `Create`: `Load`, `Start`, `Kill`, `Delete` and `List` of runtime.go, with the
-- methods `load`, `start`, `kill` and `State` of container.go that they call. What the JSON decoder
-- makes of lxcri.json is a parameter.
use Prim.Native.Char.{code}
use lxcri.Base.{
  ℕ, String, Bool, true, false, not, ◌||◌, Option, none, some, List, [], ◌∷◌, ◌<>◌, eqb,
  if◌then◌else◌, Error, failed, wrapped, container_not_exist, out_of_fuel, Result, ok, err,
  is_not_exist, is_enodev,
}
use lxcri.Base.Host.{
  Host, M, open_write, close_file, new_container, load_config, destroy, release, remove_all,
  perform, query_result, return, throw, throw_if, when, with_error, attempt, logged, deferred,
  ◌>>=◌, ◌>>◌,
}
use lxcri.Base.Int.{ℤ, pos}
use lxcri.Base.FilePath.{join_path, dir}
use lxcri.Specki.Json.{decode_json_file}
use lxcri.Oci.{ContainerState, state_name, Hook, Hooks}
use lxcri.Container.{Container, runtime_path, config_file_path, sync_fifo_path}
use lxcri.Container.State.{container_state}
use lxcri.Container.Wait.{is_created, wait_started, wait_monitor_stopped}
use lxcri.Hooks.{run_hooks}
use lxcri.Cgroup.Events.{poll_cgroup_events}
use lxcri.Cgroup.Kill.{kill_cgroup}
use lxcri.Cgroup.Delete.{delete_cgroup}

-- the container state as a test
abbrev pub is_stopped : ContainerState → Bool
is_stopped ContainerState.stopped = true
is_stopped _ = false

abbrev pub missing : {A : Type 0} → Result A → Bool
missing (ok a) = false
missing (err e) = is_not_exist e

-- `load` of container.go. What the decoder returns has a spec: a lxcri.json without one, which leaves a
-- nil pointer in Go, is outside of the model.
unfoldable pub load : Host → (String → Result Container) → String → M Container
load h decode runtime_dir = do
  decoded ←
      with_error (wrapped "failed to load container config")
        (decode_json_file h decode (join_path (runtime_dir ∷ join_path ("lxcri.json" ∷ []) ∷ [])))
  let c = record decoded { runtime_dir = runtime_dir }
  info ←
      with_error (wrapped "failed to stat lxc config file")
        (query_result (λ w. h.stat w (config_file_path c)))
  with_error (wrapped "failed to create lxc container")
      (perform h (new_container c.container_id (dir runtime_dir)))
  with_error (wrapped "failed to load config file") (perform h (load_config (config_file_path c)))
  return c

-- `Load` of runtime.go
unfoldable pub load_container : Host → (String → Result Container) → String → String → M Container
load_container h decode root container_id = do
  let runtime_dir = join_path (root ∷ container_id ∷ [])
  info ← attempt (query_result (λ w. h.stat w runtime_dir))
  throw_if (missing info) container_not_exist
  load h decode runtime_dir

unfoldable pub kill_error : Error → Error
kill_error out_of_fuel = out_of_fuel
kill_error e = failed "failed to kill group"

module _ (h : Host) where
  -- `State`, of which the callers here read the status and pass on the rest
  unfoldable pub spec_state : M ContainerState
  spec_state =
      with_error (wrapped "failed go get container status")
        (query_result (λ w. container_state h w))

  -- The hooks behind `c.Spec.Hooks != nil`: their errors are only logged.
  unfoldable pub run_after : (Hooks → List Hook) → Option Hooks → M (Unit {0})
  run_after select none = return tt
  run_after select (some hooks) = do
    status ← with_error (wrapped "failed to get container state") spec_state
    outcome ← attempt (run_hooks h true (select hooks))
    return tt

  -- `start` of container.go
  unfoldable pub unblock : Container → ℕ → M (Unit {0})
  unblock c fuel = do
    perform h (open_write (sync_fifo_path c))
    perform h (close_file (sync_fifo_path c))
    wait_started h c.pid fuel

  -- `Start`
  unfoldable pub start : Container → ℕ → M (Unit {0})
  start c fuel = do
    status ← with_error (wrapped "failed to get container state") spec_state
    throw_if (not (is_created status))
        (failed ("invalid container state. expected created, but was " <> state_name status))
    unblock c fuel
    run_after (λ hooks. hooks.poststart) c.spec.hooks

  -- What `kill` of container.go makes of the outcome of `killCgroup`.
  unfoldable pub judge_kill : Result (Unit {0}) → M (Unit {0})
  unfolding kill_error
  judge_kill (ok u) = return tt
  judge_kill (err e) = throw_if (not (is_not_exist e || is_enodev e)) (kill_error e)

  module _ (cgroup_root : String) where
    -- `kill` of container.go. That `killCgroup` meets a cgroup that liblxc deletes is no error.
    unfoldable pub kill_members : Container → ℤ → ℕ → M (Unit {0})
    kill_members c signum fuel = do
      outcome ← attempt (kill_cgroup h cgroup_root c.cgroup_dir (pos c.pid) signum fuel)
      judge_kill outcome

    -- `Kill`
    unfoldable pub kill : Container → ℤ → ℕ → M (Unit {0})
    kill c signum fuel = do
      status ← query_result (λ w. container_state h w)
      throw_if (is_stopped status) (failed "container already stopped")
      kill_members c signum fuel

    -- The branch of `Delete` for a container that is not stopped; SIGKILL is 9.
    unfoldable pub stop_for_delete : Container → Bool → ContainerState → ℕ → M (Unit {0})
    stop_for_delete c force status fuel = when (not (is_stopped status)) (do
      throw_if (not force)
          (failed ("container is not not stopped (current state " <> state_name status <> ")"))
      with_error (wrapped "failed to kill container") (kill_members c (pos 9) fuel))

    abbrev pub judge_deleted : Result (Unit {0}) → M (Unit {0})
    judge_deleted (ok u) = return tt
    judge_deleted (err e) = throw_if (not (is_not_exist e)) (failed "failed to delete cgroup")

    -- `Delete` behind that branch
    unfoldable pub tear_down : Container → ℕ → M (Unit {0})
    tear_down c fuel = do
      monitor ← logged (wait_monitor_stopped h c.pid fuel)
      with_error (wrapped "failed to destroy container") (perform h destroy)
      emptied ← logged (
          poll_cgroup_events h (join_path (cgroup_root ∷ c.cgroup_dir ∷ "cgroup.events" ∷ []))
            (λ ev. not ev.populated) fuel)
      deleted ← attempt (delete_cgroup h cgroup_root c.cgroup_dir)
      judge_deleted deleted
      run_after (λ hooks. hooks.poststop) c.spec.hooks
      perform h (remove_all (runtime_path c ""))

    -- `Delete` of a container
    unfoldable pub delete : Container → Bool → ℕ → M (Unit {0})
    delete c force fuel = deferred release (do
      status ← query_result (λ w. container_state h w)
      stop_for_delete c force status fuel
      tear_down c fuel)

    abbrev after_load : String → Bool → ℕ → Result Container → M (Unit {0})
    after_load runtime_dir force fuel (ok c) = delete c force fuel
    after_load runtime_dir force fuel (err container_not_exist) = throw container_not_exist
    after_load runtime_dir force fuel (err e) = perform h (remove_all runtime_dir)

    -- `Delete` of the runtime
    unfoldable pub delete_container :
        (String → Result Container) → String → String → Bool → ℕ → M (Unit {0})
    delete_container decode root container_id force fuel = do
      loaded ← attempt (load_container h decode root container_id)
      after_load (join_path (root ∷ container_id ∷ [])) force fuel loaded

abbrev is_visible : String → Bool
is_visible String.[] = true
is_visible (String.◌∷◌ c name) = not (eqb (code c) 46)

abbrev visible : List (String × Bool) → List String
visible [] = []
visible ((name, is_dir) ∷ entries) =
    let rest = visible entries in if is_visible name then name ∷ rest else rest

-- `List`: the entries of the runtime directory that are not hidden
unfoldable pub list : Host → String → M (List String)
list h root = do entries ← query_result (λ w. h.read_dir w root); return (visible entries)
