-- ===== src/Examples/Lifecycle.antt =====
-- Runs of the operations on a container, and of the loops that wait for it.
use lxcri.Base.{
  String, ◌≡◌, ◌≢◌, refl, true, false, [], ◌∷◌, ◌++◌, Error, Result, ok, err, is_ok, arith, ◌⊎◌,
  decimal, digit,
}
use lxcri.Base.Host.{Host, History, release}
use lxcri.Base.Calls.{Accepted}
use lxcri.Base.Int.{pos}
use lxcri.Base.FilePath.{join_path, clean}
use lxcri.Base.Poll.{poll, slept}
use lxcri.Oci.{ContainerState}
use lxcri.Container.{runtime_path}
use lxcri.Container.State.{
  container_state, state, get_container_init_state, cmdline_path, Shows, container_state_iff,
}
use lxcri.Container.Wait.{
  is_monitor_running, look_started, look_stopped, wait_created, wait_started, wait_monitor_stopped,
}
use lxcri.Container.Waits.{wait_created_reaches}
use lxcri.Cgroup.Events.{
  poll_cgroup_events, look_events, parse_cgroup_events, events_of, read_lines,
}
use lxcri.Cgroup.Kill.{kill_cgroup}
use lxcri.Cgroup.Delete.{delete_cgroup, delete_cgroup_recursive}
use lxcri.Hooks.Run.{started, paths}
use lxcri.Runtime.Lifecycle.{
  start, kill, delete, kill_members, spec_state, unblock, run_after, stop_for_delete, tear_down,
}
use lxcri.Runtime.Started.{hooks_after, fifo_calls, start_sound}
use lxcri.Runtime.Deletes.{IsTolerated, TornDown, kill_iff, delete_sound}
use lxcri.Examples.{sample, ended, some_container}

container_state_iff_example :
    (container_state ended [] ≡ ok ContainerState.stopped → Shows ended [] ContainerState.stopped)
    × (Shows ended [] ContainerState.stopped → container_state ended [] ≡ ok ContainerState.stopped)
container_state_iff_example = container_state_iff ended [] ContainerState.stopped

sample_created : container_state sample [] ≡ ok ContainerState.created
unfolding container_state state get_container_init_state cmdline_path decimal digit
sample_created = refl

wait_created_reaches_example : wait_created sample 7 1 [] ≡ (ok tt, slept 100 0 [])
unfolding is_monitor_running
wait_created_reaches_example =
    wait_created_reaches sample 7 0 1 [] (omega arith) (λ j lt. refl) (λ j lt. refl)
      (λ j lt. elim lt [ ]) refl sample_created

-- The init process has given way to the container process once the fifo was opened.
abbrev started_up : Host
started_up = record sample { read_file = λ w path. after w path }
  where
    after : History → String → Result String
    after [] path = sample.read_file [] path
    after (c ∷ w) path = ok "/bin/true"

start_sound_example :
    let w' = (start started_up some_container 3 []).1 in
    (container_state started_up [] ≡ ok ContainerState.created)
    × Accepted started_up [] (fifo_calls some_container)
    × (v : History) × (wait_started started_up 7 3 ([] ++ fifo_calls some_container) ≡ (ok tt, v))
    × (started w'
        ≡ started v ++ paths (hooks_after (λ hooks. hooks.poststart) some_container.spec.hooks))
unfolding start spec_state unblock run_after container_state state get_container_init_state
    cmdline_path wait_started look_started poll is_monitor_running decimal digit
start_sound_example =
    start_sound started_up some_container 3 [] (start started_up some_container 3 []).1 refl

kill_iff_example :
    let done =
      kill_cgroup sample "/sys/fs/cgroup" some_container.cgroup_dir (pos 7) (pos 15) 3 [] in
    ((container_state sample [] ≡ ok ContainerState.stopped)
        ⊎ ((e : Error) × (container_state sample [] ≡ err e))
      → (is_ok (kill sample "/sys/fs/cgroup" some_container (pos 15) 3 []).0 ≡ false)
        × ((kill sample "/sys/fs/cgroup" some_container (pos 15) 3 []).1 ≡ []))
    × ((s : ContainerState)
        → container_state sample [] ≡ ok s
        → s ≢ ContainerState.stopped
        → ((kill sample "/sys/fs/cgroup" some_container (pos 15) 3 []).1 ≡ done.1)
          × ((kill sample "/sys/fs/cgroup" some_container (pos 15) 3 []).0 ≡ ok tt
              → IsTolerated done.0)
          × (IsTolerated done.0
              → (kill sample "/sys/fs/cgroup" some_container (pos 15) 3 []).0 ≡ ok tt))
kill_iff_example = kill_iff sample "/sys/fs/cgroup" some_container (pos 15) 3 []

delete_sound_example :
    let w' = (delete ended "/sys/fs/cgroup" some_container false 3 []).1 in
    (s : ContainerState) × (u v : History) × (container_state ended [] ≡ ok s)
    × (((s ≡ ContainerState.stopped) × (u ≡ []))
        ⊎ ((false ≡ true)
            × (kill_members ended "/sys/fs/cgroup" some_container (pos 9) 3 [] ≡ (ok tt, u))))
    × TornDown ended "/sys/fs/cgroup" some_container 3 u v
    × (w' ≡ v ++ (release ∷ []))
unfolding delete container_state state stop_for_delete tear_down wait_monitor_stopped look_stopped
    poll is_monitor_running poll_cgroup_events look_events parse_cgroup_events events_of read_lines
    delete_cgroup delete_cgroup_recursive run_after runtime_path join_path clean
delete_sound_example =
    delete_sound ended "/sys/fs/cgroup" some_container 3 false []
      (delete ended "/sys/fs/cgroup" some_container false 3 []).1 refl
