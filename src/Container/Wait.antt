-- ===== src/Container/Wait.antt =====
-- The loops of container.go that wait for the monitor and for the init process. The monitor's exit
-- status is only logged.
use lxcri.Base.{
  ℕ, String, Bool, true, false, Option, none, some, ltb, ◌<>◌, if◌then◌else◌, Errno, failed, Result,
  ok, err, echild,
}
use lxcri.Base.Host.{Host, M, History, LxcState, WaitResult, reaped, alive, wait_error}
use lxcri.Base.Poll.{poll}
use lxcri.Oci.{ContainerState, state_name}
use lxcri.Container.State.{get_container_init_state}

abbrev of_probe : Option Errno → Bool
of_probe none = true
of_probe (some e) = false

-- This process may not be the parent of the monitor: then the kernel is asked for the PID.
abbrev of_wait : Host → ℕ → History → WaitResult → Bool
of_wait h pid w reaped = false
of_wait h pid w alive = true
of_wait h pid w (wait_error echild) = of_probe (h.probe w pid)
of_wait h pid w (wait_error e) = false

-- `isMonitorRunning`
unfoldable pub is_monitor_running : Host → ℕ → History → Bool
is_monitor_running h pid w = if ltb pid 2 then false else of_wait h pid w (h.wait4 w pid)

-- One round of `waitMonitorStopped`
unfoldable pub look_stopped : Host → ℕ → History → Option (Result (Unit {0}))
look_stopped h pid w = if is_monitor_running h pid w then none else some (ok tt)

-- `waitMonitorStopped`
unfoldable pub wait_monitor_stopped : Host → ℕ → ℕ → M (Unit {0})
unfolding look_stopped
wait_monitor_stopped h pid = poll h 100 (look_stopped h pid)

abbrev pub is_running : LxcState → Bool
is_running LxcState.running = true
is_running _ = false

abbrev pub is_created : ContainerState → Bool
is_created ContainerState.created = true
is_created _ = false

unfoldable pub unexpected : ContainerState → String
unexpected s = "unexpected init state '" <> state_name s <> "'"

-- One round of `waitCreated`
unfoldable pub look_created : Host → ℕ → History → Option (Result (Unit {0}))
unfolding unexpected
look_created h pid w =
    if is_monitor_running h pid w
    then if is_running (h.lxc_state w)
      then if is_created (get_container_init_state h w)
        then some (ok tt)
        else some (err (failed (unexpected (get_container_init_state h w))))
      else none
    else some (err (failed "monitor already died"))

-- `waitCreated`
unfoldable pub wait_created : Host → ℕ → ℕ → M (Unit {0})
unfolding look_created
wait_created h pid = poll h 100 (look_created h pid)

-- One round of `waitStarted`
unfoldable pub look_started : Host → ℕ → History → Option (Result (Unit {0}))
look_started h pid w =
    if is_monitor_running h pid w
    then if is_created (get_container_init_state h w) then none else some (ok tt)
    else some (ok tt)

-- `waitStarted`
unfoldable pub wait_started : Host → ℕ → ℕ → M (Unit {0})
unfolding look_started
wait_started h pid = poll h 10 (look_started h pid)
