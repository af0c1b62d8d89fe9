-- ===== src/Examples/Commands.antt =====
-- Runs of the commands, of the set-up of the runtime and of the built-in hook.
use lxcri.Base.{
  ℕ, String, ◌≡◌, refl, true, false, Option, none, some, [], ◌∷◌, ◌++◌, ◌==◌, inr, if◌then◌else◌,
  Error, Errno, container_not_exist, Result, ok, err, failed, decimal, to_upper,
}
use lxcri.Base.Int.{ℤ, pos, atoi}
use lxcri.Base.FilePath.{join_path, clean, dir, base, enter_all, unrooted}
use lxcri.Base.Host.{Host, History}
use lxcri.Oci.{Spec, SpecState, Process, Linux, Device, ContainerState}
use lxcri.Container.Log.{set_log}
use lxcri.Settings.{Runtime}
use lxcri.Runtime.Lifecycle.{load, load_container, start, delete}
use lxcri.Runtime.Setup.{find_config}
use lxcri.Runtime.Setup.Config.{ordered_config, find_config_ordered}
use lxcri.Cgroup.Spared.{signals_to}
use lxcri.Runtime.Spared.{here, next, starts, deletes, operations_spare_monitor}
use lxcri.Cli.Signal.{parse_signal, parse_signal_spelling}
use lxcri.Cli.PidFile.{Files, put, tmp_name, Replaces, create_pid_file, create_pid_file_refines}
use lxcri.Cli.Commands.{
  Decoder, ExecFlags, process_of, load_spec_process, app_load_container, do_start, do_state,
  do_kill, do_delete, do_exec,
}
use lxcri.Cli.Main.{exit_code}
use lxcri.Cli.Missing.{missing_container}
use lxcri.Cli.Exits.{exit_code-do_exec}
use lxcri.Specki.Json.{decode_json_file, close_decoded}
use lxcri.Hooks.Builtin.{init_hook, run_builtin}
use lxcri.Hooks.BuiltinRun.{Tries, wanted_nodes, masked, run_builtin_lem}
use lxcri.Examples.{sample, some_container, some_runtime, some_spec, some_process, some_linux}

abbrev signal_num : String → ℤ
signal_num name = if name == "SIGKILL" then pos 9 else pos 0

parse_signal_spelling_example : parse_signal signal_num "sigKill" ≡ signal_num "SIGKILL"
unfolding atoi to_upper
parse_signal_spelling_example =
    parse_signal_spelling signal_num "KILL" "sigKill" refl ((λ e. cc), refl) (inr refl)

abbrev no_files : Files
no_files path = none

create_pid_file_refines_example :
    Replaces sample "/run/c1.pid"
      (no_files "/run/c1.pid")
      (put "/run/c1.pid" (some (decimal 7)) no_files "/run/c1.pid")
      []
      no_files
      (create_pid_file sample "/run/c1.pid" 7 [])
unfolding tmp_name join_path clean dir base enter_all unrooted
create_pid_file_refines_example =
    create_pid_file_refines sample "/run/c1.pid" 7 [] no_files "/run/c1.pid" (λ e. cc)

abbrev absent : Host
absent = record sample { stat = λ w path. err (Error.errno Errno.enoent) }

abbrev decode : Decoder
decode text = ok some_container

missing_container_example :
    (do_start absent decode some_runtime "c1" 1 [] ≡ (err container_not_exist, []))
    × (do_state absent decode (λ s. ok "{}") some_runtime "c1" [] ≡ (err container_not_exist, []))
    × (do_kill absent decode signal_num "/sys/fs/cgroup" some_runtime "c1" "kill" 1 []
        ≡ (err container_not_exist, []))
    × (do_delete absent decode "/sys/fs/cgroup" some_runtime "c1" true 1 [] ≡ (ok tt, []))
unfolding parse_signal to_upper atoi
missing_container_example =
    missing_container absent decode some_runtime "c1" [] refl (λ s. ok "{}") signal_num
      "/sys/fs/cgroup" "kill" true 1 refl

abbrev failing : Host
failing = record sample { command_status = λ w. pos 3 }

abbrev exec_flags : ExecFlags
exec_flags = record {
  process = "";
  pid_file = "";
  detach = false;
  cgroup = false;
  ipc = false;
  mnt = true;
  net = false;
  pid = true;
  user = false;
  uts = false;
}

abbrev decode_process : String → Result Process
decode_process text = ok some_process

exit_code-do_exec_example :
    exit_code
      (do_exec failing decode decode_process some_runtime "c1" ("/bin/false" ∷ []) exec_flags []).0
      (err (failed "close failed"))
    ≡ pos 3
unfolding load_spec_process process_of app_load_container load_container load set_log
    decode_json_file close_decoded
exit_code-do_exec_example =
    exit_code-do_exec failing (err (failed "close failed")) decode decode_process some_runtime "c1"
      ("/bin/false" ∷ []) exec_flags (process_of ("/bin/false" ∷ [])) _ (some_linux []) [] [] _ refl
      refl refl refl refl refl

abbrev with_home : Host
with_home = record absent { lookup_env = λ key. if key == "HOME" then some "/home/u" else none }

find_config_ordered_example : find_config with_home "" [] ≡ (ordered_config with_home [] "", [])
find_config_ordered_example = find_config_ordered with_home [] ""

abbrev proc_host : Host
proc_host = record sample { statfs = λ w path. ok 0x9fa0 }

abbrev known_level : String → Option Error
known_level level = none

abbrev runtime_of : Result (Runtime × String) → Runtime
runtime_of (ok (rt, root)) = rt
runtime_of (err e) = some_runtime

operations_spare_monitor_example :
    let w : History = (start sample some_container 5 []).1 in
    signals_to (pos 7) (delete sample "/sys/fs/cgroup" some_container true 5 w).1
    ≡ signals_to (pos 7) []
operations_spare_monitor_example =
    operations_spare_monitor sample "/sys/fs/cgroup" some_container
      (next (next here (starts 5 refl)) (deletes true 5 refl))

abbrev some_state : SpecState
some_state = record {
  version = "1.0.2";
  id = "c1";
  status = ContainerState.creating;
  pid = 7;
  bundle = "/run/lxcri/c1";
  annotations = [];
}

abbrev null_device : Device
null_device = record {
  path = "/dev/null";
  type = "c";
  major = pos 1;
  minor = pos 3;
  file_mode = none;
  uid = none;
  gid = none;
}

abbrev device_linux : Linux
device_linux = record (some_linux []) {
  devices = null_device ∷ [];
  masked_paths = "/proc/kcore" ∷ [];
}

abbrev device_spec : Spec
device_spec = record (some_spec []) { linux = some device_linux }

abbrev mkdev : ℕ → ℕ → ℕ
mkdev major minor = 259

abbrev decode_spec : String → Result Spec
decode_spec text = ok device_spec

run_builtin_lem_example :
    let v = (init_hook sample decode_spec (ok some_state) []).1 in
    let r = run_builtin sample mkdev decode_spec (ok some_state) [] in
    (r.0 ≡ ok tt)
    × Tries v
        (wanted_nodes mkdev "/rootfs" device_linux.devices
          ++ masked "/rootfs" device_linux.masked_paths)
        r.1
unfolding init_hook decode_json_file close_decoded
run_builtin_lem_example =
    run_builtin_lem sample mkdev decode_spec (ok some_state) "/rootfs" device_spec some_process
      device_linux [] _ refl refl refl
