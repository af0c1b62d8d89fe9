-- ===== src/Create/Instance.antt =====
-- `Create` of create.go with `create` of container.go, `runStartCmd` and `runStartCmdConsole` of
-- runtime.go. On an error `Create` also returns the container as far as it was made, which no caller
-- reads; here it is dropped.
use lxcri.Base.{
  ℕ, String, Bool, true, false, not, ◌&&◌, Option, none, some, List, [], ◌∷◌, ◌<>◌, ◌==◌,
  if◌then◌else◌, wrapped, Result,
}
use lxcri.Base.Host.{
  Host, M, Command, mkdir_all, chmod, create_new, close_file, new_container, dial, set_deadline,
  connection_file, start_pty, send_terminal, close_pty, close_connection, start_monitor,
  save_config, run_program, perform, query, return, when, with_error, attempt, deferred, ◌>>=◌,
  ◌>>◌,
}
use lxcri.Base.FilePath.{join_path, dir}
use lxcri.Oci.{Spec, Root, Process, Hooks, SpecState}
use lxcri.Settings.{Runtime, libexec}
use lxcri.Config.{set_item}
use lxcri.Specki.Env.{cleanenv}
use lxcri.Specki.Json.{encode_json_file}
use lxcri.Container.{Container, runtime_path, config_file_path}
use lxcri.Container.Wait.{wait_created}
use lxcri.Container.Status.{spec_state_of}
use lxcri.Runtime.Check.{check_config}
use lxcri.Create.Configure.{configure_container}

-- What encoding/json makes of the values that `Create` writes
pub record Encoders : Type 0 where
  pub of_spec : Spec → Result String
  pub of_hooks : Option Hooks → Result String
  pub of_state : SpecState → Result String
  pub of_container : Container → Result String

-- An entry of a map: it replaces the one with its key.
unfoldable pub set_annotation : List (String × String) → String → String → List (String × String)
set_annotation [] key value = (key, value) ∷ []
set_annotation ((k, v) ∷ entries) key value =
    let rest = set_annotation entries key value in
    if k == key then (key, value) ∷ entries else (k, v) ∷ rest

-- The container of a configuration whose spec was checked, with its runtime directory and the
-- annotation for the hooks
unfoldable pub with_config_file : Runtime → Container → Spec → Container
with_config_file rt cfg spec =
    let c : Container = record cfg {
      spec = spec;
      runtime_dir = join_path (rt.root ∷ cfg.container_id ∷ []);
    } in
    record c {
      spec = record spec {
        annotations =
            set_annotation spec.annotations "org.linuxcontainers.lxc.ConfigFile"
              (config_file_path c);
      };
    }

unfoldable pub clean_process : Option Process → Option Process
clean_process none = none
clean_process (some p) = some (record p { env = cleanenv p.env true })

-- `cleanenv(c, true)` on the container
unfoldable pub clean_container : Container → Container
unfolding clean_process
clean_container c = record c { spec = record c.spec { process = clean_process c.spec.process } }

working_dir : Option Root → String
working_dir none = ""
working_dir (some r) = r.path

has_terminal : Option Process → Bool
has_terminal none = false
has_terminal (some p) = p.terminal

-- The command of the monitor process. It has the streams of the runtime where nothing else serves
-- as its console.
unfoldable pub monitor_command : Runtime → Container → Command
unfolding working_dir has_terminal
monitor_command rt c = record {
  path = libexec rt "lxcri-start";
  args = c.container_id ∷ rt.root ∷ config_file_path c ∷ [];
  env = rt.env;
  dir = working_dir c.spec.root;
  inherits_stdio = (c.console_socket == "") && not (has_terminal c.spec.process);
}

module _ (h : Host) where
  -- `create` of container.go. A liblxc container is named by its directory and its parent.
  unfoldable pub create_dir : Container → M (Unit {0})
  create_dir c = do
    with_error (wrapped "failed to create container dir") (perform h (mkdir_all c.runtime_dir 511))
    with_error (wrapped ("failed to chmod " <> c.runtime_dir)) (perform h (chmod c.runtime_dir 511))
    perform h (create_new (runtime_path c "config") 416)
    with_error (wrapped "failed to close empty config tmpfile")
        (perform h (close_file (runtime_path c "config")))
    perform h (new_container c.container_id (dir c.runtime_dir))

  -- `runStartCmdConsole`. A dialer for "unix" returns a UnixConn.
  unfoldable pub run_start_cmd_console : Bool → Command → String → M (Unit {0})
  run_start_cmd_console has_deadline cmd socket = do
    with_error (wrapped "connecting to console socket failed") (perform h (dial socket))
    deferred close_connection (do
      when has_deadline
          (with_error (wrapped "failed to set connection deadline") (perform h set_deadline))
      with_error (wrapped "failed to get file from unix connection") (perform h connection_file)
      with_error (wrapped "failed to start with pty") (perform h (start_pty cmd))
      with_error (wrapped "failed to send console fd") (perform h send_terminal)
      perform h close_pty)

  -- The monitor is started, on the console socket where there is one.
  unfoldable pub start_cmd : Bool → Command → String → M (Unit {0})
  start_cmd has_deadline cmd socket =
      if socket == ""
      then perform h (start_monitor cmd)
      else run_start_cmd_console has_deadline cmd socket

  -- The copy of the liblxc configuration, whose failure is ignored
  unfoldable pub backup_config : Runtime → Container → M (Unit {0})
  backup_config rt c = when (not (rt.backup_config_dir == "")) (do
    copied ← attempt (
        perform h (
          run_program "cp" (
            config_file_path c
            ∷ join_path (rt.backup_config_dir ∷ (c.container_id <> ".config") ∷ [])
            ∷ [])))
    return tt)

  -- The copy of the spec, whose failure is only logged
  unfoldable pub backup_spec : Runtime → Container → Result String → M (Unit {0})
  backup_spec rt c text = when (not (rt.backup_config_dir == "")) (do
    made ← attempt (perform h (mkdir_all rt.backup_config_dir 448))
    copied ← attempt (
        encode_json_file h
          (join_path (rt.backup_config_dir ∷ (c.container_id <> ".config.json") ∷ [])) text 292)
    return tt)

  -- `runStartCmd` up to the start of the monitor
  unfoldable pub launch : Bool → Runtime → Container → M Container
  launch has_deadline rt c = do
    let cmd : Command = monitor_command rt c
    when cmd.inherits_stdio (set_item h "lxc.console.path" "none")
    with_error (wrapped ("failed to save config file to " <> config_file_path c))
        (perform h (save_config (config_file_path c)))
    backup_config rt c
    start_cmd has_deadline cmd c.console_socket
    pid ← query (λ w. h.started_pid w)
    return (record c { pid = pid })

  module _ (encode : Encoders) where
    -- `runStartCmd`
    unfoldable pub run_start_cmd : Bool → Runtime → Container → ℕ → M Container
    run_start_cmd has_deadline rt c fuel = do
      running ← launch has_deadline rt c
      encode_json_file h (runtime_path running "lxcri.json") (encode.of_container running) 288
      wait_created h running.pid fuel
      return running

    -- The files that hooks read, and the start of the container
    unfoldable pub publish : Bool → Runtime → Container → ℕ → M Container
    publish has_deadline rt c fuel = do
      encode_json_file h (runtime_path c "config.json") (encode.of_spec c.spec) 292
      backup_spec rt c (encode.of_spec c.spec)
      encode_json_file h (runtime_path c "hooks.json") (encode.of_hooks c.spec.hooks) 292
      state ← spec_state_of h c
      encode_json_file h (runtime_path c "state.json") (encode.of_state state) 292
      with_error (wrapped "failed to run container process") (run_start_cmd has_deadline rt c fuel)

    -- `Create`
    unfoldable pub create : Result String → String → Bool → Runtime → Container → ℕ → M Container
    create uname cgroup_root has_deadline rt cfg fuel = do
      spec ← check_config h cfg.container_id cfg.spec
      let c : Container = with_config_file rt cfg spec
      with_error (wrapped "failed to create container") (create_dir c)
      configured ←
          with_error (wrapped "failed to configure container")
            (configure_container h uname cgroup_root rt c)
      publish has_deadline rt (clean_container configured) fuel
