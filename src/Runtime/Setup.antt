-- ===== src/Runtime/Setup.antt =====
-- The set-up of the runtime in runtime.go: `NewRuntime`, `LoadConfig`, `ConfigureLogger`, `Init`, `keepEnv`
-- and `Release`, with `canExecute` of utils.go and `OpenFile` of pkg/log/log.go. The parsers of log levels
-- and of YAML are parameters.
pub mod Config
pub mod Initial
use lxcri.Base.{
  ℕ, String, Bool, true, false, not, ◌||◌, Option, none, some, List, [], ◌∷◌, ◌++◌, ◌<>◌, ◌==◌,
  decimal, if◌then◌else◌, Error, failed, wrapped, Result, ok, err, is_ok, is_not_exist,
}
use lxcri.Base.Host.{
  Host, M, History, FileInfo, mkdir_all, open_append, close_file, load_capabilities, perform, query,
  query_result, record_call, return, throw, throw_if, lift, when, with_error, attempt, ◌>>=◌, ◌>>◌,
}
use lxcri.Base.FilePath.{join_path, dir}
use lxcri.Oci.{Hook, Hooks}
use lxcri.Settings.{LogConfig, Runtime, libexec}
use lxcri.Cgroup.Configure.{is_filesystem, detect_cgroup_root}

-- `DefaultRuntime`
unfoldable default_runtime : Runtime
default_runtime = record {
  root = "/run/lxcri";
  monitor_cgroup = "lxcri-monitor.slice";
  payload_cgroup = "lxcri.slice";
  libexec_dir = "/usr/libexec/lxcri";
  features = record { seccomp = true; capabilities = true; apparmor = true; cgroup_devices = true };
  hooks = record {
    prestart = [];
    create_runtime = [];
    create_container = [];
    start_container = [];
    poststart = [];
    poststop = [];
  };
  env = [];
  userns_configured = false;
  log_config = record {
    file = none;
    log_file = "/var/log/lxcri/lxcri.log";
    log_level = "info";
    timestamp = "";
    log_console = false;
    log_context = [];
    container_log_level = "warn";
    container_log_file = "/var/log/lxcri/lxcri.log";
  };
  timeouts = record {
    create_timeout = 60;
    start_timeout = 30;
    kill_timeout = 10;
    delete_timeout = 10;
  };
  config_path = "";
  backup_config_dir = "";
}

-- `NewRuntime`
unfoldable pub new_runtime : Host → Bool → Runtime
unfolding default_runtime
new_runtime h false = default_runtime
new_runtime h true =
    let user_base = "/var/tmp/lxcri/user/" <> decimal h.uid in
    let log = join_path (user_base ∷ "lxcri.log" ∷ []) in
    record default_runtime {
      root = join_path (user_base ∷ "run" ∷ []);
      log_config = record default_runtime.log_config { log_file = log; container_log_file = log };
    }

-- The hooks that `Init` sets
unfoldable pub with_builtin_hook : Runtime → Runtime
with_builtin_hook rt = record rt {
  hooks = record rt.hooks {
    create_container =
        record { path = libexec rt "lxcri-hook-builtin"; args = []; env = []; timeout = none } ∷ [];
  };
}

module _ (h : Host) where
  -- The value of an environment variable that is set and not empty
  unfoldable pub lookup_given : String → String
  lookup_given key = elim (h.lookup_env key) [ some val ↦ val | none ↦ "" ]

  -- What stat(2) says of a file that may be missing: its path, or none; other errors end the function.
  abbrev pub judge_optional : String → Result FileInfo → Result String
  judge_optional path (ok info) = ok path
  judge_optional path (err e) = if is_not_exist e then ok "" else err e

  unfoldable pub optional_file : String → M String
  optional_file path = query_result (λ w. judge_optional path (h.stat w path))

  -- The path of the configuration file: the four steps of `LoadConfig`, each of which looks whether one
  -- of those before it has found one
  unfoldable pub find_given : String → M String
  find_given config_path = do
    let given : String = if config_path == "" then lookup_given "LXCRI_CONFIG" else config_path
    if given == "" then return "" else (do info ← query_result (λ w. h.stat w given); return given)

  unfoldable pub find_user : String → M String
  find_user found =
      if not (found == "")
      then return found
      else if lookup_given "HOME" == ""
      then return ""
      else optional_file (join_path (lookup_given "HOME" ∷ ".config/lxcri.yaml" ∷ []))

  unfoldable pub find_system : String → M String
  find_system found =
      if not (found == "") then return found else optional_file "/etc/lxcri/lxcri.yaml"

  unfoldable pub find_config : String → M String
  find_config config_path = do
    given ← find_given config_path
    user ← find_user given
    find_system user

  -- `LoadConfig`; `decode` is what the YAML library makes of a text, on top of the values of a runtime.
  unfoldable pub load_config_file :
      (String → Runtime → Result Runtime) → Runtime → String → M Runtime
  load_config_file decode rt config_path = do
    path ← find_config config_path
    let located : Runtime = record rt { config_path = path }
    if path == "" then return located else (do
      text ← query_result (λ w. h.read_file w path)
      with_error (wrapped ("failed to load config file " <> path)) (lift (decode text located)))

  -- `OpenFile` of pkg/log/log.go
  unfoldable pub open_log : String → ℕ → M (Unit {0})
  open_log name mode = do
    with_error (wrapped ("failed to create log file directory " <> dir name))
        (perform h (mkdir_all (dir name) 488))
    perform h (open_append name mode)

  -- The log file that was open before is closed at last.
  abbrev close_old : Option String → M (Unit {0})
  close_old none = return tt
  close_old (some name) = record_call (close_file name)

  -- The log configuration that `ConfigureLogger` leaves
  unfoldable pub open_logger : LogConfig → M LogConfig
  open_logger cfg =
      if cfg.log_console then return (record cfg { container_log_file = "/dev/stderr" }) else (do
        perform h (mkdir_all (dir cfg.log_file) 488)
        with_error (wrapped ("failed to open log file " <> cfg.log_file))
            (open_log cfg.log_file 384)
        return (record cfg { file = some cfg.log_file }))

  -- `ConfigureLogger`
  unfoldable pub configure_logger : (String → Option Error) → LogConfig → M LogConfig
  configure_logger parse_level cfg = do
    with_error (wrapped "failed to parse log level")
        (lift (elim (parse_level cfg.log_level) [ none ↦ ok tt | some e ↦ err e ]))
    opened ← open_logger cfg
    close_old cfg.file
    return opened

  -- `Release` of the runtime
  unfoldable pub release_runtime : Runtime → M (Unit {0})
  release_runtime rt = elim rt.log_config.file [
    | none ↦ return tt
    | some name ↦ perform h (close_file name)
  ]

  -- `keepEnv`
  unfoldable pub keep_env : List String → List String → List String
  keep_env env [] = env
  keep_env env (name ∷ names) =
      keep_env
        (elim (h.lookup_env name) [ some val ↦ env ++ (name <> "=" <> val) ∷ [] | none ↦ env ])
        names

  -- `canExecute`
  unfoldable pub can_execute : List String → M (Unit {0})
  can_execute [] = return tt
  can_execute (cmd ∷ cmds) = do
    with_error (wrapped ("can not execute " <> cmd))
        (query_result (λ w. elim (h.access w cmd) [ none ↦ ok tt | some e ↦ err e ]))
    can_execute cmds

  abbrev pub is_set : Option String → Bool
  is_set none = false
  is_set (some val) = true

  -- The root of the cgroups that `Init` finds; an error of it is only logged, and leaves the root
  -- empty.
  abbrev pub root_of : Result String → String
  root_of (ok root) = root
  root_of (err e) = ""

  -- `Init`: the runtime with the root of the cgroups, a global variable
  unfoldable pub init : (String → Option Error) → Runtime → M (Runtime × String)
  init parse_level rt = do
    log_config ← configure_logger parse_level rt.log_config
    with_error (wrapped ("failed to create rootfs " <> rt.root)) (perform h (mkdir_all rt.root 457))
    let found : Runtime = record rt {
      log_config = log_config;
      userns_configured = is_set (h.lookup_env "_CONTAINERS_USERNS_CONFIGURED");
      env = keep_env rt.env ("HOME" ∷ "XDG_RUNTIME_DIR" ∷ "PATH" ∷ "LISTEN_FDS" ∷ []);
    }
    with_error (wrapped "failed to load process capabilities") (perform h load_capabilities)
    with_error (wrapped "access check failed") (
        can_execute
          (libexec rt "lxcri-start" ∷ libexec rt "lxcri-hook" ∷ libexec rt "lxcri-init" ∷ []))
    with_error (wrapped "procfs not mounted on /proc") (is_filesystem h "/proc" "proc")
    detected ← attempt (detect_cgroup_root h found)
    throw_if (not (h.is_version_at_least 3 1 0))
        (failed "liblxc runtime version is too old, but >= 3.1.0 is required")
    return (with_builtin_hook found, root_of detected)
