-- ===== src/Cli/Commands.antt =====
-- The actions of the commands of cmd/lxcri/cli.go: create, start, state, kill, delete and exec. What the
-- JSON files decode to and what the values encode to are parameters. Each action gets the container ID
-- that was set up before. Log lines are left out.
use lxcri.Base.{
  ℕ, String, Bool, true, false, not, none, some, List, [], ◌∷◌, ◌++◌, ◌<>◌, ◌==◌, if◌then◌else◌,
  is_empty, failed, wrapped, container_not_exist, index_out_of_range, exit_status, Result, ok, err,
}
use lxcri.Base.Host.{
  Host, M, History, print, release, perform, query, return, throw, throw_if, lift, when, with_error,
  attempt, deferred, ◌>>=◌, ◌>>◌,
}
use lxcri.Base.Int.{ℤ, pos, eq_ℤ}
use lxcri.Base.FilePath.{join_path}
use lxcri.Oci.{
  Spec, SpecState, Process, cgroup_namespace, ipc_namespace, mount_namespace, network_namespace,
  pid_namespace, user_namespace, uts_namespace,
}
use lxcri.Settings.{Runtime}
use lxcri.Specki.Json.{decode_json_file}
use lxcri.Container.{Container}
use lxcri.Container.Log.{set_log}
use lxcri.Container.Status.{spec_state_of}
use lxcri.Container.Attach.{exec_process}
use lxcri.Runtime.Check.{namespaces_of}
use lxcri.Runtime.Lifecycle.{load_container, start, kill, delete_container}
use lxcri.Create.Instance.{Encoders, create}
use lxcri.Cli.Signal.{parse_signal}
use lxcri.Cli.PidFile.{create_pid_file}

abbrev pub Decoder : Type 0
Decoder = String → Result Container

-- `loadContainer`. A container whose log cannot be set is not released.
unfoldable pub app_load_container : Host → Decoder → Runtime → String → M Container
app_load_container h decode rt container_id = do
  c ← load_container h decode rt.root container_id
  set_log h rt.log_config.container_log_file rt.log_config.container_log_level
  return c

-- `doStart`
unfoldable pub do_start : Host → Decoder → Runtime → String → ℕ → M (Unit {0})
do_start h decode rt container_id fuel = do
  c ← app_load_container h decode rt container_id
  deferred release (start h c fuel)

-- `doState`
unfoldable pub do_state :
    Host → Decoder → (SpecState → Result String) → Runtime → String → M (Unit {0})
do_state h decode encode rt container_id = do
  c ← app_load_container h decode rt container_id
  deferred release (do
    state ← spec_state_of h c
    text ← with_error (wrapped "failed to marshal json") (lift (encode state))
    perform h (print text))

-- `doKill`, with the second argument of the command line
unfoldable pub do_kill :
    Host → Decoder → (String → ℤ) → String → Runtime → String → String → ℕ → M (Unit {0})
do_kill h decode signal_num cgroup_root rt container_id sig fuel = do
  let signum : ℤ = parse_signal signal_num sig
  throw_if (eq_ℤ signum (pos 0)) (failed ("invalid signal param " <> sig))
  c ← app_load_container h decode rt container_id
  deferred release (kill h cgroup_root c signum fuel)

abbrev judge_delete : Result (Unit {0}) → M (Unit {0})
judge_delete (ok u) = return tt
judge_delete (err container_not_exist) = return tt
judge_delete (err e) = throw e

-- `doDelete`: that there is no such container is no error.
unfoldable pub do_delete : Host → Decoder → String → Runtime → String → Bool → ℕ → M (Unit {0})
do_delete h decode cgroup_root rt container_id force fuel = do
  outcome ← attempt (delete_container h cgroup_root decode rt.root container_id force fuel)
  judge_delete outcome

-- The flags of `create`
pub record CreateFlags : Type 0 where
  pub bundle : String
  pub console_socket : String
  pub pid_file : String
  pub systemd_cgroup : Bool

-- The configuration that `doCreate` passes to `Create`
unfoldable pub container_config : Runtime → String → CreateFlags → Spec → Container
container_config rt container_id flags spec = record {
  spec = spec;
  container_id = container_id;
  bundle_path = flags.bundle;
  console_socket = flags.console_socket;
  monitor_cgroup_dir = "";
  cgroup_dir = "";
  systemd_cgroup = flags.systemd_cgroup;
  log_file = rt.log_config.container_log_file;
  log_level = rt.log_config.container_log_level;
  pid = 0;
  runtime_dir = "";
}

module _ (h : Host) (encode : Encoders) (uname : Result String) (cgroup_root : String)
    (rt : Runtime) (fuel : ℕ) where
  -- `doCreateInternal`, with a context that has a deadline. Only a container that was created is
  -- released.
  unfoldable pub do_create_internal : Container → String → M (Unit {0})
  do_create_internal cfg pid_file = do
    c ← create h encode uname cgroup_root true rt cfg fuel
    deferred release (when (not (pid_file == "")) (create_pid_file h pid_file c.pid))

  module _ (decode : Decoder) (decode_spec : String → Result Spec) (late : History → Bool) where
    abbrev pub clean_up : String → Result (Unit {0}) → M (Unit {0})
    clean_up container_id (ok u) = return tt
    clean_up container_id (err e) = do
      deleted ← attempt (
          delete_container (record h { is_done = late }) cgroup_root decode rt.root container_id
            true fuel)
      throw e

    -- `doCreate`. `late` tells when the new context of the clean-up is done.
    unfoldable pub do_create : String → CreateFlags → M (Unit {0})
    do_create container_id flags = do
      spec ←
          with_error (wrapped "failed to load container spec from bundle")
            (decode_json_file h decode_spec (join_path (flags.bundle ∷ "config.json" ∷ [])))
      outcome ←
          attempt (do_create_internal (container_config rt container_id flags spec) flags.pid_file)
      clean_up container_id outcome

-- The flags of `exec`
pub record ExecFlags : Type 0 where
  pub process : String
  pub pid_file : String
  pub detach : Bool
  pub cgroup : Bool
  pub ipc : Bool
  pub mnt : Bool
  pub net : Bool
  pub pid : Bool
  pub user : Bool
  pub uts : Bool

-- The namespaces that the flags ask for, in the order in which they are tested
unfoldable pub wanted_namespaces : ExecFlags → List String
wanted_namespaces f =
    (if f.cgroup then cgroup_namespace ∷ [] else [])
    ++ (if f.ipc then ipc_namespace ∷ [] else [])
    ++ (if f.mnt then mount_namespace ∷ [] else [])
    ++ (if f.net then network_namespace ∷ [] else [])
    ++ (if f.pid then pid_namespace ∷ [] else [])
    ++ (if f.user then user_namespace ∷ [] else [])
    ++ (if f.uts then uts_namespace ∷ [] else [])

-- The process of a command line
unfoldable pub process_of : List String → Process
process_of args = record {
  terminal = false;
  user = record { uid = 0; gid = 0; additional_gids = []; username = "" };
  args = args;
  env = [];
  cwd = "/";
  capabilities = none;
  rlimits = [];
  no_new_privileges = false;
  apparmor_profile = "";
  oom_score_adj = none;
}

-- `loadSpecProcess`
unfoldable pub load_spec_process :
    Host → (String → Result Process) → String → List String → M Process
load_spec_process h decode_process path args =
    if not (path == "")
    then decode_json_file h decode_process path
    else if is_empty args
    then throw (failed "spec process path and args are empty")
    else return (process_of args)

-- Behind the log line that reads the first argument, which a process file need not have
unfoldable pub exec_in : Host → Container → Process → ExecFlags → M (Unit {0})
exec_in h c p flags = do
  throw_if (is_empty p.args) index_out_of_range
  nss ← lift (namespaces_of c.spec.linux)
  opts ← exec_process h nss (some p) (wanted_namespaces flags)
  pid ← query (λ w. h.command_pid w)
  status ← query (λ w. h.command_status w)
  if flags.detach
      then when (not (flags.pid_file == "")) (create_pid_file h flags.pid_file pid)
      else throw_if (not (eq_ℤ status (pos 0))) (exit_status status)

-- `doExec`, with the arguments behind the container ID
unfoldable pub do_exec :
    Host
    → Decoder
    → (String → Result Process)
    → Runtime
    → String
    → List String
    → ExecFlags
    → M (Unit {0})
do_exec h decode decode_process rt container_id args flags = do
  p ← load_spec_process h decode_process flags.process args
  c ← app_load_container h decode rt container_id
  deferred release (exec_in h c p flags)
