-- ===== src/Examples.antt =====
-- A host, a container and a runtime to run the model on, and the examples that do.
mod Cgroups
mod Lifecycle
mod Specs
mod Processes
mod Creation
mod Commands
mod Endings
mod Minimal
use lxcri.Base.{
  ℕ, String, Bool, true, false, Option, none, some, List, [], ◌∷◌, ◌==◌, if◌then◌else◌, Error,
  Errno, failed, Result, ok, err, ◌≡◌, refl,
}
use lxcri.Base.Host.{Host, LxcState, WaitResult, IsCompliant, FileInfo}
use lxcri.Base.Int.{pos}
use lxcri.Oci.{Spec, Linux, Hooks, Process, Root, User, Namespace}
use lxcri.Container.{Container}
use lxcri.Container.State.{init_cmdline}
use lxcri.Settings.{Runtime}

-- A container that waits in lxcri-init. Every call is accepted.
abbrev pub sample : Host
sample = record {
  reply = λ w c. none;
  uid = 0;
  stat = λ w path.
      ok (record { dev = 4; ino = if path == "/proc/self/ns/mnt" then 1 else 2; is_dir = true });
  is_symlink = λ w path. ok false;
  statfs = λ w path. ok 0x63677270;
  read_link = λ w path. err (Error.errno Errno.enoent);
  read_file = λ w path. ok (
      if path == "/proc/42/cmdline"
      then init_cmdline
      else if path == "/sys/fs/cgroup/lxcri.slice/c1.scope/cgroup.events"
      then "populated 0\nfrozen 1\n"
      else "7\n42\n");
  read_dir = λ w path. ok [];
  config_item = λ w key. [];
  can_check_items = true;
  supports_item = λ key. true;
  lxc_state = λ w. LxcState.running;
  init_pid = λ w. 42;
  wait4 = λ w pid. WaitResult.alive;
  probe = λ w pid. none;
  walk = λ w path. ("/sys/fs/cgroup/lxcri.slice/c1.scope/cgroup.procs", ok "cgroup.procs") ∷ [];
  started_pid = λ w. 7;
  command_pid = λ w. 43;
  command_status = λ w. pos 0;
  lookup_env = λ key. none;
  access = λ w path. none;
  is_version_at_least = λ major minor micro. true;
  is_done = λ w. false;
}

pub sample-IsCompliant : IsCompliant sample
sample-IsCompliant w c = refl

-- The same host behind the end of the container.
abbrev pub ended : Host
ended = record sample { lxc_state = λ w. LxcState.stopped; wait4 = λ w pid. WaitResult.reaped }

ended-IsCompliant : IsCompliant ended
ended-IsCompliant w c = refl

abbrev pub no_hooks : Hooks
no_hooks = record {
  prestart = [];
  create_runtime = [];
  create_container = [];
  start_container = [];
  poststart = [];
  poststop = [];
}

abbrev pub some_process : Process
some_process = record {
  terminal = false;
  user = record { uid = 0; gid = 0; additional_gids = []; username = "" };
  args = "/bin/true" ∷ [];
  env = "PATH=/bin" ∷ [];
  cwd = "/";
  capabilities = none;
  rlimits = [];
  no_new_privileges = false;
  apparmor_profile = "";
  oom_score_adj = none;
}

abbrev pub some_linux : List Namespace → Linux
some_linux nss = record {
  uid_mappings = [];
  gid_mappings = [];
  device_rules = some [];
  pids_limit = none;
  cgroups_path = "";
  namespaces = nss;
  devices = [];
  rootfs_propagation = "";
  masked_paths = [];
  readonly_paths = [];
  seccomp = none;
  sysctl = [];
}

abbrev pub some_spec : List Namespace → Spec
some_spec nss = record {
  version = "1.0.2";
  process = some some_process;
  root = some (record { path = "/rootfs"; readonly = false });
  hostname = "";
  mounts = [];
  hooks = none;
  annotations = [];
  linux = some (some_linux nss);
}

abbrev pub some_container : Container
some_container = record {
  spec = some_spec [];
  container_id = "c1";
  bundle_path = "/bundle";
  console_socket = "";
  monitor_cgroup_dir = "";
  cgroup_dir = "lxcri.slice/c1.scope";
  systemd_cgroup = false;
  log_file = "/dev/stderr";
  log_level = "info";
  pid = 7;
  runtime_dir = "/run/lxcri/c1";
}

abbrev pub some_runtime : Runtime
some_runtime = record {
  root = "/run/lxcri";
  monitor_cgroup = "lxcri-monitor.slice";
  payload_cgroup = "lxcri.slice";
  libexec_dir = "/usr/libexec/lxcri";
  features = record { seccomp = true; capabilities = true; apparmor = true; cgroup_devices = true };
  hooks = no_hooks;
  env = [];
  userns_configured = false;
  log_config = record {
    file = none;
    log_file = "/var/log/lxcri/lxcri.log";
    log_level = "info";
    timestamp = "";
    log_console = false;
    log_context = [];
    container_log_level = "warn";
    container_log_file = "/var/log/lxcri/lxcri.log";
  };
  timeouts = record {
    create_timeout = 60;
    start_timeout = 30;
    kill_timeout = 10;
    delete_timeout = 10;
  };
  config_path = "";
  backup_config_dir = "";
}
