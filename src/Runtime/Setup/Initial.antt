-- ===== src/Runtime/Setup/Initial.antt =====
-- What `Init` has established when it succeeds, and what `ConfigureLogger` leaves alone.
use lxcri.Base.{String, ◌≡◌, true, Option, none, List, [], ◌∷◌, All, Error, Result, ok}
use lxcri.Base.Host.{Host, History, mkdir_all, load_capabilities}
use lxcri.Base.Calls.{Does}
use lxcri.Settings.{Runtime, LogConfig, libexec}
use lxcri.Cgroup.Configure.{detect_cgroup_root}
use lxcri.Runtime.Setup.{configure_logger, keep_env, is_set, root_of, with_builtin_hook}

abbrev executables : Runtime → List String
executables rt = libexec rt "lxcri-start" ∷ libexec rt "lxcri-hook" ∷ libexec rt "lxcri-init" ∷ []

-- The settings that `Init` takes from the environment, with this log configuration
abbrev with_env : Host → Runtime → LogConfig → Runtime
with_env h rt cfg = record rt {
  log_config = cfg;
  userns_configured = is_set h (h.lookup_env "_CONTAINERS_USERNS_CONFIGURED");
  env = keep_env h rt.env ("HOME" ∷ "XDG_RUNTIME_DIR" ∷ "PATH" ∷ "LISTEN_FDS" ∷ []);
}

-- The steps of `Init`, each from the history that the one before it left: the logger was configured, the
-- runtime directory was made, and the capabilities were loaded; right behind that, the programs of the
-- runtime could be executed and /proc was a procfs; then the root of the cgroups was detected, and
-- nothing followed; liblxc is recent enough; and of the settings only these have changed: the log
-- configuration, the flag and the variables that were taken from the environment, and the
-- createContainer hooks.
pub record IsInitial (h : Host) (parse_level : String → Option Error) (rt rt' : Runtime)
    (root : String) (w w' : History) : Type 0 where
  pub log_config : LogConfig
  pub before : History
  pub logs : configure_logger h parse_level rt.log_config w ≡ (ok log_config, before)
  pub tested : History
  pub makes : Does h before (mkdir_all rt.root 457 ∷ load_capabilities ∷ []) tested
  pub can_run : All (λ path. h.access tested path ≡ none) (executables rt)
  pub proc : h.statfs tested "/proc" ≡ ok 0x9fa0
  pub version : h.is_version_at_least 3 1 0 ≡ true
  pub detected : Result String
  pub detects : detect_cgroup_root h (with_env h rt log_config) tested ≡ (detected, w')
  pub has_root : root ≡ root_of h detected
  pub settings : rt' ≡ with_builtin_hook (with_env h rt log_config)
