-- ===== src/Settings.antt =====
-- `Runtime` of runtime.go with its features: the fields that the operations read.
use lxcri.Base.{ℕ, Option, List, String, Bool, false, [], ◌∷◌, eqb, if◌then◌else◌}
use lxcri.Base.Host.{Host}
use lxcri.Base.FilePath.{join_path}
use lxcri.Oci.{Hooks}

-- `RuntimeFeatures`
pub record RuntimeFeatures : Type 0 where
  pub seccomp : Bool
  pub capabilities : Bool
  pub apparmor : Bool
  pub cgroup_devices : Bool

-- `LogConfig`; the open log file by its name
pub record LogConfig : Type 0 where
  pub file : Option String
  pub log_file : String
  pub log_level : String
  pub timestamp : String
  pub log_console : Bool
  pub log_context : List (String × String)
  pub container_log_level : String
  pub container_log_file : String

-- `Timeouts`, in seconds
pub record Timeouts : Type 0 where
  pub create_timeout : ℕ
  pub start_timeout : ℕ
  pub kill_timeout : ℕ
  pub delete_timeout : ℕ

-- `Runtime`, without the logger and the capabilities, which no operation reads
pub record Runtime : Type 0 where
  pub root : String
  pub monitor_cgroup : String
  pub payload_cgroup : String
  pub libexec_dir : String
  pub features : RuntimeFeatures
  pub hooks : Hooks
  pub env : List String  -- of the monitor process
  pub userns_configured : Bool
  pub log_config : LogConfig
  pub timeouts : Timeouts
  pub config_path : String
  pub backup_config_dir : String

-- `libexec`
unfoldable pub libexec : Runtime → String → String
libexec rt name = join_path (rt.libexec_dir ∷ name ∷ [])

-- `isPrivileged`
unfoldable pub is_privileged : Host → Runtime → Bool
is_privileged h rt = if rt.userns_configured then false else eqb h.uid 0
