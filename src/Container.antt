-- ===== src/Container.antt =====
-- container.go: the container record, its paths, the state of its processes, and the loops that wait
-- for them.
pub mod State
pub mod Status
pub mod Wait
pub mod Waits
pub mod Attach
pub mod Log
use lxcri.Base.{ℕ, String, Bool, List, [], ◌∷◌}
use lxcri.Base.FilePath.{join_path}
use lxcri.Oci.{Spec}

-- `ContainerConfig` and `Container`, without the logger and the handle of liblxc. The spec is given: a
-- container with a nil pointer for its spec is outside of the model.
pub record Container : Type 0 where
  pub spec : Spec
  pub container_id : String
  pub bundle_path : String
  pub console_socket : String
  pub monitor_cgroup_dir : String
  pub cgroup_dir : String
  pub systemd_cgroup : Bool
  pub log_file : String
  pub log_level : String
  pub pid : ℕ  -- of the monitor process
  pub runtime_dir : String

-- `RuntimePath`, with one sub path
unfoldable pub runtime_path : Container → String → String
runtime_path c sub_path = join_path (c.runtime_dir ∷ join_path (sub_path ∷ []) ∷ [])

-- `ConfigFilePath`
unfoldable pub config_file_path : Container → String
unfolding runtime_path
config_file_path c = runtime_path c "config"

-- `syncFifoPath`
unfoldable pub sync_fifo_path : Container → String
unfolding runtime_path
sync_fifo_path c = runtime_path c "syncfifo"
