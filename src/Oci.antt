-- ===== src/Oci.antt =====
-- The data types of github.com/opencontainers/runtime-spec/specs-go, with the fields that the source
-- reads. A pointer is an `Option`, an unsigned number is a natural number below its bound.
use lxcri.Base.{ℕ, String, Bool, Option, List, [], ◌∷◌, ◌==◌, if◌then◌else◌}
use lxcri.Base.Int.{ℤ}

-- What a map of strings holds for a key: the empty string where it has none
abbrev pub entry_of : List (String × String) → String → String
entry_of [] key = ""
entry_of ((k, v) ∷ entries) key = let rest = entry_of entries key in if k == key then v else rest

pub record IdMapping : Type 0 where
  pub container_id : ℕ  -- uint32
  pub host_id : ℕ  -- uint32
  pub size : ℕ  -- uint32

pub record Namespace : Type 0 where
  pub type : String
  pub path : String

abbrev pub pid_namespace : String
pid_namespace = "pid"

abbrev pub network_namespace : String
network_namespace = "network"

abbrev pub mount_namespace : String
mount_namespace = "mount"

abbrev pub ipc_namespace : String
ipc_namespace = "ipc"

abbrev pub uts_namespace : String
uts_namespace = "uts"

abbrev pub user_namespace : String
user_namespace = "user"

abbrev pub cgroup_namespace : String
cgroup_namespace = "cgroup"

pub record Device : Type 0 where
  pub path : String
  pub type : String
  pub major : ℤ
  pub minor : ℤ
  pub file_mode : Option ℕ
  pub uid : Option ℕ
  pub gid : Option ℕ

pub record DeviceCgroup : Type 0 where
  pub allow : Bool
  pub type : String
  pub major : Option ℤ
  pub minor : Option ℤ
  pub access : String

pub record Mount : Type 0 where
  pub destination : String
  pub type : String
  pub source : String
  pub options : List String

pub record Hook : Type 0 where
  pub path : String
  pub args : List String
  pub env : List String
  pub timeout : Option ℕ

pub record Hooks : Type 0 where
  pub prestart : List Hook
  pub create_runtime : List Hook
  pub create_container : List Hook
  pub start_container : List Hook
  pub poststart : List Hook
  pub poststop : List Hook

pub record User : Type 0 where
  pub uid : ℕ
  pub gid : ℕ
  pub additional_gids : List ℕ
  pub username : String

pub record Rlimit : Type 0 where
  pub type : String
  pub soft : ℕ
  pub hard : ℕ

pub record Process : Type 0 where
  pub terminal : Bool
  pub user : User
  pub args : List String
  pub env : List String
  pub cwd : String
  -- the permitted capabilities, where the set is given
  pub capabilities : Option (List String)
  pub rlimits : List Rlimit
  pub no_new_privileges : Bool
  pub apparmor_profile : String
  pub oom_score_adj : Option ℤ

pub record Root : Type 0 where
  pub path : String
  pub readonly : Bool

pub record SeccompArg : Type 0 where
  pub index : ℕ  -- uint
  pub value : ℕ  -- uint64
  pub op : String
  pub value_two : ℕ  -- uint64

pub record Syscall : Type 0 where
  pub names : List String
  pub action : String
  pub errno_ret : Option ℕ
  pub args : List SeccompArg

pub record SeccompProfile : Type 0 where
  pub default_action : String
  pub architectures : List String
  pub syscalls : List Syscall

pub record Linux : Type 0 where
  pub uid_mappings : List IdMapping
  pub gid_mappings : List IdMapping
  -- Resources.Devices, where Resources is given
  pub device_rules : Option (List DeviceCgroup)
  -- Resources.Pids.Limit
  pub pids_limit : Option ℤ
  pub cgroups_path : String
  pub namespaces : List Namespace
  pub devices : List Device
  pub rootfs_propagation : String
  pub masked_paths : List String
  pub readonly_paths : List String
  pub seccomp : Option SeccompProfile
  -- a map, in the order in which it is ranged over
  pub sysctl : List (String × String)

pub record Spec : Type 0 where
  pub version : String
  pub process : Option Process
  pub root : Option Root
  pub hostname : String
  pub mounts : List Mount
  pub hooks : Option Hooks
  pub annotations : List (String × String)
  pub linux : Option Linux

-- specs.ContainerState
pub data ContainerState : Type 0 where
  creating created running stopped : ContainerState

abbrev pub state_name : ContainerState → String
state_name creating = "creating"
state_name created = "created"
state_name running = "running"
state_name stopped = "stopped"

-- specs.State
pub record SpecState : Type 0 where
  pub version : String
  pub id : String
  pub status : ContainerState
  pub pid : ℕ
  pub bundle : String
  pub annotations : List (String × String)
