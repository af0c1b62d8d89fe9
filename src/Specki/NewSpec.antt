-- ===== src/Specki/NewSpec.antt =====
-- `NewSpec`, `NewSpecProcess` and `BindMount` of pkg/specki/specki.go. The version of the OCI
-- specification is a constant of the package of that specification.
use lxcri.Base.{
  String, ◌≡◌, ◌≢◌, refl, false, none, some, List, [], ◌∷◌, ◌++◌, ◌==◌, ok, All, inl, inr,
  Bool-cases, eq_iff,
}
use lxcri.Base.Host.{Host, History, set_config_item, IsCompliant}
use lxcri.Oci.{
  Spec, Linux, Process, Namespace, Mount, pid_namespace, mount_namespace, ipc_namespace,
  uts_namespace, cgroup_namespace, network_namespace,
}
use lxcri.Specki.Devices.{
  essential_devices, essential_devices_allow, allow_essential_devices, is_device_enabled,
  add_missing, same_device,
}
use lxcri.Runtime.Check.{check_config, check_spec, check_root, check_process, check_namespaces}
use lxcri.Namespaces.{
  configure_namespaces, get_namespace, is_namespace_shared_with_runtime, namespace_map,
}
use lxcri.Namespaces.Configure.{IsSupported, name_of, configure_namespaces_complete}

-- `NewSpecProcess`
unfoldable pub new_spec_process : String → List String → Process
new_spec_process cmd args = record {
  terminal = false;
  user = record { uid = 0; gid = 0; additional_gids = []; username = "" };
  args = cmd ∷ args;
  env = [];
  cwd = "/";
  capabilities = none;
  rlimits = [];
  no_new_privileges = false;
  apparmor_profile = "";
  oom_score_adj = none;
}

abbrev new_namespaces : List Namespace
new_namespaces =
    record { type = pid_namespace; path = "" }
    ∷ record { type = mount_namespace; path = "" }
    ∷ record { type = ipc_namespace; path = "" }
    ∷ record { type = uts_namespace; path = "" }
    ∷ record { type = cgroup_namespace; path = "" }
    ∷ record { type = network_namespace; path = "" }
    ∷ []

-- The Linux section that `NewSpec` makes
abbrev new_linux : Linux
new_linux = record {
  uid_mappings = [];
  gid_mappings = [];
  device_rules = some essential_devices_allow;
  pids_limit = none;
  cgroups_path = "";
  namespaces = new_namespaces;
  devices = essential_devices;
  rootfs_propagation = "";
  masked_paths = [];
  readonly_paths = [];
  seccomp = none;
  sysctl = [];
}

-- `NewSpec`
unfoldable pub new_spec : String → String → String → List String → Spec
new_spec version rootfs cmd args = record {
  version = version;
  process = some (new_spec_process cmd args);
  root = some (record { path = rootfs; readonly = false });
  hostname = "";
  mounts =
      record {
        destination = "/proc";
        type = "proc";
        source = "proc";
        options = "rw" ∷ "nosuid" ∷ "nodev" ∷ "noexec" ∷ "relatime" ∷ [];
      }
      ∷ record {
        destination = "/dev";
        type = "tmpfs";
        source = "tmpfs";
        options = "rw" ∷ "nosuid" ∷ "noexec" ∷ "relatime" ∷ "dev" ∷ [];
      }
      ∷ [];
  hooks = none;
  annotations = [];
  linux = some new_linux;
}

-- `BindMount`
unfoldable pub bind_mount : String → String → List String → Mount
bind_mount src dest opts = record {
  destination = dest;
  type = "bind";
  source = src;
  options = "bind" ∷ "nosuid" ∷ "nodev" ∷ "relatime" ∷ opts;
}

not_empty : (s : String) → s ≢ "" → (s == "") ≡ false
not_empty s n = elim (Bool-cases (s == "")) [ inl e ↦ absurd (n ((eq_iff s "").0 e)) | inr e ↦ e ]

new_namespaces-IsSupported : All IsSupported new_namespaces
unfolding namespace_map
new_namespaces-IsSupported =
    ((_, refl), ((_, refl), ((_, refl), ((_, refl), ((_, refl), ((_, refl), tt))))))

private_new : (h : Host) (w : History) → check_namespaces h new_namespaces w ≡ (ok tt, w)
unfolding check_namespaces get_namespace is_namespace_shared_with_runtime
private_new h w = refl

checked_new :
    (h : Host) (version rootfs cmd id : String) (args : List String) (w : History)
    → (rootfs == "") ≡ false
    → (id == "") ≡ false
    → check_config h id (new_spec version rootfs cmd args) w
      ≡ (ok (new_spec version rootfs cmd args), w)
unfolding check_config check_spec check_root check_process new_spec new_spec_process
checked_new h version rootfs cmd id args w root_given id_given =
    rw (id_given, check_config) (rw (root_given, private_new h w) refl)

-- A spec that `NewSpec` makes for a root path is accepted by `checkConfig` under any container ID, as
-- it is and on every host; it has a Linux section, for whose namespaces `configureNamespaces` asks for
-- six new ones and shares none, on a host that refuses no item; and to whose devices and rules
-- `AllowEssentialDevices` adds no device, only its own rules a second time.
pub new_spec_complete :
    (h : Host) (version rootfs cmd id : String) (args : List String) (w : History)
    → rootfs ≢ ""
    → id ≢ ""
    → IsCompliant h
    → (check_config h id (new_spec version rootfs cmd args) w
        ≡ (ok (new_spec version rootfs cmd args), w))
      × ((linux : Linux) × ((new_spec version rootfs cmd args).linux ≡ some linux)
          × (configure_namespaces h linux.namespaces w ≡ (
            ok tt,
            w ++ (set_config_item "lxc.namespace.clone" "pid mnt ipc uts cgroup net" ∷ []),
          ))
          × (allow_essential_devices linux.devices linux.device_rules
              ≡ ok (linux.devices, essential_devices_allow ++ essential_devices_allow)))
unfolding new_spec allow_essential_devices add_missing is_device_enabled same_device
    essential_devices namespace_map name_of
new_spec_complete h version rootfs cmd id args w root_given id_given quiet = (
  checked_new h version rootfs cmd id args w (not_empty rootfs root_given) (not_empty id id_given),
  (
    new_linux,
    refl,
    configure_namespaces_complete h new_namespaces w
        (refl, (refl, (refl, (refl, (refl, (refl, tt)))))) (new_namespaces-IsSupported) quiet,
    refl,
  ),
)
