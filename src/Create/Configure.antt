-- ===== src/Create/Configure.antt =====
-- `configureContainer` of create.go, composed of its steps. `uname` is the machine that uname(2) tells.
use lxcri.Base.{
  String, not, Option, none, some, List, [], ◌∷◌, ◌<>◌, is_empty, wrapped, nil_dereference, Result,
  ok, err,
}
use lxcri.Base.Host.{Host, M, mkdir_all, perform, return, lift, when, with_error, ◌>>=◌, ◌>>◌}
use lxcri.Base.Int.{ℤ, decimal_ℤ}
use lxcri.Base.FilePath.{join_path}
use lxcri.Oci.{Linux, Process, Root, Mount, SeccompProfile}
use lxcri.Settings.{Runtime, libexec}
use lxcri.Config.{set_item}
use lxcri.Container.{Container, runtime_path}
use lxcri.Container.Log.{set_log}
use lxcri.Namespaces.{configure_namespaces}
use lxcri.Seccomp.{write_seccomp_profile}
use lxcri.Specki.Devices.{allow_essential_devices}
use lxcri.Hooks.{configure_hooks}
use lxcri.Cgroup.Configure.{configure_cgroup}
use lxcri.Mounts.{sort, configure_mounts}
use lxcri.Create.{
  configure_hostname, configure_rootfs, configure_init, configure_apparmor, configure_capabilities,
  bind_mount_devices, configure_limits, configure_readonly_paths,
}
use lxcri.Create.Userns.{configure_user_namespace}

-- A pointer of the spec that is followed.
abbrev pub followed : {A : Type 0} → Option A → Result A
followed none = err nil_dereference
followed (some a) = ok a

module _ (h : Host) where
  unfoldable pub configure_oom_score : Option ℤ → M (Unit {0})
  configure_oom_score none = return tt
  configure_oom_score (some n) = set_item h "lxc.proc.oom_score_adj" (decimal_ℤ n)

  -- A profile without system calls is not written.
  unfoldable pub configure_seccomp :
      Result String → Container → Option SeccompProfile → M (Unit {0})
  configure_seccomp uname c none = return tt
  configure_seccomp uname c (some profile) = when (not (is_empty profile.syscalls)) (do
    write_seccomp_profile h uname (runtime_path c "seccomp.conf") profile
    set_item h "lxc.seccomp.profile" (runtime_path c "seccomp.conf"))

  unfoldable pub configure_sysctl : List (String × String) → M (Unit {0})
  configure_sysctl [] = return tt
  configure_sysctl ((key, val) ∷ entries) = do
    set_item h ("lxc.sysctl." <> key) val
    configure_sysctl entries

  -- The items for the init process and its privileges
  unfoldable pub configure_process :
      Result String → Runtime → Container → Process → Linux → List Mount → M (List Mount)
  configure_process uname rt c p linux mounts = do
    with_init ←
        with_error (wrapped "failed to configure init") (configure_init h rt c p linux mounts)
    configure_oom_score p.oom_score_adj
    when p.no_new_privileges (set_item h "lxc.no_new_privs" "1")
    when rt.features.apparmor
        (with_error (wrapped "failed to configure apparmor") (configure_apparmor h p))
    when rt.features.seccomp (configure_seccomp uname c linux.seccomp)
    when rt.features.capabilities
        (with_error (wrapped "failed to configure capabilities") (configure_capabilities h p))
    set_item h "lxc.autodev" "0"
    return with_init

  -- The devices, hooks and cgroup of the container; the spec takes what they leave.
  unfoldable pub configure_resources :
      String → Runtime → Container → Root → Linux → List Mount → M Container
  configure_resources cgroup_root rt c root linux mounts = do
    (devices, rules) ← lift (allow_essential_devices linux.devices linux.device_rules)
    bound ← bind_mount_devices h root.path devices mounts
    hooks ← configure_hooks h (libexec rt "lxcri-hook") rt.hooks c.spec.hooks
    with_error (wrapped "failed to configure cgroups") (
        configure_cgroup h cgroup_root rt (record c {
          spec = record c.spec {
            mounts = bound;
            hooks = some hooks;
            linux = some (record linux { devices = []; device_rules = some rules });
          };
        }))

  -- The system settings, limits and mounts, which close `configureContainer`
  unfoldable pub configure_mounted : Root → Process → Linux → Container → M Container
  configure_mounted root p linux c = do
    configure_sysctl linux.sysctl
    configure_limits h [] p.rlimits
    with_error (wrapped "failed to configure mounts") (configure_mounts h root c.spec.mounts)
    with_error (wrapped "failed to configure read-only paths") (configure_readonly_paths h linux)
    return (record c { spec = record c.spec { mounts = sort c.spec.mounts } })

  -- `configureContainer` behind the hostname and the root file system
  unfoldable pub configure_isolated :
      Result String → String → Runtime → Container → Root → Process → Linux → M Container
  configure_isolated uname cgroup_root rt c root p linux = do
    with_error (wrapped "failed to configure namespaces") (configure_namespaces h linux.namespaces)
    mounts ← configure_process uname rt c p linux c.spec.mounts
    configured ← configure_resources cgroup_root rt c root linux mounts
    configure_mounted root p linux configured

  unfoldable pub prepare_root : Container → Root → Linux → M (Unit {0})
  prepare_root c root linux = do
    configure_hostname h c.spec.hostname linux.namespaces
    with_error (wrapped "failed to configure rootfs") (configure_rootfs h c.bundle_path root linux)
    perform h (mkdir_all (join_path (root.path ∷ "run" ∷ [])) 493)
    perform h (mkdir_all (join_path (root.path ∷ ".lxcri" ∷ [])) 493)

  -- `configureContainer`
  unfoldable pub configure_container : Result String → String → Runtime → Container → M Container
  configure_container uname cgroup_root rt c = do
    with_error (wrapped "failed to configure container log") (set_log h c.log_file c.log_level)
    root ← lift (followed c.spec.root)
    p ← lift (followed c.spec.process)
    given ← lift (followed c.spec.linux)
    prepare_root c root given
    configure_isolated uname cgroup_root rt c root p
        (configure_user_namespace h rt c.spec.annotations given)
