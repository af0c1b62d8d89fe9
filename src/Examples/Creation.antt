-- ===== src/Examples/Creation.antt =====
-- Runs of `configureContainer` and of its removal of user namespaces.
use lxcri.Base.{
  is_ok, true, false, Error, Errno, if◌then◌else◌, decimal, digits_from, digit, String, ◌≡◌, refl,
  [], ◌∷◌, some, Result, ok, err,
}
use lxcri.Base.Host.{Host}
use lxcri.Base.FilePath.{join_path, clean}
use lxcri.Oci.{Linux, Root, Namespace}
use lxcri.Config.{set_item, get_item, supports_items}
use lxcri.Container.{Container}
use lxcri.Container.Log.{set_log}
use lxcri.Namespaces.{configure_namespaces, configure_from, namespace_map, is_namespace_enabled}
use lxcri.Specki.Devices.{
  allow_essential_devices, add_missing, is_device_enabled, same_device, essential_devices,
  essential_devices_allow,
}
use lxcri.Hooks.{configure_hooks, register_hooks, merge_hooks}
use lxcri.Cgroup.Events.{check_cgroup, parse_cgroup_events, events_of, read_lines}
use lxcri.Cgroup.Devices.{configure_devices, configure_device}
use lxcri.Cgroup.Configure.{
  configure_cgroup, configure_cgroup_path, container_cgroup, split_cgroups,
}
use lxcri.Mounts.{
  sort, less, configure_mounts, configure_mount_list, configure_mount, resolve_mount_destination,
  resolve_entries, resolve_path_relative, create_mount_destination, as_cgroup2,
}
use lxcri.Create.{
  configure_hostname, configure_rootfs, configure_limits, readonly_entries,
  configure_readonly_paths, configure_apparmor, configure_capabilities, create_fifo,
  configure_idmaps, configure_init_user, configure_init, bind_mount_devices,
}
use lxcri.Create.Userns.{configure_user_namespace}
use lxcri.Create.Configure.{
  configure_container, prepare_root, configure_isolated, configure_mounted, configure_process,
  configure_resources, configure_oom_score, configure_seccomp, configure_sysctl,
}
use lxcri.Create.Sound.{IsConfigured, configure_container_sound}
use lxcri.Base.Poll.{poll}
use lxcri.Settings.{libexec}
use lxcri.Oci.{Spec}
use lxcri.Container.{runtime_path, config_file_path}
use lxcri.Container.State.{container_state, state, get_container_init_state, cmdline_path}
use lxcri.Container.Status.{spec_state_of}
use lxcri.Container.Wait.{wait_created, look_created, is_monitor_running}
use lxcri.Namespaces.{is_namespace_shared_with_runtime, get_namespace}
use lxcri.Runtime.Check.{check_config, check_spec, check_root, check_process, check_namespaces}
use lxcri.Runtime.Lifecycle.{delete_container}
use lxcri.Specki.Env.{cleanenv}
use lxcri.Specki.Json.{decode_json_file, close_decoded, encode_json_file, write_encoded}
use lxcri.Create.Instance.{
  Encoders, set_annotation, with_config_file, clean_process, clean_container, create_dir,
  monitor_command, start_cmd, backup_config, backup_spec, launch, run_start_cmd, publish, create,
}
use lxcri.Create.Created.{IsCreated, create_sound}
use lxcri.Cli.Commands.{Decoder, CreateFlags, container_config, do_create_internal, do_create}
use lxcri.Cli.Created.{do_create_outcome}
use lxcri.Examples.{sample, some_container, some_spec, some_runtime}

abbrev creating : Host
creating = record sample { config_item = λ w key. "/rootfs" ∷ [] }

abbrev own : String → Namespace
own type = record { type = type; path = "" }

abbrev given : Container
given = record some_container { spec = some_spec (own "pid" ∷ own "mount" ∷ []) }

abbrev of_ok : Container → Result Container → Container
of_ok c (ok c') = c'
of_ok c (err e) = c

configure_container_sound_example :
    let r = configure_container creating (ok "x86_64") "/sys/fs/cgroup" some_runtime given [] in
    (root : Root) × (linux : Linux) × (given.spec.root ≡ some root)
    × (given.spec.linux ≡ some linux)
    × IsConfigured creating
        (ok "x86_64")
        "/sys/fs/cgroup"
        some_runtime
        given
        (of_ok given r.0)
        root
        linux
        []
        r.1
unfolding configure_container prepare_root configure_isolated configure_mounted configure_process
    configure_resources configure_oom_score configure_seccomp configure_sysctl
    configure_user_namespace configure_hostname configure_rootfs configure_limits readonly_entries
    configure_readonly_paths configure_apparmor configure_capabilities create_fifo configure_idmaps
    configure_init_user configure_init bind_mount_devices sort less configure_mounts
    configure_mount_list configure_mount resolve_mount_destination resolve_entries
    resolve_path_relative create_mount_destination as_cgroup2 configure_cgroup configure_cgroup_path
    container_cgroup split_cgroups configure_devices configure_device check_cgroup
    parse_cgroup_events events_of read_lines configure_hooks register_hooks merge_hooks
    allow_essential_devices add_missing is_device_enabled same_device essential_devices
    essential_devices_allow configure_namespaces configure_from namespace_map is_namespace_enabled
    set_log set_item get_item supports_items join_path clean
configure_container_sound_example =
    let r = configure_container creating (ok "x86_64") "/sys/fs/cgroup" some_runtime given [] in
    configure_container_sound creating (ok "x86_64") "/sys/fs/cgroup" some_runtime given
      (of_ok given r.0) [] r.1 refl

abbrev encoders : Encoders
encoders = record {
  of_spec = λ spec. ok "{}";
  of_hooks = λ hooks. ok "{}";
  of_state = λ state. ok "{}";
  of_container = λ c. ok "{}";
}

create_sound_example :
    let r = create creating encoders (ok "x86_64") "/sys/fs/cgroup" true some_runtime given 1 [] in
    IsCreated creating encoders
      (ok "x86_64")
      "/sys/fs/cgroup"
      true
      some_runtime
      given
      (of_ok given r.0)
      1
      []
      r.1
unfolding create run_start_cmd launch publish create_dir start_cmd backup_spec backup_config
    monitor_command clean_container clean_process with_config_file set_annotation cleanenv
    spec_state_of encode_json_file write_encoded check_config check_spec check_root check_process
    check_namespaces is_namespace_shared_with_runtime get_namespace wait_created look_created poll
    is_monitor_running container_state state get_container_init_state cmdline_path runtime_path
    config_file_path libexec decimal digits_from digit configure_container prepare_root
    configure_isolated configure_mounted configure_process configure_resources configure_oom_score
    configure_seccomp configure_sysctl configure_user_namespace configure_hostname configure_rootfs
    configure_limits readonly_entries configure_readonly_paths configure_apparmor
    configure_capabilities create_fifo configure_idmaps configure_init_user configure_init
    bind_mount_devices sort less configure_mounts configure_mount_list configure_mount
    resolve_mount_destination resolve_entries resolve_path_relative create_mount_destination
    as_cgroup2 configure_cgroup configure_cgroup_path container_cgroup split_cgroups
    configure_devices configure_device check_cgroup parse_cgroup_events events_of read_lines
    configure_hooks register_hooks merge_hooks allow_essential_devices add_missing is_device_enabled
    same_device essential_devices essential_devices_allow configure_namespaces configure_from
    namespace_map is_namespace_enabled set_log set_item get_item supports_items join_path clean
create_sound_example =
    let r = create creating encoders (ok "x86_64") "/sys/fs/cgroup" true some_runtime given 1 [] in
    create_sound creating encoders true some_runtime (ok "x86_64") "/sys/fs/cgroup" given
      (of_ok given r.0) 1 [] r.1 refl

abbrev flags : CreateFlags
flags = record {
  bundle = "/bundle";
  console_socket = "";
  pid_file = "/run/c1.pid";
  systemd_cgroup = false;
}

abbrev of_json : String → Result Spec
of_json text = ok given.spec

abbrev unloadable : Decoder
unloadable text = err (Error.errno Errno.enoent)

do_create_outcome_example :
    let u = (decode_json_file creating of_json "/bundle/config.json" []).1 in
    let r =
      do_create_internal creating encoders
        (ok "x86_64")
        "/sys/fs/cgroup"
        some_runtime
        1
        (container_config some_runtime "c1" flags given.spec)
        "/run/c1.pid"
        u in
    do_create creating encoders
      (ok "x86_64")
      "/sys/fs/cgroup"
      some_runtime
      1
      unloadable
      of_json
      (λ w. false)
      "c1"
      flags
      []
    ≡ (
      r.0,
      (if is_ok r.0
          then r.1
          else (delete_container creating "/sys/fs/cgroup" unloadable "/run/lxcri" "c1" true 1
              r.1).1),
    )
unfolding decode_json_file close_decoded join_path clean
do_create_outcome_example =
    do_create_outcome creating encoders (ok "x86_64") "/sys/fs/cgroup" some_runtime 1 unloadable
      of_json (λ w. false) "c1" flags given.spec [] _ refl
