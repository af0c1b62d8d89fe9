-- ===== src/Examples/Specs.antt =====
-- Runs of the checks and of the translation of a spec.
use lxcri.Base.{
  ℕ, String, ◌≡◌, refl, Bool, true, false, List, [], ◌∷◌, ◌++◌, none, some, Result, ok, arith, ◌==◌,
  ◌<>◌, if◌then◌else◌, All, length, repeat, map,
}
use lxcri.Base.Host.{Host, History, set_config_item}
use lxcri.Base.FilePath.{join_path, clean}
use lxcri.Oci.{Device, Spec, Namespace, Hook, Hooks, IdMapping, Mount, Root, Rlimit, SeccompProfile}
use lxcri.Runtime.Check.{check_config, check_spec, check_root, check_process, check_namespaces}
use lxcri.Runtime.Check.Sound.{IsChecked, check_config_sound}
use lxcri.Runtime.Check.Gap.{check_config_accepts_runtime_mount}
use lxcri.Namespaces.{
  configure_namespaces, configure_from, namespace_map, get_namespace,
  is_namespace_shared_with_runtime,
}
use lxcri.Namespaces.Configure.{
  Distinct, IsSupported, shared_calls, clone_call, cloned, configure_namespaces_sound,
}
use lxcri.Config.{set_item}
use lxcri.Hooks.{run_hooks, merge_hooks, configure_hooks}
use lxcri.Hooks.Run.{Verdict, run_hooks_stop}
use lxcri.Hooks.Program.{hooks_path, hook_main, start_hook_fails}
use lxcri.Hooks.Environment.{env_of}
use lxcri.Specki.Json.{decode_json_file, close_decoded}
use lxcri.Base.Int.{pos}
use lxcri.Specki.IdMap.{
  unmap_container_id, first_image, unmap_container_id-first_image, unmap_container_id_overflow,
}
use lxcri.Specki.Env.{getenv, setenv, cleanenv}
use lxcri.Specki.Env.Laws.{or_else, getenv-setenv}
use lxcri.Specki.Env.Clean.{Unique, last_value, cleanenv-Unique, getenv-cleanenv}
use lxcri.Specki.Devices.{
  essential_devices, essential_devices_allow, is_device_enabled, same_device, add_missing,
  rules_or_none, allow_essential_devices,
}
use lxcri.Specki.Devices.Essential.{
  HasDevice, essential_nodes, allowed_node, allowed_numbers, allow_essential_devices_sound,
}
use lxcri.Seccomp.{lists_native, seccomp_archs, arch_name, seccomp_archs_lem}
use lxcri.Mounts.{
  sort, less, configure_mounts, configure_mount_list, configure_mount, resolve_mount_destination,
  resolve_entries, resolve_path_relative, create_mount_destination, as_cgroup2,
}
use lxcri.Mounts.Resolved.{ParentsFirst, count, sort-ParentsFirst}
use lxcri.Mounts.Entries.{Mounted, configure_mounts_sound}
use lxcri.Examples.{sample, some_spec, some_linux, some_process, no_hooks}

abbrev own : String → Namespace
own type = record { type = type; path = "" }

abbrev shared : String → String → Namespace
shared type path = record { type = type; path = path }

check_config_sound_example :
    let r = check_config sample "c1" (some_spec (own "mount" ∷ own "pid" ∷ [])) [] in
    IsChecked sample [] "c1"
      (some_spec (own "mount" ∷ own "pid" ∷ []))
      (some_spec (own "mount" ∷ own "pid" ∷ []))
    × (r.1 ≡ [])
unfolding check_config check_spec check_root check_process check_namespaces get_namespace
    is_namespace_shared_with_runtime
check_config_sound_example =
    check_config_sound sample "c1" (some_spec (own "mount" ∷ own "pid" ∷ []))
      (some_spec (own "mount" ∷ own "pid" ∷ [])) [] [] refl

check_config_accepts_runtime_mount_example :
    (spec' : Spec) × (check_config sample "c1"
        (some_spec (shared "mount" "/proc/self/ns/mnt" ∷ own "pid" ∷ []))
        []
      ≡ (ok spec', []))
unfolding get_namespace
check_config_accepts_runtime_mount_example =
    check_config_accepts_runtime_mount sample [] "c1"
      (some_spec (shared "mount" "/proc/self/ns/mnt" ∷ own "pid" ∷ []))
      (shared "mount" "/proc/self/ns/mnt") (record { dev = 4; ino = 1; is_dir = true })
      (record { dev = 4; ino = 2; is_dir = true })
      (record {
        has_id = λ e. cc;
        root = record { path = "/rootfs"; readonly = false };
        root_given = refl;
        root_path = λ e. cc;
        process = some_process;
        process_given = refl;
        has_args = refl;
        linux = some_linux (shared "mount" "/proc/self/ns/mnt" ∷ own "pid" ∷ []);
        linux_given = refl;
        mount_given = refl;
        pid_ns = own "pid";
        pid_given = refl;
        pid_new = refl;
      })
      refl refl refl (λ e. omega (arith, e))

abbrev two_namespaces : List Namespace
two_namespaces = shared "network" "/run/netns/x" ∷ own "pid" ∷ []

configure_namespaces_sound_example :
    Distinct [] two_namespaces
    × All IsSupported two_namespaces
    × ((configure_namespaces sample two_namespaces []).1
        ≡ [] ++ (shared_calls two_namespaces ++ (clone_call (cloned two_namespaces) ∷ [])))
unfolding configure_namespaces configure_from namespace_map set_item
configure_namespaces_sound_example =
    configure_namespaces_sound sample two_namespaces []
      (configure_namespaces sample two_namespaces []).1 refl

abbrev hook : String → Hook
hook path = record { path = path; args = []; env = []; timeout = none }

run_hooks_stop_example :
    Verdict sample
      (hook "/a" ∷ hook "/b" ∷ [])
      []
      (run_hooks sample false (hook "/a" ∷ hook "/b" ∷ []) [])
run_hooks_stop_example = run_hooks_stop sample (hook "/a" ∷ hook "/b" ∷ []) []

abbrev start_hooks : Hooks
start_hooks = record no_hooks { start_container = hook "/start" ∷ []; prestart = hook "/pre" ∷ [] }

abbrev start_hook_host : Host
start_hook_host = record sample { lookup_env = λ key. some "start" }

abbrev decode_hooks : String → Result Hooks
decode_hooks text = ok (merge_hooks no_hooks (some start_hooks))

abbrev decode_state : String → Result (Unit {0})
decode_state text = ok tt

start_hook_fails_example :
    let v =
      (decode_json_file start_hook_host decode_hooks
        (hooks_path (env_of start_hook_host "start"))
        []).1 in
    ((before : History) × ((configure_hooks start_hook_host "/lxcri-hook" no_hooks
          (some start_hooks)
          []).1
        ≡ before ++ (set_config_item "lxc.hook.start" "/lxcri-hook" ∷ [])))
    × (hook_main start_hook_host decode_hooks decode_state [] ≡ (ok (pos 3), v))
unfolding merge_hooks decode_json_file close_decoded
start_hook_fails_example =
    start_hook_fails start_hook_host "/lxcri-hook" no_hooks (some start_hooks) decode_hooks
      decode_state [] [] _ (λ w c. refl) refl refl refl

abbrev mapping : ℕ → ℕ → ℕ → IdMapping
mapping container host size = record { container_id = container; host_id = host; size = size }

unmap_container_id-first_image_example :
    unmap_container_id 3 (mapping 0 100000 2 ∷ mapping 2 200000 10 ∷ [])
    ≡ first_image 3 (mapping 0 100000 2 ∷ mapping 2 200000 10 ∷ [])
unmap_container_id-first_image_example =
    unmap_container_id-first_image 3 (mapping 0 100000 2 ∷ mapping 2 200000 10 ∷ []) (omega arith) (
      record { container_fits = omega arith; host_fits = omega arith },
      (record { container_fits = omega arith; host_fits = omega arith }, tt),
    )

unmap_container_id_overflow_example :
    unmap_container_id 4294967295 (mapping 4294967290 0 100 ∷ []) ≡ unmap_container_id 4294967295 []
unmap_container_id_overflow_example =
    unmap_container_id_overflow 4294967295 (mapping 4294967290 0 100) [] (omega arith) (omega arith)
      (omega arith)

getenv-setenv_example : getenv (setenv ("A=1" ∷ "B=2" ∷ []) ("A" <> "=" <> "3") true).0 "A" ≡ (
    if "A" == "A"
    then if true then some "3" else or_else (getenv ("A=1" ∷ "B=2" ∷ []) "A") (some "3")
    else getenv ("A=1" ∷ "B=2" ∷ []) "A")
getenv-setenv_example = getenv-setenv ("A=1" ∷ "B=2" ∷ []) "A" "3" "A" true refl refl

cleanenv-Unique_example : Unique (cleanenv ("A=1" ∷ "A=2" ∷ []) true)
cleanenv-Unique_example =
    cleanenv-Unique ("A=1" ∷ "A=2" ∷ []) true (("A", "1", refl, refl), (("A", "2", refl, refl), tt))

getenv-cleanenv_example :
    (getenv (cleanenv ("A=1" ∷ "A=2" ∷ []) true) "A" ≡ last_value ("A=1" ∷ "A=2" ∷ []) "A")
    × (getenv (cleanenv ("A=1" ∷ "A=2" ∷ []) false) "A" ≡ getenv ("A=1" ∷ "A=2" ∷ []) "A")
getenv-cleanenv_example =
    getenv-cleanenv ("A=1" ∷ "A=2" ∷ []) "A" (("A", "1", refl, refl), (("A", "2", refl, refl), tt))
      refl

allow_essential_devices_sound_example :
    ((extra : List Device) × ([] ++ essential_devices ≡ [] ++ extra))
    × All (HasDevice ([] ++ essential_devices)) essential_nodes
    × (essential_devices_allow ≡ rules_or_none none ++ map allowed_node allowed_numbers)
unfolding allow_essential_devices add_missing is_device_enabled essential_devices same_device
allow_essential_devices_sound_example =
    allow_essential_devices_sound [] ([] ++ essential_devices) none essential_devices_allow refl

abbrev foreign : SeccompProfile
foreign = record {
  default_action = "SCMP_ACT_ERRNO";
  architectures = "SCMP_ARCH_ARM" ∷ [];
  syscalls = [];
}

seccomp_archs_lem_example :
    (lists_native "x86_64" ("SCMP_ARCH_ARM" ∷ []) ≡ true
      → seccomp_archs (ok "x86_64") foreign ≡ ok ("x86_64" ∷ []))
    × (lists_native "x86_64" ("SCMP_ARCH_ARM" ∷ []) ≡ false
        → seccomp_archs (ok "x86_64") foreign
          ≡ ok (repeat (length foreign.architectures) "" ++ map arch_name foreign.architectures))
seccomp_archs_lem_example = seccomp_archs_lem "x86_64" "SCMP_ARCH_ARM" [] foreign refl

abbrev tmpfs : String → Mount
tmpfs destination = record {
  destination = destination;
  type = "tmpfs";
  source = "tmpfs";
  options = [];
}

abbrev rootfs : Root
rootfs = record { path = "/rootfs"; readonly = false }

sort-ParentsFirst_example :
    ParentsFirst (sort (tmpfs "/dev/shm" ∷ tmpfs "/dev" ∷ []))
    × ((p : Mount → Bool)
        → count p (sort (tmpfs "/dev/shm" ∷ tmpfs "/dev" ∷ []))
          ≡ count p (tmpfs "/dev/shm" ∷ tmpfs "/dev" ∷ []))
sort-ParentsFirst_example = sort-ParentsFirst (tmpfs "/dev/shm" ∷ tmpfs "/dev" ∷ [])

configure_mounts_sound_example :
    Mounted sample rootfs
      (sort (tmpfs "/dev/shm" ∷ tmpfs "/dev" ∷ []))
      ([] ++ (set_config_item "lxc.mount.auto" "" ∷ []))
      (configure_mounts sample rootfs (tmpfs "/dev/shm" ∷ tmpfs "/dev" ∷ []) []).1
unfolding configure_mounts configure_mount_list configure_mount sort less resolve_mount_destination
    resolve_entries resolve_path_relative create_mount_destination as_cgroup2 set_item join_path
    clean
configure_mounts_sound_example =
    configure_mounts_sound sample rootfs (tmpfs "/dev/shm" ∷ tmpfs "/dev" ∷ []) []
      (configure_mounts sample rootfs (tmpfs "/dev/shm" ∷ tmpfs "/dev" ∷ []) []).1 refl

abbrev limit : String → Rlimit
limit type = record { type = type; soft = 1024; hard = 4096 }
