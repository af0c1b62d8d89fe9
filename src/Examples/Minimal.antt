-- ===== src/Examples/Minimal.antt =====
-- A minimal spec, as `NewSpec` makes it.
use lxcri.Base.{◌≡◌, refl, some, [], ◌∷◌, ◌++◌, ok}
use lxcri.Base.Host.{set_config_item}
use lxcri.Namespaces.{configure_namespaces}
use lxcri.Oci.{Linux}
use lxcri.Runtime.Check.{check_config}
use lxcri.Specki.Devices.{essential_devices_allow, allow_essential_devices}
use lxcri.Specki.NewSpec.{new_spec, bind_mount, new_spec_complete}
use lxcri.Examples.{sample, sample-IsCompliant}

new_spec_complete_example :
    (check_config sample "c1" (new_spec "1.0.2" "/rootfs" "/bin/sh" ("-c" ∷ [])) []
      ≡ (ok (new_spec "1.0.2" "/rootfs" "/bin/sh" ("-c" ∷ [])), []))
    × ((linux : Linux) × ((new_spec "1.0.2" "/rootfs" "/bin/sh" ("-c" ∷ [])).linux ≡ some linux)
        × (configure_namespaces sample linux.namespaces []
            ≡ (ok tt, set_config_item "lxc.namespace.clone" "pid mnt ipc uts cgroup net" ∷ []))
        × (allow_essential_devices linux.devices linux.device_rules
            ≡ ok (linux.devices, essential_devices_allow ++ essential_devices_allow)))
new_spec_complete_example =
    new_spec_complete sample "1.0.2" "/rootfs" "/bin/sh" "c1" ("-c" ∷ []) [] (λ e. cc) (λ e. cc)
      sample-IsCompliant

bind_mount_test :
    (bind_mount "/a" "/b" ("ro" ∷ [])).options
    ≡ "bind" ∷ "nosuid" ∷ "nodev" ∷ "relatime" ∷ "ro" ∷ []
unfolding bind_mount
bind_mount_test = refl
