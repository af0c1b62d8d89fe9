-- ===== src/Examples/Cgroups.antt =====
-- Runs of the cgroup operations.
use lxcri.Base.{◌≡◌, refl, true, false, [], ◌∷◌, ◌++◌, some, ok, is_ok, ◌≤◌, ◌<◌, ◌==◌}
use lxcri.Base.Host.{Host, History}
use lxcri.Base.Int.{pos}
use lxcri.Base.FilePath.{join_path, clean}
use lxcri.Oci.{Linux}
use lxcri.Container.{Container}
use lxcri.Examples.{sample, sample-IsCompliant, some_container, some_runtime}
use lxcri.Config.{set_item, supports_items}
use lxcri.Cgroup.Kill.{kill_frozen}
use lxcri.Cgroup.Freezer.{FreezerTells, kill_frozen_freezer}
use lxcri.Cgroup.Delete.{delete_cgroup}
use lxcri.Cgroup.Deleted.{
  Group, group, end, file, child, height, removals, Mirrors, MirrorsBelow, delete_cgroup_tree,
}
use lxcri.Cgroup.Events.{check_cgroup, parse_cgroup_events, events_of, read_lines, IsVacant}
use lxcri.Cgroup.Devices.{configure_devices}
use lxcri.Cgroup.Configure.{
  configure_cgroup, configure_cgroup_path, container_cgroup, split_cgroups,
  configure_cgroup-IsVacant,
}

abbrev configured : Container
configured = record some_container {
  cgroup_dir = "lxcri.slice/c1.scope";
  monitor_cgroup_dir = "lxcri-monitor.slice/c1.scope";
}

kill_frozen_freezer_example :
    FreezerTells
      (join_path ("/sys/fs/cgroup/lxcri.slice" ∷ "cgroup.freeze" ∷ []))
      (kill_frozen sample (pos 7) (pos 9) "/sys/fs/cgroup/lxcri.slice" 3 [])
kill_frozen_freezer_example =
    kill_frozen_freezer sample (pos 7) (pos 9) "/sys/fs/cgroup/lxcri.slice" 3 [] sample-IsCompliant

-- A cgroup with a control file and a child group.
abbrev two_levels : Group
two_levels = group (file "cgroup.procs" (child "system" (group end) end))

abbrev listed : Host
listed = record sample {
  read_dir = λ w path. ok (elim (path == "/sys/fs/cgroup/c1.scope") [
    | true ↦ ("cgroup.procs", false) ∷ ("system", true) ∷ []
    | false ↦ []
  ]);
}

delete_cgroup_tree_example :
    (height two_levels ≤ 10
      → delete_cgroup listed "/sys/fs/cgroup" "c1.scope" []
        ≡ (ok tt, [] ++ removals listed "/sys/fs/cgroup" "c1.scope" two_levels))
    × (10 < height two_levels
        → is_ok (delete_cgroup listed "/sys/fs/cgroup" "c1.scope" []).0 ≡ false)
unfolding join_path clean Mirrors MirrorsBelow
delete_cgroup_tree_example =
    delete_cgroup_tree listed "/sys/fs/cgroup" two_levels "c1.scope" [] (λ w c. refl)
      (λ w. refl, (refl, (λ w. refl, tt), tt))

configure_cgroup-IsVacant_example :
    (linux : Linux) × (v : History) × (some_container.spec.linux ≡ some linux)
    × (configure_cgroup_path sample some_runtime some_container linux.cgroups_path []
        ≡ (ok configured, v))
    × IsVacant (
        parse_cgroup_events sample
          (join_path ("/sys/fs/cgroup" ∷ configured.cgroup_dir ∷ "cgroup.events" ∷ []))
          v)
unfolding configure_cgroup configure_cgroup_path container_cgroup split_cgroups supports_items
    set_item check_cgroup parse_cgroup_events events_of read_lines configure_devices join_path clean
configure_cgroup-IsVacant_example =
    configure_cgroup-IsVacant sample "/sys/fs/cgroup" some_runtime some_container configured []
      (configure_cgroup sample "/sys/fs/cgroup" some_runtime some_container []).1 refl
