-- ===== src/Cgroup/Free.antt =====
-- The kinds of errors of `configureCgroup`.
use lxcri.Base.{
  ℕ, String, ◌≡◌, refl, ◌∙◌, ap, Bool, false, ◌||◌, Option, none, some, List, [], ◌∷◌, ◌==◌, ◌<>◌,
  Error, Result, ok, err, Bool-cases, inl, inr,
}
use lxcri.Base.Int.{ℤ}
use lxcri.Base.FilePath.{join_path}
use lxcri.Base.Host.{Host, M, return, lift, query_result, when, ◌>>=◌, ◌>>◌}
use lxcri.Base.Free.{
  bad_of, IsForeign, Free, >>=-Free, then-Free, attempt-Free, when-Free, throw_if-Free,
}
use lxcri.Oci.{Linux, DeviceCgroup}
use lxcri.Settings.{Runtime}
use lxcri.Config.{set_item, supports_items}
use lxcri.Config.Free.{set_item-Free}
use lxcri.Container.{Container}
use lxcri.Cgroup.Events.{CgroupEvents, check_cgroup, judge, parse_cgroup_events}
use lxcri.Cgroup.Ends.{parsed-good}
use lxcri.Cgroup.Devices.{configure_device, configure_devices}
use lxcri.Cgroup.Configure.{
  split_cgroups, splits, configure_cgroup_path, configure_rules, configure_pids, linux_of,
  configure_cgroup,
}

module _ {h : Host} {bad : Error → Bool} {fuel : ℕ} (f : IsForeign h bad fuel) where
  configure_device-Free : (dev : DeviceCgroup) → Free bad (configure_device h dev)
  unfolding configure_device
  configure_device-Free dev = elim (Bool-cases (dev.type == "")) [
    | inl all ↦ elim (Bool-cases dev.allow) [
      | inl allow ↦
          rw (all, allow, configure_device)
            (then-Free bad _ _ (set_item-Free f _ _) (set_item-Free f _ _))
      | inr deny ↦ rw (all, deny, configure_device) (λ w. refl)
    ]
    | inr typed ↦ elim (Bool-cases (dev.type == "b" || dev.type == "c")) [
      | inl known ↦ rw (typed, known, configure_device) (set_item-Free f _ _)
      | inr unknown ↦ rw (typed, unknown, configure_device) (λ w. f.message _)
    ]
  ]

  configure_devices-Free : (devs : List DeviceCgroup) → Free bad (configure_devices h devs)
  unfolding configure_devices
  configure_devices-Free [] = λ w. refl
  configure_devices-Free (dev ∷ devs) =
      then-Free bad _ _ (configure_device-Free dev) (configure_devices-Free devs)

  judge-Free :
      (dir : String) (r : Result CgroupEvents) → bad_of bad r ≡ false → Free bad (judge dir r)
  unfolding judge
  judge-Free dir (ok ev) q = throw_if-Free bad _ _ (f.message _)
  judge-Free dir (err e) q = throw_if-Free bad _ _ (f.through _ e ∙ q)

  check_cgroup-Free : (root dir : String) → Free bad (check_cgroup h root dir)
  unfolding check_cgroup
  check_cgroup-Free root dir =
      let path = join_path (root ∷ dir ∷ "cgroup.events" ∷ []) in
      attempt-Free bad (query_result (parse_cgroup_events h path)) (judge dir)
        (λ w. parsed-good f path w) (judge-Free dir)

  split_cgroups-Free :
      (rt : Runtime) (c : Container) (dir : String) → Free bad (split_cgroups h rt c dir)
  unfolding split_cgroups
  split_cgroups-Free rt c dir =
      let pivot : M (Unit {0}) =
        when (supports_items h ("lxc.cgroup.dir.monitor.pivot" ∷ []))
          (set_item h "lxc.cgroup.dir.monitor.pivot" rt.monitor_cgroup) in
      let monitor_dir = join_path (rt.monitor_cgroup ∷ (c.container_id <> ".scope") ∷ []) in
      let finish : M Container =
        return (record c { cgroup_dir = dir; monitor_cgroup_dir = monitor_dir }) in
      then-Free bad _ _ (set_item-Free f _ _) (
        then-Free bad (set_item h "lxc.cgroup.dir.monitor" monitor_dir) (pivot >> finish)
          (set_item-Free f _ _)
          (then-Free bad pivot finish (when-Free bad _ _ (set_item-Free f _ _)) (λ w. refl)))

  configure_cgroup_path-Free :
      (rt : Runtime) (c : Container) (path : String) → Free bad (configure_cgroup_path h rt c path)
  unfolding configure_cgroup_path
  configure_cgroup_path-Free rt c path = elim (Bool-cases (splits h rt)) [
    | inl split ↦
        rw (split, configure_cgroup_path)
          (then-Free bad _ _ (set_item-Free f _ _) (split_cgroups-Free rt c _))
    | inr single ↦
        rw (single, configure_cgroup_path)
          (then-Free bad _ _ (set_item-Free f _ _)
            (then-Free bad _ _ (set_item-Free f _ _) (λ w. refl)))
  ]

  configure_rules-Free :
      (rt : Runtime) (o : Option (List DeviceCgroup)) (rules : List DeviceCgroup)
      → o ≡ some rules
      → Free bad (configure_rules h rt o)
  configure_rules-Free rt none rules given = absurd cc
  configure_rules-Free rt (some devs) rules given = when-Free bad _ _ (configure_devices-Free devs)

  configure_pids-Free : (limit : Option ℤ) → Free bad (configure_pids h limit)
  configure_pids-Free none = λ w. refl
  configure_pids-Free (some limit) = set_item-Free f _ _

  pub configure_cgroup-Free :
      (root : String) (rt : Runtime) (c : Container) (linux : Linux) (rules : List DeviceCgroup)
      → c.spec.linux ≡ some linux
      → linux.device_rules ≡ some rules
      → Free bad (configure_cgroup h root rt c)
  unfolding configure_cgroup
  configure_cgroup-Free root rt c linux rules given has_rules = go c.spec.linux given
    where
      check : Container → M (Unit {0})
      check placed = check_cgroup h root placed.cgroup_dir

      end : Linux → Container → M Container
      end l placed = configure_pids h l.pids_limit >> return placed

      ruled : Linux → Container → M Container
      ruled l placed = configure_rules h rt l.device_rules >> end l placed

      rest : Linux → M Container
      rest l =
          configure_cgroup_path h rt c l.cgroups_path >>= (λ placed. check placed >> ruled l placed)

      rules_of : Option Linux → Option (List DeviceCgroup)
      rules_of none = none
      rules_of (some l) = l.device_rules

      go : (o : Option Linux) → o ≡ some linux → Free bad (lift (linux_of h o) >>= rest)
      go none e = absurd cc
      go (some l) e =
          let same : l.device_rules ≡ some rules = ap (λ o. rules_of o) e ∙ has_rules in
          >>=-Free bad (configure_cgroup_path h rt c l.cgroups_path)
            (λ placed. check placed >> ruled l placed)
            (configure_cgroup_path-Free rt c l.cgroups_path)
            (λ placed.
              then-Free bad (check placed) (ruled l placed)
                (check_cgroup-Free root placed.cgroup_dir)
                (then-Free bad (configure_rules h rt l.device_rules) (end l placed)
                  (configure_rules-Free rt l.device_rules rules same)
                  (then-Free bad (configure_pids h l.pids_limit) (return placed)
                    (configure_pids-Free l.pids_limit) (λ w. refl))))
