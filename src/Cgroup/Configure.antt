-- ===== src/Cgroup/Configure.antt =====
-- `configureCgroupPath`, `configureCgroup`, `detectCgroupRoot` and `getProcessCgroup` of cgroup.go, and
-- `fsMagic` and `isFilesystem` of utils.go. The controllers that only log are left out.
use lxcri.Base.{
  ℕ, String, ◌≡◌, refl, sym, ◌∙◌, ap, Bool, true, false, not, ◌&&◌, ◌||◌, Option, none, some, List,
  [], ◌∷◌, ◌==◌, ◌<>◌, eqb, split, join, if◌then◌else◌, failed, wrapped, nil_dereference, Result,
  ok, err, is_ok,
}
use mathlib.Core.Path.{subst}
use lxcri.Base.Host.{
  Host, M, History, return, throw, lift, query_result, throw_if, when, with_error, >>=-eq-ok, ◌>>=◌,
  ◌>>◌,
}
use lxcri.Base.Int.{ℤ, decimal_ℤ}
use lxcri.Base.FilePath.{join_path}
use lxcri.Oci.{Linux, DeviceCgroup}
use lxcri.Settings.{Runtime, is_privileged}
use lxcri.Config.{set_item, supports_items}
use lxcri.Container.{Container}
use lxcri.Cgroup.Events.{check_cgroup, check_cgroup_iff, IsVacant, parse_cgroup_events}
use lxcri.Cgroup.SystemdPath.{parse_systemd_cgroup_path}
use lxcri.Cgroup.Devices.{configure_devices}

-- The cgroup of the container, from the spec or from the runtime's default
unfoldable pub container_cgroup : Runtime → Container → String → String
container_cgroup rt c cgroups_path =
    let dir = if c.systemd_cgroup then parse_systemd_cgroup_path cgroups_path else cgroups_path in
    if dir == "" then join_path (rt.payload_cgroup ∷ (c.container_id <> ".scope") ∷ []) else dir

module _ (h : Host) where
  -- The branch for a liblxc that separates the cgroup of the monitor
  unfoldable pub split_cgroups : Runtime → Container → String → M Container
  split_cgroups rt c cgroup_dir = do
    let monitor_dir = join_path (rt.monitor_cgroup ∷ (c.container_id <> ".scope") ∷ [])
    set_item h "lxc.cgroup.dir.container" cgroup_dir
    set_item h "lxc.cgroup.dir.monitor" monitor_dir
    when (supports_items h ("lxc.cgroup.dir.monitor.pivot" ∷ []))
        (set_item h "lxc.cgroup.dir.monitor.pivot" rt.monitor_cgroup)
    return (record c { cgroup_dir = cgroup_dir; monitor_cgroup_dir = monitor_dir })

  abbrev pub splits : Runtime → Bool
  splits rt =
      supports_items h ("lxc.cgroup.dir.container" ∷ "lxc.cgroup.dir.monitor" ∷ [])
      && not (rt.monitor_cgroup == "")

  -- `configureCgroupPath`, for the path of the spec
  unfoldable pub configure_cgroup_path : Runtime → Container → String → M Container
  configure_cgroup_path rt c cgroups_path = do
    let cgroup_dir = container_cgroup rt c cgroups_path
    set_item h "lxc.cgroup.relative" (if is_privileged h rt then "0" else "1")
    elim (splits rt) [
      | false ↦ do
        set_item h "lxc.cgroup.dir" cgroup_dir
        return (record c { cgroup_dir = cgroup_dir })
      | true ↦ split_cgroups rt c cgroup_dir
    ]

  -- The rules of the devices; Resources are followed without a test.
  abbrev pub configure_rules : Runtime → Option (List DeviceCgroup) → M (Unit {0})
  configure_rules rt none = throw nil_dereference
  configure_rules rt (some devs) = when rt.features.cgroup_devices (configure_devices h devs)

  abbrev pub configure_pids : Option ℤ → M (Unit {0})
  configure_pids none = return tt
  configure_pids (some limit) = set_item h "lxc.cgroup2.pids.max" (decimal_ℤ limit)

  abbrev pub linux_of : Option Linux → Result Linux
  linux_of none = err nil_dereference
  linux_of (some l) = ok l

  -- `configureCgroup`
  unfoldable pub configure_cgroup : String → Runtime → Container → M Container
  configure_cgroup cgroup_root rt c = do
    linux ← lift (linux_of c.spec.linux)
    c ← configure_cgroup_path rt c linux.cgroups_path
    check_cgroup h cgroup_root c.cgroup_dir
    configure_rules rt linux.device_rules
    configure_pids linux.pids_limit
    return c

  -- `fsMagic`; `none` is its -1
  unfoldable pub fs_magic : String → Option ℕ
  fs_magic fs_name =
      if fs_name == "proc" || fs_name == "procfs"
      then some 0x9fa0
      else if fs_name == "cgroup2" || fs_name == "cgroup2fs"
      then some 0x63677270
      else none

  -- `isFilesystem`
  unfoldable pub is_filesystem : String → String → M (Unit {0})
  is_filesystem dir fs_name = elim (fs_magic fs_name) [
    | none ↦ throw (failed ("undefined filesystem " <> fs_name))
    | some fs_type ↦ do
      type ← with_error (wrapped ("fstat failed for " <> dir)) (query_result (λ w. h.statfs w dir))
      throw_if (not (eqb type fs_type)) (failed (dir <> " is not on filesystem " <> fs_name))
  ]

  -- The line of the unified hierarchy, split as `SplitN(line, ":", 3)` does
  abbrev unified : List String → Option String
  unified (id ∷ (controllers ∷ (path ∷ more))) =
      if id == "0" then some (join ":" (path ∷ more)) else none
  unified _ = none

  abbrev find_cgroup : List String → Result String
  find_cgroup [] = err (failed "failed to parse cgroup from /proc/self/cgroup")
  find_cgroup (line ∷ lines) =
      let rest = find_cgroup lines in
      elim (unified (split b':' line)) [ some path ↦ ok path | none ↦ rest ]

  -- `getProcessCgroup`
  unfoldable pub get_process_cgroup : M String
  get_process_cgroup = do
    data_ ←
        with_error (λ e. failed "failed to load /proc/self/cgroup")
          (query_result (λ w. h.read_file w "/proc/self/cgroup"))
    lift (find_cgroup (split 10 data_))

  -- `detectCgroupRoot`: the later directory wins.
  unfoldable pub cgroup_mount : History → String
  cgroup_mount w =
      if is_ok (is_filesystem "/sys/fs/cgroup/unified" "cgroup2" w).0
      then "/sys/fs/cgroup/unified"
      else if is_ok (is_filesystem "/sys/fs/cgroup" "cgroup2" w).0
      then "/sys/fs/cgroup"
      else ""

  unfoldable pub detect_cgroup_root : Runtime → M String
  detect_cgroup_root rt w =
      if is_privileged h rt
      then if cgroup_mount w == ""
        then (err (failed "failed to detect cgroupv2 root"), w)
        else (ok (cgroup_mount w), w)
      else (get_process_cgroup >>= (λ cg. return (join_path (cgroup_mount w ∷ cg ∷ [])))) w

process_cgroup_test :
    (h : Host)
    → find_cgroup h (split 10 "1:name=systemd:/x\n0::/user.slice/a:b.scope\n")
      ≡ ok "/user.slice/a:b.scope"
process_cgroup_test h = refl

module _ (h : Host) where
  -- If `configureCgroup` succeeds, then behind `configureCgroupPath`, before any limit was set, the events file of
  -- the cgroup that the container got did not exist or did not say that the cgroup is populated.
  pub configure_cgroup-IsVacant :
      (cgroup_root : String) (rt : Runtime) (c c' : Container) (w w' : History)
      → configure_cgroup h cgroup_root rt c w ≡ (ok c', w')
      → (linux : Linux) × (v : History) × (c.spec.linux ≡ some linux)
        × (configure_cgroup_path h rt c linux.cgroups_path w ≡ (ok c', v))
        × IsVacant (
            parse_cgroup_events h
              (join_path (cgroup_root ∷ c'.cgroup_dir ∷ "cgroup.events" ∷ []))
              v)
  unfolding configure_cgroup
  configure_cgroup-IsVacant cgroup_root rt c c' w w' e = go c.spec.linux refl
    where
      limits : Linux → Container → M Container
      limits linux c₁ =
          configure_rules h rt linux.device_rules
          >> (configure_pids h linux.pids_limit >> return c₁)

      checked : Linux → Container → M Container
      checked linux c₁ = check_cgroup h cgroup_root c₁.cgroup_dir >> limits linux c₁

      limits-ok :
          (linux : Linux) (c₁ : Container) (v : History) → limits linux c₁ v ≡ (ok c', w') → c₁ ≡ c'
      limits-ok linux c₁ v e =
          let (_, v₁, _, rest) =
            >>=-eq-ok (configure_rules h rt linux.device_rules)
              (λ _. configure_pids h linux.pids_limit >> return c₁) v e in
          let (_, v₂, _, last) =
            >>=-eq-ok (configure_pids h linux.pids_limit) (λ _. return c₁) v₁ rest in
          cc

      go :
          (o : Option Linux)
          → c.spec.linux ≡ o
          → (linux : Linux) × (v : History) × (c.spec.linux ≡ some linux)
            × (configure_cgroup_path h rt c linux.cgroups_path w ≡ (ok c', v))
            × IsVacant (
                parse_cgroup_events h
                  (join_path (cgroup_root ∷ c'.cgroup_dir ∷ "cgroup.events" ∷ []))
                  v)
      go none q =
          let stuck : configure_cgroup h cgroup_root rt c w ≡ (err nil_dereference, w) =
            rw (q, configure_cgroup) refl in
          absurd cc
      go (some linux) q =
          let step : configure_cgroup h cgroup_root rt c w
              ≡ (configure_cgroup_path h rt c linux.cgroups_path >>= checked linux) w =
            rw (q, configure_cgroup) refl in
          let (c₁, v, set, rest) =
            >>=-eq-ok (configure_cgroup_path h rt c linux.cgroups_path) (checked linux) w
              (sym step ∙ e) in
          let (_, v₁, vacant, after) =
            >>=-eq-ok (check_cgroup h cgroup_root c₁.cgroup_dir) (λ _. limits linux c₁) v rest in
          let same : c₁ ≡ c' = limits-ok linux c₁ v₁ after in
          let (_, down, _) = check_cgroup_iff h cgroup_root c₁.cgroup_dir v in
          (
            linux,
            v,
            q,
            set ∙ ap (λ x. (ok x, v)) same,
            subst
                (λ x. IsVacant (
                  parse_cgroup_events h
                    (join_path (cgroup_root ∷ x.cgroup_dir ∷ "cgroup.events" ∷ [])) v))
                same (down (ap (λ r. r.0) vacant)),
          )
