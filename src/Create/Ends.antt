-- ===== src/Create/Ends.antt =====
-- The kinds of errors of `configureContainer`.
use lxcri.Base.{
  ℕ, String, ◌≡◌, refl, Bool, false, Option, none, some, List, [], ◌∷◌, Error, wrapped, Result,
}
use lxcri.Base.Int.{ℤ}
use lxcri.Base.Host.{Host, M, return, lift, with_error, when, ◌>>=◌, ◌>>◌}
use lxcri.Base.Free.{
  bad_of, IsForeign, Free, >>=-Free, lift-Free, then-Free, when-Free, perform-Free, wrapped-Free,
}
use lxcri.Oci.{Process, Root, Linux, Mount, Hooks, DeviceCgroup, Device, SeccompProfile}
use lxcri.Settings.{Runtime, libexec}
use lxcri.Config.{set_item}
use lxcri.Config.Free.{set_item-Free}
use lxcri.Container.{Container}
use lxcri.Container.Log.{set_log}
use lxcri.Namespaces.{configure_namespaces}
use lxcri.Specki.Devices.{allow_essential_devices}
use lxcri.Hooks.{configure_hooks}
use lxcri.Cgroup.Configure.{configure_cgroup}
use lxcri.Cgroup.Free.{configure_cgroup-Free}
use lxcri.Mounts.{sort, configure_mounts}
use lxcri.Seccomp.Free.{write_seccomp_profile-Free}
use lxcri.Namespaces.Free.{configure_from-Free}
use lxcri.Mounts.Free.{configure_mounts-Free}
use lxcri.Create.{
  configure_init, configure_apparmor, configure_capabilities, bind_mount_devices, configure_limits,
  configure_readonly_paths,
}
use lxcri.Create.Userns.{configure_user_namespace}
use lxcri.Create.Configure.{
  followed, configure_oom_score, configure_seccomp, configure_sysctl, configure_process,
  configure_resources, configure_mounted, configure_isolated, prepare_root, configure_container,
}
use lxcri.Create.Free.{
  configure_rootfs-Free, configure_limits-Free, configure_readonly_paths-Free,
  configure_hostname-Free, configure_init-Free, bind_mount_devices-Free,
}
use lxcri.Create.Steps.{set_log-Free, configure_hooks-Free, allow_essential_devices-good}

module _ {h : Host} {bad : Error → Bool} {fuel : ℕ} (f : IsForeign h bad fuel)
    (uname : Result String) (known : bad_of bad uname ≡ false) where
  configure_oom_score-Free : (o : Option ℤ) → Free bad (configure_oom_score h o)
  unfolding configure_oom_score
  configure_oom_score-Free none = λ w. refl
  configure_oom_score-Free (some n) = set_item-Free f _ _

  configure_seccomp-Free :
      (c : Container) (o : Option SeccompProfile) → Free bad (configure_seccomp h uname c o)
  unfolding configure_seccomp
  configure_seccomp-Free c none = λ w. refl
  configure_seccomp-Free c (some profile) =
      when-Free bad _ _ (
        then-Free bad _ _ (write_seccomp_profile-Free f uname _ profile known)
          (set_item-Free f _ _))

  configure_sysctl-Free : (entries : List (String × String)) → Free bad (configure_sysctl h entries)
  unfolding configure_sysctl
  configure_sysctl-Free [] = λ w. refl
  configure_sysctl-Free ((key, val) ∷ entries) =
      then-Free bad _ _ (set_item-Free f _ _) (configure_sysctl-Free entries)

  configure_process-Free :
      (rt : Runtime) (c : Container) (p : Process) (linux : Linux) (mounts : List Mount)
      → Free bad (configure_process h uname rt c p linux mounts)
  unfolding configure_process configure_apparmor configure_capabilities
  configure_process-Free rt c p linux mounts =
      let init : M (List Mount) =
        with_error (wrapped "failed to configure init") (configure_init h rt c p linux mounts) in
      let oom : M (Unit {0}) = configure_oom_score h p.oom_score_adj in
      let privs : M (Unit {0}) = when p.no_new_privileges (set_item h "lxc.no_new_privs" "1") in
      let apparmor : M (Unit {0}) =
        when rt.features.apparmor
          (with_error (wrapped "failed to configure apparmor") (configure_apparmor h p)) in
      let seccomp : M (Unit {0}) =
        when rt.features.seccomp (configure_seccomp h uname c linux.seccomp) in
      let caps : M (Unit {0}) =
        when rt.features.capabilities
          (with_error (wrapped "failed to configure capabilities") (configure_capabilities h p)) in
      let dev : M (Unit {0}) = set_item h "lxc.autodev" "0" in
      let end : List Mount → M (List Mount) = λ l. dev >> return l in
      let with_caps : List Mount → M (List Mount) = λ l. caps >> end l in
      let with_seccomp : List Mount → M (List Mount) = λ l. seccomp >> with_caps l in
      let with_apparmor : List Mount → M (List Mount) = λ l. apparmor >> with_seccomp l in
      let with_privs : List Mount → M (List Mount) = λ l. privs >> with_apparmor l in
      let with_oom : List Mount → M (List Mount) = λ l. oom >> with_privs l in
      >>=-Free bad init with_oom (wrapped-Free f _ _ (configure_init-Free f rt c p linux mounts))
        (λ l. then-Free bad oom (with_privs l) (configure_oom_score-Free p.oom_score_adj) (
          then-Free bad privs (with_apparmor l) (when-Free bad _ _ (set_item-Free f _ _)) (
            then-Free bad apparmor (with_seccomp l)
              (when-Free bad _ _ (wrapped-Free f _ _ (set_item-Free f _ _)))
              (then-Free bad seccomp (with_caps l)
                (when-Free bad _ _ (configure_seccomp-Free c linux.seccomp))
                (then-Free bad caps (end l)
                  (when-Free bad _ _ (wrapped-Free f _ _ (set_item-Free f _ _)))
                  (then-Free bad dev (return l) (set_item-Free f _ _) (λ w. refl)))))))

  configure_resources-Free :
      (cgroup_root : String) (rt : Runtime) (c : Container) (root : Root) (linux : Linux)
      (mounts : List Mount)
      → Free bad (configure_resources h cgroup_root rt c root linux mounts)
  unfolding configure_resources
  configure_resources-Free cgroup_root rt c root linux mounts =
      let placed : List DeviceCgroup → List Mount → Hooks → Container = λ rules bound hooks.
        record c {
          spec = record c.spec {
            mounts = bound;
            hooks = some hooks;
            linux = some (record linux { devices = []; device_rules = some rules });
          };
        } in
      let cgroup : List DeviceCgroup → List Mount → Hooks → M Container = λ rules bound hooks.
        with_error (wrapped "failed to configure cgroups")
          (configure_cgroup h cgroup_root rt (placed rules bound hooks)) in
      let hook : M Hooks = configure_hooks h (libexec rt "lxcri-hook") rt.hooks c.spec.hooks in
      let bind : List Device → M (List Mount) =
        λ devices. bind_mount_devices h root.path devices mounts in
      >>=-Free bad (lift (allow_essential_devices linux.devices linux.device_rules))
        (λ p. bind p.0 >>= (λ bound. hook >>= cgroup p.1 bound))
        (lift-Free bad _ (allow_essential_devices-good f linux.devices linux.device_rules))
        (λ p.
          >>=-Free bad (bind p.0) (λ bound. hook >>= cgroup p.1 bound)
            (bind_mount_devices-Free f root.path p.0 mounts)
            (λ bound.
              >>=-Free bad hook (cgroup p.1 bound) (configure_hooks-Free f _ rt.hooks c.spec.hooks)
                (λ hooks.
                  wrapped-Free f _ (configure_cgroup h cgroup_root rt (placed p.1 bound hooks)) (
                    configure_cgroup-Free f cgroup_root rt (placed p.1 bound hooks) _ p.1 refl
                      refl))))

  configure_mounted-Free :
      (root : Root) (p : Process) (linux : Linux) (c : Container)
      → Free bad (configure_mounted h root p linux c)
  unfolding configure_mounted
  configure_mounted-Free root p linux c =
      let limits : M (Unit {0}) = configure_limits h [] p.rlimits in
      let mounts : M (Unit {0}) =
        with_error (wrapped "failed to configure mounts") (configure_mounts h root c.spec.mounts) in
      let paths : M (Unit {0}) =
        with_error (wrapped "failed to configure read-only paths")
          (configure_readonly_paths h linux) in
      let end : M Container =
        return (record c { spec = record c.spec { mounts = sort c.spec.mounts } }) in
      then-Free bad (configure_sysctl h linux.sysctl) (limits >> (mounts >> (paths >> end)))
        (configure_sysctl-Free linux.sysctl)
        (then-Free bad limits (mounts >> (paths >> end)) (configure_limits-Free f p.rlimits []) (
          then-Free bad mounts (paths >> end)
            (wrapped-Free f _ (configure_mounts h root c.spec.mounts)
              (configure_mounts-Free f root c.spec.mounts))
            (then-Free bad paths end
              (wrapped-Free f _ (configure_readonly_paths h linux)
                (configure_readonly_paths-Free f linux))
              (λ w. refl))))

  configure_isolated-Free :
      (cgroup_root : String) (rt : Runtime) (c : Container) (root : Root) (p : Process)
      (linux : Linux)
      → Free bad (configure_isolated h uname cgroup_root rt c root p linux)
  unfolding configure_isolated configure_namespaces
  configure_isolated-Free cgroup_root rt c root p linux =
      let isolate : M (Unit {0}) =
        with_error (wrapped "failed to configure namespaces")
          (configure_namespaces h linux.namespaces) in
      let process : M (List Mount) = configure_process h uname rt c p linux c.spec.mounts in
      let resources : List Mount → M Container =
        λ mounts. configure_resources h cgroup_root rt c root linux mounts in
      let rest : List Mount → M Container =
        λ mounts. resources mounts >>= configure_mounted h root p linux in
      then-Free bad isolate (process >>= rest)
        (wrapped-Free f _ _ (configure_from-Free f linux.namespaces [] []))
        (>>=-Free bad process rest (configure_process-Free rt c p linux c.spec.mounts) (λ mounts.
          >>=-Free bad (resources mounts) (configure_mounted h root p linux)
            (configure_resources-Free cgroup_root rt c root linux mounts)
            (configure_mounted-Free root p linux)))

  prepare_root-Free :
      (c : Container) (root : Root) (linux : Linux) → Free bad (prepare_root h c root linux)
  unfolding prepare_root
  prepare_root-Free c root linux =
      then-Free bad _ _ (configure_hostname-Free f c.spec.hostname linux.namespaces) (
        then-Free bad _ _ (wrapped-Free f _ _ (configure_rootfs-Free f c.bundle_path root linux))
          (then-Free bad _ _ (perform-Free f _) (perform-Free f _)))

  pub configure_container-Free :
      (cgroup_root : String) (rt : Runtime) (c : Container)
      → bad_of bad (followed c.spec.root) ≡ false
      → bad_of bad (followed c.spec.process) ≡ false
      → bad_of bad (followed c.spec.linux) ≡ false
      → Free bad (configure_container h uname cgroup_root rt c)
  unfolding configure_container
  configure_container-Free cgroup_root rt c has_root has_process has_linux =
      let log : M (Unit {0}) =
        with_error (wrapped "failed to configure container log")
          (set_log h c.log_file c.log_level) in
      let isolate : Root → Process → Linux → M Container = λ root p given.
        configure_isolated h uname cgroup_root rt c root p
          (configure_user_namespace h rt c.spec.annotations given) in
      let prepare : Root → Process → Linux → M Container =
        λ root p given. prepare_root h c root given >> isolate root p given in
      let with_process : Root → Process → M Container =
        λ root p. lift (followed c.spec.linux) >>= prepare root p in
      let with_root : Root → M Container =
        λ root. lift (followed c.spec.process) >>= with_process root in
      then-Free bad log (lift (followed c.spec.root) >>= with_root)
        (wrapped-Free f _ _ (set_log-Free f c.log_file c.log_level))
        (>>=-Free bad (lift (followed c.spec.root)) with_root (lift-Free bad _ has_root) (λ root.
          >>=-Free bad (lift (followed c.spec.process)) (with_process root)
            (lift-Free bad _ has_process)
            (λ p.
              >>=-Free bad (lift (followed c.spec.linux)) (prepare root p)
                (lift-Free bad _ has_linux)
                (λ given.
                  then-Free bad (prepare_root h c root given) (isolate root p given)
                    (prepare_root-Free c root given)
                    (configure_isolated-Free cgroup_root rt c root p _)))))
