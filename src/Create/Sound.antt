-- ===== src/Create/Sound.antt =====
-- What holds of a container that `configureContainer` returns.
use lxcri.Base.{
  String, ◌≡◌, ap, ◌∙◌, Option, none, some, List, [], ◌∷◌, ◌++◌, All, wrapped, Result, ok,
}
use mathlib.Core.Path.{subst}
use lxcri.Base.Host.{
  Host, M, History, set_config_item, return, lift, with_error, >>=-eq-ok, wrapped-ok, ◌>>=◌, ◌>>◌,
}
use lxcri.Base.Calls.{return-ok}
use lxcri.Oci.{Linux, Process, Root, Mount}
use lxcri.Settings.{Runtime}
use lxcri.Container.{Container}
use lxcri.Container.Log.{set_log}
use lxcri.Namespaces.{configure_namespaces}
use lxcri.Namespaces.Configure.{
  Distinct, IsSupported, shared_calls, clone_call, cloned, configure_namespaces_sound,
}
use lxcri.Mounts.{sort, configure_mounts}
use lxcri.Mounts.Entries.{Mounted, configure_mounts_sound}
use lxcri.Create.{configure_limits, configure_readonly_paths}
use lxcri.Create.Userns.{configure_user_namespace}
use lxcri.Create.Kept.{
  Returns-ok, init_mounts, HasDevices, configure_process-Returns, configure_resources-Returns,
}
use lxcri.Create.Configure.{
  followed, configure_mounted, configure_isolated, prepare_root, configure_process,
  configure_resources, configure_sysctl, configure_container,
}

-- The last steps: the system settings and limits, then automatic mounts were disabled and every mount
-- was written, and then the read-only paths; the mounts stand in this order in the spec that is returned.
pub record IsMounted (h : Host) (root : Root) (process : Process) (linux : Linux) (c c' : Container)
    (w w' : History) : Type 0 where
  pub settled : History
  pub settles : configure_sysctl h linux.sysctl w ≡ (ok tt, settled)
  pub limited : History
  pub limits : configure_limits h [] process.rlimits settled ≡ (ok tt, limited)
  pub mounted_at : History
  pub mounts :
      Mounted h root
        (sort c.spec.mounts)
        (limited ++ (set_config_item "lxc.mount.auto" "" ∷ []))
        mounted_at
  pub protects : configure_readonly_paths h linux mounted_at ≡ (ok tt, w')
  pub returned : record c { spec = record c.spec { mounts = sort c.spec.mounts } } ≡ c'

-- The steps behind the root: the namespaces, of each known type at most one, for which just these items
-- were set; the process, which adds its two mounts to those of the spec; the resources, which put the
-- devices behind each mount of /dev; and the last steps, for the container that the resources left.
pub record IsIsolated (h : Host) (uname : Result String) (cgroup_root : String) (rt : Runtime)
    (c c' : Container) (root : Root) (process : Process) (linux : Linux) (w w' : History)
    : Type 0 where
  pub distinct : Distinct [] linux.namespaces
  pub supported : All IsSupported linux.namespaces
  pub isolated : History
  pub isolates :
      isolated ≡ w ++ (shared_calls linux.namespaces ++ (clone_call (cloned linux.namespaces) ∷ []))
  pub with_init : List Mount
  pub processed : History
  pub processes :
      configure_process h uname rt c process linux c.spec.mounts isolated
      ≡ (ok with_init, processed)
  pub adds_init : with_init ≡ c.spec.mounts ++ init_mounts rt c
  pub configured : Container
  pub resourced : History
  pub resources :
      configure_resources h cgroup_root rt c root linux with_init processed
      ≡ (ok configured, resourced)
  pub adds_devices : HasDevices h linux with_init configured
  pub mounting : IsMounted h root process linux configured c' resourced w'

-- `configureContainer`, each step from the history that the one before it left: the log, the root, and
-- then the rest with the Linux section that `configureUserNamespace` leaves.
pub record IsConfigured (h : Host) (uname : Result String) (cgroup_root : String) (rt : Runtime)
    (c c' : Container) (root : Root) (given : Linux) (w w' : History) : Type 0 where
  pub process : Process
  pub has_process : c.spec.process ≡ some process
  pub logged : History
  pub logs : set_log h c.log_file c.log_level w ≡ (ok tt, logged)
  pub prepared : History
  pub prepares : prepare_root h c root given logged ≡ (ok tt, prepared)
  pub isolating :
      IsIsolated h uname cgroup_root rt c c' root process
        (configure_user_namespace h rt c.spec.annotations given)
        prepared
        w'

module _ (h : Host) where
  configure_mounted-IsMounted :
      (root : Root) (p : Process) (linux : Linux) (c c' : Container) (w w' : History)
      → configure_mounted h root p linux c w ≡ (ok c', w')
      → IsMounted h root p linux c c' w w'
  unfolding configure_mounted
  configure_mounted-IsMounted root p linux c c' w w' e =
      let last : Container = record c { spec = record c.spec { mounts = sort c.spec.mounts } } in
      let readonly =
        with_error (wrapped "failed to configure read-only paths")
          (configure_readonly_paths h linux) in
      let mount =
        with_error (wrapped "failed to configure mounts") (configure_mounts h root c.spec.mounts) in
      let close : M Container = readonly >> return last in
      let mounting : M Container = mount >> close in
      let limiting : M Container = configure_limits h [] p.rlimits >> mounting in
      let (_, w₁, settled, e₁) = >>=-eq-ok (configure_sysctl h linux.sysctl) (λ _. limiting) w e in
      let (_, w₂, limited, e₂) =
        >>=-eq-ok (configure_limits h [] p.rlimits) (λ _. mounting) w₁ e₁ in
      let (_, w₃, mounts, e₃) = >>=-eq-ok mount (λ _. close) w₂ e₂ in
      let (_, w₄, protected, e₄) = >>=-eq-ok readonly (λ _. return last) w₃ e₃ in
      let (same, here) = return-ok last c' w₄ w' e₄ in
      record {
        settled = w₁;
        settles = settled;
        limited = w₂;
        limits = limited;
        mounted_at = w₃;
        mounts = configure_mounts_sound h root c.spec.mounts w₂ w₃ (
            wrapped-ok (wrapped "failed to configure mounts")
              (configure_mounts h root c.spec.mounts w₂) tt w₃ mounts);
        protects =
            subst (λ v. configure_readonly_paths h linux w₃ ≡ (ok tt, v)) here
              (wrapped-ok (wrapped "failed to configure read-only paths")
                (configure_readonly_paths h linux w₃) tt w₄ protected);
        returned = same;
      }

  configure_isolated-IsIsolated :
      (uname : Result String) (cgroup_root : String) (rt : Runtime) (c c' : Container) (root : Root)
      (p : Process) (linux : Linux) (w w' : History)
      → configure_isolated h uname cgroup_root rt c root p linux w ≡ (ok c', w')
      → IsIsolated h uname cgroup_root rt c c' root p linux w w'
  unfolding configure_isolated
  configure_isolated-IsIsolated uname cgroup_root rt c c' root p linux w w' e =
      let isolate =
        with_error (wrapped "failed to configure namespaces")
          (configure_namespaces h linux.namespaces) in
      let close : Container → M Container = configure_mounted h root p linux in
      let share : List Mount → M Container =
        λ mounts. configure_resources h cgroup_root rt c root linux mounts >>= close in
      let run : M Container = configure_process h uname rt c p linux c.spec.mounts >>= share in
      let (_, w₁, isolated, e₁) = >>=-eq-ok isolate (λ _. run) w e in
      let (mounts, w₂, processed, e₂) =
        >>=-eq-ok (configure_process h uname rt c p linux c.spec.mounts) share w₁ e₁ in
      let (configured, w₃, resourced, e₃) =
        >>=-eq-ok (configure_resources h cgroup_root rt c root linux mounts) close w₂ e₂ in
      let (distinct, supported, items) = configure_namespaces_sound h linux.namespaces w w₁ (
        wrapped-ok (wrapped "failed to configure namespaces")
          (configure_namespaces h linux.namespaces w) tt w₁ isolated) in
      record {
        distinct = distinct;
        supported = supported;
        isolated = w₁;
        isolates = items;
        with_init = mounts;
        processed = w₂;
        processes = processed;
        adds_init =
            Returns-ok (λ l. l ≡ c.spec.mounts ++ init_mounts rt c) _ mounts w₁ w₂
              (configure_process-Returns h uname rt c p linux c.spec.mounts) processed;
        configured = configured;
        resourced = w₃;
        resources = resourced;
        adds_devices =
            Returns-ok (HasDevices h linux mounts) _ configured w₂ w₃
              (configure_resources-Returns h cgroup_root rt c root linux mounts) resourced;
        mounting = configure_mounted-IsMounted root p linux configured c' w₃ w' e₃;
      }

followed-ok :
    {A : Type 0} (o : Option A) (a : A) (w v : History)
    → lift (followed o) w ≡ (ok a, v)
    → (o ≡ some a) × (w ≡ v)
followed-ok none a w v e = absurd cc
followed-ok (some b) a w v e = let (same, here) = return-ok b a w v e in (ap some same, here)

-- If `configureContainer` succeeds, the spec has a root and a Linux section, and `IsConfigured` holds.
-- The namespaces that it leaves behind `configureUserNamespace` are of known types, no two of one type,
-- and just their items were set. The mounts that were written, each to a path that starts with the root's
-- (`Mounted`), are all those of the spec, with the two for the init process, and with the devices of
-- `AllowEssentialDevices` behind each that is for /dev, which itself became a tmpfs. They were written
-- behind everything else but the read-only paths, and stand in this order in the spec that is returned.
pub configure_container_sound :
    (h : Host) (uname : Result String) (cgroup_root : String) (rt : Runtime) (c c' : Container)
    (w w' : History)
    → configure_container h uname cgroup_root rt c w ≡ (ok c', w')
    → (root : Root) × (given : Linux) × (c.spec.root ≡ some root)
      × (c.spec.linux ≡ some given)
      × IsConfigured h uname cgroup_root rt c c' root given w w'
unfolding configure_container
configure_container_sound h uname cgroup_root rt c c' w w' e =
    let log =
      with_error (wrapped "failed to configure container log") (set_log h c.log_file c.log_level) in
    let user : Linux → Linux = configure_user_namespace h rt c.spec.annotations in
    let isolate : Root → Process → Linux → M Container = λ root p given.
      prepare_root h c root given
      >> configure_isolated h uname cgroup_root rt c root p (user given) in
    let with_linux : Root → Process → M Container =
      λ root p. lift (followed c.spec.linux) >>= isolate root p in
    let with_process : Root → M Container =
      λ root. lift (followed c.spec.process) >>= with_linux root in
    let with_root : M Container = lift (followed c.spec.root) >>= with_process in
    let (_, w₁, log_set, e₁) = >>=-eq-ok log (λ _. with_root) w e in
    let (root, w₂, has_root, e₂) = >>=-eq-ok (lift (followed c.spec.root)) with_process w₁ e₁ in
    let (p, w₃, has_process, e₃) =
      >>=-eq-ok (lift (followed c.spec.process)) (with_linux root) w₂ e₂ in
    let (given, w₄, has_linux, e₄) =
      >>=-eq-ok (lift (followed c.spec.linux)) (isolate root p) w₃ e₃ in
    let (_, w₅, prepared, e₅) =
      >>=-eq-ok (prepare_root h c root given)
        (λ _. configure_isolated h uname cgroup_root rt c root p (user given)) w₄ e₄ in
    let (is_root, here₁) = followed-ok c.spec.root root w₁ w₂ has_root in
    let (is_process, here₂) = followed-ok c.spec.process p w₂ w₃ has_process in
    let (is_linux, here₃) = followed-ok c.spec.linux given w₃ w₄ has_linux in
    (
      root,
      given,
      is_root,
      is_linux,
      record {
        process = p;
        has_process = is_process;
        logged = w₄;
        logs =
            subst (λ v. set_log h c.log_file c.log_level w ≡ (ok tt, v)) (here₁ ∙ here₂ ∙ here₃)
              (wrapped-ok (wrapped "failed to configure container log")
                (set_log h c.log_file c.log_level w) tt w₁ log_set);
        prepared = w₅;
        prepares = prepared;
        isolating =
            configure_isolated-IsIsolated h uname cgroup_root rt c c' root p (user given) w₅ w' e₅;
      },
    )
