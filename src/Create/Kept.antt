-- ===== src/Create/Kept.antt =====
-- What the steps of `configureContainer` leave of the mounts of the spec.
use mathlib.Core.Path.{subst, ap₂}
use lxcri.Base.{
  String, ◌≡◌, refl, ◌∙◌, ap, List, [], ◌∷◌, ◌++◌, ◌==◌, wrapped, Error, Result, ok, err, map,
  Option, some, if◌then◌else◌, ◌<>◌, Bool-cases, inl, inr,
}
use lxcri.Base.Host.{
  Host, M, History, mkdir_all, perform, return, lift, when, attempt, with_error, wrap_step,
  bind_step, ◌>>=◌, ◌>>◌,
}
use lxcri.Base.FilePath.{join_path}
use lxcri.Oci.{Hooks, Process, Root, Linux, Mount, Device, DeviceCgroup}
use lxcri.Settings.{Runtime, libexec, is_privileged}
use lxcri.Config.{set_item, supports_items}
use lxcri.Container.{Container, runtime_path, sync_fifo_path}
use lxcri.Specki.Devices.{allow_essential_devices}
use lxcri.Hooks.{configure_hooks}
use lxcri.Cgroup.Events.{check_cgroup}
use lxcri.Cgroup.Configure.{
  container_cgroup, splits, split_cgroups, configure_cgroup_path, configure_rules, configure_pids,
  linux_of, configure_cgroup,
}
use lxcri.Create.{
  create_fifo, run_as_runtime_user, configure_init_user, configure_init, configure_apparmor,
  touch_file, configure_capabilities, bind_devices, bind_mount_devices,
}
use lxcri.Create.Configure.{
  configure_oom_score, configure_seccomp, configure_process, configure_resources,
}

-- What is returned, if anything is, satisfies this.
abbrev Gives : {A : Type 0} → (A → Type 0) → Result A × History → Type 0
Gives P (ok a, v) = P a
Gives P (err e, v) = Unit

-- A step that returns only what satisfies this.
abbrev pub Returns : {A : Type 0} → (A → Type 0) → M A → Type 0
Returns P m = (w : History) → Gives P (m w)

-- What a step returned where it succeeded
pub Returns-ok :
    {A : Type 0} (P : A → Type 0) (m : M A) (a : A) (w v : History)
    → Returns P m
    → m w ≡ (ok a, v)
    → P a
Returns-ok P m a w v g e = subst (Gives P) e (g w)

>>=-Returns :
    {A B : Type 0} (Q : A → Type 0) (P : B → Type 0) (m : M A) (f : A → M B)
    → Returns Q m
    → ((a : A) → Q a → Returns P (f a))
    → Returns P (m >>= f)
>>=-Returns {A} {B} Q P m f q k w = go (m w) (q w)
  where
    go : (r : Result A × History) → Gives Q r → Gives P (bind_step r f)
    go (ok a, v) g = k a g v
    go (err e, v) g = tt

-- Where it does not matter what a step returns
any-Returns :
    {A B : Type 0} (P : B → Type 0) (m : M A) (f : A → M B)
    → ((a : A) → Returns P (f a))
    → Returns P (m >>= f)
any-Returns {A} {B} P m f k w = go (m w)
  where
    go : (r : Result A × History) → Gives P (bind_step r f)
    go (ok a, v) = k a v
    go (err e, v) = tt

then-Returns :
    {B : Type 0} (P : B → Type 0) (m : M (Unit {0})) (k : M B) → Returns P k → Returns P (m >> k)
then-Returns P m k g = any-Returns P m (λ _. k) (λ _. g)

weaken-Returns :
    {A : Type 0} (Q P : A → Type 0) (m : M A) → Returns Q m → ((a : A) → Q a → P a) → Returns P m
weaken-Returns {A} Q P m q k w = go (m w) (q w)
  where
    go : (r : Result A × History) → Gives Q r → Gives P r
    go (ok a, v) g = k a g
    go (err e, v) g = tt

wrapped-Returns :
    {A : Type 0} (P : A → Type 0) (f : Error → Error) (m : M A)
    → Returns P m
    → Returns P (with_error f m)
wrapped-Returns {A} P f m g w = go (m w) (g w)
  where
    go : (r : Result A × History) → Gives P r → Gives P (wrap_step f r)
    go (ok a, v) q = q
    go (err e, v) q = tt

-- The mounts of the runtime directory and of the init program, which `configureInit` adds
abbrev pub init_mounts : Runtime → Container → List Mount
init_mounts rt c =
    record {
      destination = ".lxcri";
      type = "bind";
      source = runtime_path c "";
      options = "bind" ∷ "ro" ∷ "nodev" ∷ "nosuid" ∷ "create=dir" ∷ [];
    }
    ∷ record {
      destination = ".lxcri/lxcri-init";
      type = "bind";
      source = libexec rt "lxcri-init";
      options = "bind" ∷ "ro" ∷ "nosuid" ∷ [];
    }
    ∷ []

-- A device of the host that is bound
abbrev device_mount : Device → Mount
device_mount d = record {
  destination = d.path;
  type = "bind";
  source = d.path;
  options = "bind" ∷ [];
}

-- The mounts where each mount of /dev became a tmpfs with the devices bound behind it.
abbrev with_devices : List Device → List Mount → List Mount
with_devices devices [] = []
with_devices devices (m ∷ ms) =
    let rest = with_devices devices ms in
    if m.destination == "/dev"
    then record m { source = "tmpfs"; type = "tmpfs" } ∷ (map device_mount devices ++ rest)
    else m ∷ rest

module _ (h : Host) where
  bind_devices-map : (ds : List Device) → bind_devices h ds ≡ map device_mount ds
  unfolding bind_devices
  bind_devices-map [] = refl
  bind_devices-map (d ∷ ds) = ap (λ l. device_mount d ∷ l) (bind_devices-map ds)

  next : String → List Device → Mount → List Mount → M (List Mount)
  next root_path devices m ms = do
    rest ← bind_mount_devices h root_path devices ms
    return (record m { source = "tmpfs"; type = "tmpfs" } ∷ (bind_devices h devices ++ rest))

  bind_mount_devices-Returns :
      (root_path : String) (devices : List Device) (mounts : List Mount)
      → Returns
          (λ l. l ≡ with_devices devices mounts)
          (bind_mount_devices h root_path devices mounts)
  unfolding bind_mount_devices next
  bind_mount_devices-Returns root_path devices [] = λ w. refl
  bind_mount_devices-Returns root_path devices (m ∷ ms) =
      let rest = bind_mount_devices-Returns root_path devices ms in
      elim (Bool-cases (m.destination == "/dev")) [
        | inr other ↦
            rw (other, bind_mount_devices)
              (>>=-Returns (λ l. l ≡ with_devices devices ms) _ _ _ rest
                (λ l e v. ap (λ l. m ∷ l) e))
        | inl dev ↦
            let tmpfs : Mount = record m { source = "tmpfs"; type = "tmpfs" } in
            rw (dev, bind_mount_devices)
              (any-Returns (λ l. l ≡ tmpfs ∷ (map device_mount devices ++ with_devices devices ms))
                (attempt (perform h (mkdir_all (join_path (root_path ∷ "/dev" ∷ [])) 493)))
                (λ made. next root_path devices m ms)
                (λ made.
                  >>=-Returns (λ l. l ≡ with_devices devices ms) _ _ _ rest
                    (λ l e v. ap₂ (λ ds l. tmpfs ∷ (ds ++ l)) (bind_devices-map devices) e)))
      ]

  configure_init-Returns :
      (rt : Runtime) (c : Container) (p : Process) (linux : Linux) (mounts : List Mount)
      → Returns (λ l. l ≡ mounts ++ init_mounts rt c) (configure_init h rt c p linux mounts)
  unfolding configure_init
  configure_init-Returns rt c p linux mounts =
      let kept : List Mount → Type 0 = (λ l. l ≡ mounts ++ init_mounts rt c) in
      let done : M (List Mount) = return (mounts ++ init_mounts rt c) in
      let cmd : M (Unit {0}) = set_item h "lxc.init.cmd" "/.lxcri/lxcri-init" in
      let touch : M (Unit {0}) =
        with_error (wrapped ("failed to create " <> runtime_path c "lxcri-init"))
          (touch_file h (runtime_path c "lxcri-init") 0) in
      let user : M (Unit {0}) = configure_init_user h rt p linux in
      let fifo : M (Unit {0}) =
        with_error (wrapped "failed to create sync fifo")
          (create_fifo h (sync_fifo_path c) (if run_as_runtime_user h p linux then 384 else 438)) in
      let cwd : M (Unit {0}) = set_item h "lxc.init.cwd" "/.lxcri" in
      then-Returns kept cwd (fifo >> (user >> (touch >> (cmd >> done)))) (
        then-Returns kept fifo (user >> (touch >> (cmd >> done))) (
          then-Returns kept user (touch >> (cmd >> done))
            (then-Returns kept touch (cmd >> done) (then-Returns kept cmd done (λ w. refl)))))

  pub configure_process-Returns :
      (uname : Result String) (rt : Runtime) (c : Container) (p : Process) (linux : Linux)
      (mounts : List Mount)
      → Returns
          (λ l. l ≡ mounts ++ init_mounts rt c)
          (configure_process h uname rt c p linux mounts)
  unfolding configure_process
  configure_process-Returns uname rt c p linux mounts =
      let kept : List Mount → Type 0 = (λ l. l ≡ mounts ++ init_mounts rt c) in
      let init : M (List Mount) =
        with_error (wrapped "failed to configure init") (configure_init h rt c p linux mounts) in
      let oom : M (Unit {0}) = configure_oom_score h p.oom_score_adj in
      let privs : M (Unit {0}) = when p.no_new_privileges (set_item h "lxc.no_new_privs" "1") in
      let apparmor : M (Unit {0}) =
        when rt.features.apparmor
          (with_error (wrapped "failed to configure apparmor") (configure_apparmor h p)) in
      let seccomp : M (Unit {0}) =
        when rt.features.seccomp (configure_seccomp h uname c linux.seccomp) in
      let caps : M (Unit {0}) =
        when rt.features.capabilities
          (with_error (wrapped "failed to configure capabilities") (configure_capabilities h p)) in
      let dev : M (Unit {0}) = set_item h "lxc.autodev" "0" in
      let with_caps : List Mount → M (List Mount) = λ l. caps >> (dev >> return l) in
      let with_seccomp : List Mount → M (List Mount) = λ l. seccomp >> with_caps l in
      let with_apparmor : List Mount → M (List Mount) = λ l. apparmor >> with_seccomp l in
      let with_privs : List Mount → M (List Mount) = λ l. privs >> with_apparmor l in
      >>=-Returns kept kept init (λ l. oom >> with_privs l)
        (wrapped-Returns kept _ _ (configure_init-Returns rt c p linux mounts))
        (λ l e. then-Returns kept oom (with_privs l) (
          then-Returns kept privs (with_apparmor l) (
            then-Returns kept apparmor (with_seccomp l) (
              then-Returns kept seccomp (with_caps l) (
                then-Returns kept caps (dev >> return l)
                  (then-Returns kept dev (return l) (λ w. e)))))))

  configure_cgroup_path-Returns :
      (rt : Runtime) (c : Container) (path : String)
      → Returns (λ c'. c'.spec ≡ c.spec) (configure_cgroup_path h rt c path)
  unfolding configure_cgroup_path split_cgroups
  configure_cgroup_path-Returns rt c path =
      let kept : Container → Type 0 = λ c'. c'.spec ≡ c.spec in
      let text = container_cgroup rt c path in
      let monitor = join_path (rt.monitor_cgroup ∷ (c.container_id <> ".scope") ∷ []) in
      let relative : M (Unit {0}) =
        set_item h "lxc.cgroup.relative" (if is_privileged h rt then "0" else "1") in
      elim (Bool-cases (splits h rt)) [
        | inl two ↦
            let pivot : M (Unit {0}) =
              when (supports_items h ("lxc.cgroup.dir.monitor.pivot" ∷ []))
                (set_item h "lxc.cgroup.dir.monitor.pivot" rt.monitor_cgroup) in
            let done : M Container =
              return (record c { cgroup_dir = text; monitor_cgroup_dir = monitor }) in
            let at : M (Unit {0}) = set_item h "lxc.cgroup.dir.monitor" monitor in
            let own : M (Unit {0}) = set_item h "lxc.cgroup.dir.container" text in
            rw (two, configure_cgroup_path)
              (then-Returns kept relative (own >> (at >> (pivot >> done))) (
                then-Returns kept own (at >> (pivot >> done)) (
                  then-Returns kept at (pivot >> done) (then-Returns kept pivot done (λ w. refl)))))
        | inr one ↦
            let own : M (Unit {0}) = set_item h "lxc.cgroup.dir" text in
            let done : M Container = return (record c { cgroup_dir = text }) in
            rw (one, configure_cgroup_path)
              (then-Returns kept relative (own >> done) (then-Returns kept own done (λ w. refl)))
      ]

  configure_cgroup-Returns :
      (cgroup_root : String) (rt : Runtime) (c : Container)
      → Returns (λ c'. c'.spec ≡ c.spec) (configure_cgroup h cgroup_root rt c)
  unfolding configure_cgroup
  configure_cgroup-Returns cgroup_root rt c =
      let kept : Container → Type 0 = λ c'. c'.spec ≡ c.spec in
      let check : Container → M (Unit {0}) = λ c'. check_cgroup h cgroup_root c'.cgroup_dir in
      let rules : Linux → M (Unit {0}) = λ linux. configure_rules h rt linux.device_rules in
      let pids : Linux → M (Unit {0}) = λ linux. configure_pids h linux.pids_limit in
      let limit : Linux → Container → M Container =
        λ linux c'. rules linux >> (pids linux >> return c') in
      any-Returns kept (lift (linux_of h c.spec.linux))
        (λ linux.
          configure_cgroup_path h rt c linux.cgroups_path >>= λ c'. check c' >> limit linux c')
        (λ linux.
          >>=-Returns kept kept (configure_cgroup_path h rt c linux.cgroups_path)
            (λ c'. check c' >> limit linux c')
            (configure_cgroup_path-Returns rt c linux.cgroups_path)
            (λ c' e. then-Returns kept (check c') (limit linux c') (
              then-Returns kept (rules linux) (pids linux >> return c')
                (then-Returns kept (pids linux) (return c') (λ w. e)))))

  -- What `configureResources` makes of the mounts, for the devices that `AllowEssentialDevices` left.
  abbrev pub HasDevices : Linux → List Mount → Container → Type 0
  HasDevices linux mounts c' =
      (devices : List Device) × (rules : List DeviceCgroup) × (allow_essential_devices linux.devices
          linux.device_rules
        ≡ ok (devices, rules))
      × (c'.spec.mounts ≡ with_devices devices mounts)

  pub configure_resources-Returns :
      (cgroup_root : String) (rt : Runtime) (c : Container) (root : Root) (linux : Linux)
      (mounts : List Mount)
      → Returns (HasDevices linux mounts) (configure_resources h cgroup_root rt c root linux mounts)
  unfolding configure_resources
  configure_resources-Returns cgroup_root rt c root linux mounts =
      go (allow_essential_devices linux.devices linux.device_rules) refl
    where
      go :
          (r : Result (List Device × List DeviceCgroup))
          → allow_essential_devices linux.devices linux.device_rules ≡ r
          → Returns
              (HasDevices linux mounts)
              (configure_resources h cgroup_root rt c root linux mounts)
      go (err x) q = rw (q, configure_resources) (λ w. tt)
      go (ok (devices, rules)) q =
          let has : Container → Type 0 = HasDevices linux mounts in
          let make : List Mount → Option Hooks → Container = λ bound hooks. record c {
            spec = record c.spec {
              mounts = bound;
              hooks = hooks;
              linux = some (record linux { devices = []; device_rules = some rules });
            };
          } in
          let cgroup : Container → M Container = λ c'.
            with_error (wrapped "failed to configure cgroups")
              (configure_cgroup h cgroup_root rt c') in
          let hooks : M Hooks = configure_hooks h (libexec rt "lxcri-hook") rt.hooks c.spec.hooks in
          let made : List Mount → M Container =
            λ bound. hooks >>= λ hs. cgroup (make bound (some hs)) in
          rw (q, configure_resources)
            (>>=-Returns (λ l. l ≡ with_devices devices mounts) has
              (bind_mount_devices h root.path devices mounts) made
              (bind_mount_devices-Returns root.path devices mounts)
              (λ bound e.
                any-Returns has hooks (λ hs. cgroup (make bound (some hs)))
                  (λ hs.
                    weaken-Returns (λ c'. c'.spec ≡ (make bound (some hs)).spec) has
                      (cgroup (make bound (some hs)))
                      (wrapped-Returns (λ c'. c'.spec ≡ (make bound (some hs)).spec) _ _
                        (configure_cgroup-Returns cgroup_root rt (make bound (some hs))))
                      (λ c' same. (devices, rules, q, ap (λ s. s.mounts) same ∙ e)))))
