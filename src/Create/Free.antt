-- ===== src/Create/Free.antt =====
-- The kinds of errors of the steps of `configureContainer` in create.go and init.go.
use lxcri.Base.{
  ℕ, String, refl, Bool, Option, none, some, List, [], ◌∷◌, ◌++◌, Error, failed, Bool-cases, inl,
  inr, ◌==◌,
}
use lxcri.Base.Host.{Host, M, perform, return, attempt, throw_if, mkdir_all, ◌>>=◌, ◌>>◌}
use lxcri.Base.Free.{
  IsForeign, Free, >>=-Free, then-Free, when-Free, throw_if-Free, perform-Free, wrapped-Free,
}
use lxcri.Base.FilePath.{join_path}
use lxcri.Oci.{Process, Root, Linux, Mount, Device, Rlimit, IdMapping, Namespace, uts_namespace}
use lxcri.Settings.{Runtime}
use lxcri.Config.{get_item}
use lxcri.Config.Free.{set_item-Free}
use lxcri.Namespaces.Free.{shared-Free}
use lxcri.Container.{Container}
use lxcri.Namespaces.{get_namespace}
use lxcri.Create.{
  configure_hostname, configure_rootfs, configure_init, bind_mount_devices, bind_devices,
  configure_limits, configure_readonly_paths, readonly_entries, set_hostname, shared_hostname,
  create_fifo, configure_idmaps, configure_init_user,
}

module _ {h : Host} {bad : Error → Bool} {fuel : ℕ} (f : IsForeign h bad fuel) where
  pub configure_rootfs-Free :
      (bundle : String) (root : Root) (linux : Linux)
      → Free bad (configure_rootfs h bundle root linux)
  unfolding configure_rootfs
  configure_rootfs-Free bundle root linux =
      then-Free bad _ _ (when-Free bad _ _ (perform-Free f _)) (
        then-Free bad _ _ (set_item-Free f _ _) (
          then-Free bad _ _ (set_item-Free f _ _) (
            then-Free bad _ _ (set_item-Free f _ _)
              (then-Free bad _ _ (set_item-Free f _ _) (set_item-Free f _ _)))))

  pub configure_limits-Free :
      (limits : List Rlimit) (seen : List String) → Free bad (configure_limits h seen limits)
  unfolding configure_limits
  configure_limits-Free [] seen = λ w. refl
  configure_limits-Free (limit ∷ limits) seen =
      then-Free bad _ _ (throw_if-Free bad _ _ (f.message _))
        (then-Free bad _ _ (set_item-Free f _ _) (configure_limits-Free limits _))

  readonly_entries-Free :
      (root : String) (paths : List String) → Free bad (readonly_entries h root paths)
  unfolding readonly_entries
  readonly_entries-Free root [] = λ w. refl
  readonly_entries-Free root (p ∷ paths) =
      then-Free bad _ _ (wrapped-Free f _ _ (set_item-Free f _ _))
        (readonly_entries-Free root paths)

  pub configure_readonly_paths-Free : (linux : Linux) → Free bad (configure_readonly_paths h linux)
  unfolding configure_readonly_paths get_item
  configure_readonly_paths-Free linux =
      >>=-Free bad (get_item h "lxc.rootfs.mount")
        (λ rootmnt.
          throw_if (rootmnt == "") (failed "lxc.rootfs.mount unavailable")
          >> readonly_entries h rootmnt linux.readonly_paths)
        (λ w. refl)
        (λ rootmnt.
          then-Free bad _ _ (throw_if-Free bad _ _ (f.message _))
            (readonly_entries-Free rootmnt linux.readonly_paths))

  set_hostname-Free : (path hostname : String) → Free bad (set_hostname h path hostname)
  unfolding set_hostname
  set_hostname-Free path hostname = then-Free bad _ _ (wrapped-Free f _ _ (perform-Free f _)) (
      then-Free bad _ _ (wrapped-Free f _ _ (perform-Free f _))
        (wrapped-Free f _ _ (perform-Free f _)))

  shared_hostname-Free :
      (o : Option Namespace) (hostname : String) → Free bad (shared_hostname h o hostname)
  unfolding shared_hostname
  shared_hostname-Free none hostname = λ w. refl
  shared_hostname-Free (some uts) hostname = elim (Bool-cases (uts.path == "")) [
    | inl own ↦ rw (own, shared_hostname) (λ w. refl)
    | inr given ↦
        rw (given, shared_hostname)
          (>>=-Free bad _ _ (wrapped-Free f _ _ (shared-Free f (some uts))) (λ shared.
            when-Free bad _ _ (wrapped-Free f _ _ (set_hostname-Free uts.path hostname))))
  ]

  pub configure_hostname-Free :
      (hostname : String) (nss : List Namespace) → Free bad (configure_hostname h hostname nss)
  unfolding configure_hostname
  configure_hostname-Free hostname nss = elim (Bool-cases (hostname == "")) [
    | inl unset ↦ rw (unset, configure_hostname) (λ w. refl)
    | inr given ↦
        rw (given, configure_hostname)
          (then-Free bad _ _ (set_item-Free f _ _)
            (shared_hostname-Free (get_namespace nss uts_namespace) hostname))
  ]

  configure_idmaps-Free :
      (kind : String) (ms : List IdMapping) → Free bad (configure_idmaps h kind ms)
  unfolding configure_idmaps
  configure_idmaps-Free kind [] = λ w. refl
  configure_idmaps-Free kind (m ∷ ms) =
      then-Free bad _ _ (set_item-Free f _ _) (configure_idmaps-Free kind ms)

  configure_init_user-Free :
      (rt : Runtime) (p : Process) (linux : Linux) → Free bad (configure_init_user h rt p linux)
  unfolding configure_init_user
  configure_init_user-Free rt p linux =
      then-Free bad _ _
        (when-Free bad _ _
          (then-Free bad _ _ (configure_idmaps-Free _ _) (configure_idmaps-Free _ _)))
        (then-Free bad _ _ (set_item-Free f _ _)
          (then-Free bad _ _ (set_item-Free f _ _) (when-Free bad _ _ (set_item-Free f _ _))))

  create_fifo-Free : (dst : String) (mode : ℕ) → Free bad (create_fifo h dst mode)
  unfolding create_fifo
  create_fifo-Free dst mode =
      then-Free bad _ _ (wrapped-Free f _ _ (perform-Free f _))
        (wrapped-Free f _ _ (perform-Free f _))

  pub configure_init-Free :
      (rt : Runtime) (c : Container) (p : Process) (linux : Linux) (mounts : List Mount)
      → Free bad (configure_init h rt c p linux mounts)
  unfolding configure_init
  configure_init-Free rt c p linux mounts = then-Free bad _ _ (set_item-Free f _ _) (
      then-Free bad _ _ (wrapped-Free f _ _ (create_fifo-Free _ _)) (
        then-Free bad _ _ (configure_init_user-Free rt p linux) (
          then-Free bad _ _
            (wrapped-Free f _ _ (then-Free bad _ _ (perform-Free f _) (perform-Free f _)))
            (then-Free bad _ _ (set_item-Free f _ _) (λ w. refl)))))

  next : String → List Device → Mount → List Mount → M (List Mount)
  next root_path devices m ms = do
    rest ← bind_mount_devices h root_path devices ms
    return (record m { source = "tmpfs"; type = "tmpfs" } ∷ (bind_devices h devices ++ rest))

  pub bind_mount_devices-Free :
      (root_path : String) (devices : List Device) (mounts : List Mount)
      → Free bad (bind_mount_devices h root_path devices mounts)
  unfolding bind_mount_devices next
  bind_mount_devices-Free root_path devices [] = λ w. refl
  bind_mount_devices-Free root_path devices (m ∷ ms) =
      let rest = bind_mount_devices-Free root_path devices ms in
      elim (Bool-cases (m.destination == "/dev")) [
        | inr other ↦ rw (other, bind_mount_devices) (>>=-Free bad _ _ rest (λ l w. refl))
        | inl dev ↦
            rw (dev, bind_mount_devices)
              (>>=-Free bad
                (attempt (perform h (mkdir_all (join_path (root_path ∷ "/dev" ∷ [])) 493)))
                (λ made. next root_path devices m ms) (λ w. refl)
                (λ made. >>=-Free bad _ _ rest (λ l w. refl)))
      ]
