-- ===== src/Create.antt =====
-- create.go and init.go: the steps by which `configureContainer` turns a spec into configuration items.
pub mod Limits
pub mod Userns
pub mod Unshared
pub mod Configure
pub mod Kept
pub mod Sound
pub mod Instance
pub mod Started
pub mod Created
pub mod Free
pub mod Steps
pub mod Ends
pub mod Returns
pub mod Total
use lxcri.Base.{
  ℕ, String, ◌≡◌, refl, Bool, true, false, not, ◌&&◌, ◌||◌, Option, none, some, List, [], ◌∷◌, ◌++◌,
  ◌==◌, ◌<>◌, if◌then◌else◌, eqb, Error, failed, wrapped, Result, ok, err, contains, map, join,
  decimal, to_lower, trim_prefix, trim_left, is_empty,
}
use lxcri.Base.Host.{
  Host, M, History, chmod, mkfifo, create_file, close_file, mkdir_all, sethostname, open_read,
  perform, return, throw, lift, query, throw_if, when, with_error, attempt, ◌>>=◌, ◌>>◌,
}
use lxcri.Base.FilePath.{join_path, is_abs}
use lxcri.Oci.{
  Spec, Process, Root, Linux, Mount, Device, Rlimit, IdMapping, Namespace, User, uts_namespace,
}
use lxcri.Settings.{Runtime, libexec}
use lxcri.Config.{set_item, get_item, supports_items}
use lxcri.Container.{Container, runtime_path, sync_fifo_path}
use lxcri.Specki.IdMap.{unmap_container_id}
use lxcri.Namespaces.{get_namespace, is_namespace_shared_with_runtime}

module _ (h : Host) where
  -- `configureRootfs`; the mode 0777 is 511
  unfoldable pub configure_rootfs : String → Root → Linux → M (Unit {0})
  configure_rootfs bundle_path root linux = do
    let rootfs = if is_abs root.path then root.path else join_path (bundle_path ∷ root.path ∷ [])
    when (not (eqb h.uid 0)) (perform h (chmod rootfs 511))
    set_item h "lxc.rootfs.path" rootfs
    set_item h "lxc.rootfs.mount" rootfs
    set_item h "lxc.rootfs.managed" "0"
    set_item h "lxc.ephemeral" "0"
    set_item h "lxc.rootfs.options" (
        join "," (
          (if linux.rootfs_propagation == "" then [] else linux.rootfs_propagation ∷ [])
          ++ (if root.readonly then "ro" ∷ [] else [])))

  unfoldable pub readonly_entries : String → List String → M (Unit {0})
  readonly_entries rootmnt [] = return tt
  readonly_entries rootmnt (p ∷ paths) = do
    with_error (wrapped "failed to make path readonly") (
        set_item h "lxc.mount.entry"
          (join_path (rootmnt ∷ p ∷ []) <> " " <> trim_prefix p "/" <> " bind bind,ro,optional"))
    readonly_entries rootmnt paths

  -- `configureReadonlyPaths`
  unfoldable pub configure_readonly_paths : Linux → M (Unit {0})
  configure_readonly_paths linux = do
    rootmnt ← get_item h "lxc.rootfs.mount"
    throw_if (rootmnt == "") (failed "lxc.rootfs.mount unavailable")
    readonly_entries rootmnt linux.readonly_paths

  -- `configureApparmor`
  unfoldable pub configure_apparmor : Process → M (Unit {0})
  configure_apparmor p =
      set_item h "lxc.apparmor.profile"
        (if p.apparmor_profile == "" then "unconfined" else p.apparmor_profile)

  keep_caps : Option (List String) → String
  keep_caps none = "none"
  keep_caps (some []) = "none"
  keep_caps (some (cap ∷ caps)) = join " " (map (λ c. trim_prefix (to_lower c) "cap_") (cap ∷ caps))

  -- `configureCapabilities`
  unfoldable pub configure_capabilities : Process → M (Unit {0})
  unfolding keep_caps
  configure_capabilities p = set_item h "lxc.cap.keep" (keep_caps p.capabilities)

  -- `setHostname` of namespaces.go; setns(2) and sethostname(2) are one call
  unfoldable pub set_hostname : String → String → M (Unit {0})
  set_hostname ns_path hostname = do
    with_error (wrapped ("failed to open container uts namespace " <> ns_path))
        (perform h (open_read ns_path))
    with_error (wrapped "failed to open uts namespace ") (perform h (open_read "/proc/self/ns/uts"))
    with_error (wrapped "unix.Sethostname failed") (perform h (sethostname ns_path hostname))

  unfoldable pub shared_hostname : Option Namespace → String → M (Unit {0})
  shared_hostname none hostname = return tt
  shared_hostname (some uts) hostname = elim (uts.path == "") [
    | true ↦ return tt
    | false ↦ do
      shared ←
          with_error (wrapped "failed to check if uts namespace is shared with host")
            (is_namespace_shared_with_runtime h (some uts))
      when (not shared)
          (with_error (wrapped "failed  to set hostname") (set_hostname uts.path hostname))
  ]

  -- `configureHostname`
  unfoldable pub configure_hostname : String → List Namespace → M (Unit {0})
  unfolding shared_hostname
  configure_hostname hostname nss = elim (hostname == "") [
    | true ↦ return tt
    | false ↦ do
      set_item h "lxc.uts.name" hostname
      shared_hostname (get_namespace nss uts_namespace) hostname
  ]

  -- The loop over the resource limits, with the names seen so far
  unfoldable pub configure_limits : List String → List Rlimit → M (Unit {0})
  configure_limits seen [] = return tt
  configure_limits seen (limit ∷ limits) = do
    let name = trim_prefix (to_lower limit.type) "rlimit_"
    throw_if (contains seen name) (failed ("duplicate resource limit " <> limit.type))
    set_item h ("lxc.prlimit." <> name) (decimal limit.soft <> ":" <> decimal limit.hard)
    configure_limits (name ∷ seen) limits

  -- `createFifo`
  unfoldable pub create_fifo : String → ℕ → M (Unit {0})
  create_fifo dst mode = do
    with_error (wrapped ("mkfifo dst:" <> dst <> " failed")) (perform h (mkfifo dst mode))
    with_error (wrapped "chmod mkfifo failed") (perform h (chmod dst mode))

  -- `runAsRuntimeUser`
  unfoldable pub run_as_runtime_user : Process → Linux → Bool
  run_as_runtime_user p linux = eqb (unmap_container_id p.user.uid linux.uid_mappings) h.uid

  unfoldable pub configure_idmaps : String → List IdMapping → M (Unit {0})
  configure_idmaps kind [] = return tt
  configure_idmaps kind (m ∷ ms) = do
    set_item h "lxc.idmap"
        (kind <> " " <> decimal m.container_id <> " " <> decimal m.host_id <> " " <> decimal m.size)
    configure_idmaps kind ms

  -- `configureInitUser`
  unfoldable pub configure_init_user : Runtime → Process → Linux → M (Unit {0})
  configure_init_user rt p linux = do
    when (not rt.userns_configured)
        (do configure_idmaps "u" linux.uid_mappings; configure_idmaps "g" linux.gid_mappings)
    set_item h "lxc.init.uid" (decimal p.user.uid)
    set_item h "lxc.init.gid" (decimal p.user.gid)
    when (not (is_empty p.user.additional_gids) && supports_items h ("lxc.init.groups" ∷ []))
        (set_item h "lxc.init.groups" (join "," (map decimal p.user.additional_gids)))

  bind : String → String → List String → Mount
  bind source destination options = record {
    destination = destination;
    type = "bind";
    source = source;
    options = options;
  }

  -- `touchFile`
  abbrev pub touch_file : String → ℕ → M (Unit {0})
  touch_file file_path perm = do
    perform h (create_file file_path perm)
    perform h (close_file file_path)

  -- `configureInit`: the mounts with the two for the init process behind. The modes 0600 and 0666 are
  -- 384 and 438.
  unfoldable pub configure_init :
      Runtime → Container → Process → Linux → List Mount → M (List Mount)
  unfolding bind
  configure_init rt c p linux mounts = do
    set_item h "lxc.init.cwd" "/.lxcri"
    with_error (wrapped "failed to create sync fifo")
        (create_fifo (sync_fifo_path c) (if run_as_runtime_user p linux then 384 else 438))
    configure_init_user rt p linux
    with_error (wrapped ("failed to create " <> runtime_path c "lxcri-init"))
        (touch_file (runtime_path c "lxcri-init") 0)
    set_item h "lxc.init.cmd" "/.lxcri/lxcri-init"
    return (
        mounts
        ++ (bind (runtime_path c "") (trim_left b'/' "/.lxcri")
              ("bind" ∷ "ro" ∷ "nodev" ∷ "nosuid" ∷ "create=dir" ∷ [])
            ∷ bind (libexec rt "lxcri-init") (trim_left b'/' "/.lxcri/lxcri-init")
                ("bind" ∷ "ro" ∷ "nosuid" ∷ [])
            ∷ []))

  unfoldable pub bind_devices : List Device → List Mount
  unfolding bind
  bind_devices [] = []
  bind_devices (d ∷ ds) = bind d.path d.path ("bind" ∷ []) ∷ bind_devices ds

  -- `bindMountDevices`: a mount of /dev becomes a tmpfs with the devices bound behind it, the other
  -- mounts are kept. An error of mkdir(2) is dropped.
  unfoldable pub bind_mount_devices : String → List Device → List Mount → M (List Mount)
  unfolding bind_devices
  bind_mount_devices root_path devices [] = return []
  bind_mount_devices root_path devices (m ∷ ms) = elim (m.destination == "/dev") [
    | false ↦ do rest ← bind_mount_devices root_path devices ms; return (m ∷ rest)
    | true ↦ do
      made ← attempt (perform h (mkdir_all (join_path (root_path ∷ "/dev" ∷ [])) 493))
      rest ← bind_mount_devices root_path devices ms
      return (record m { source = "tmpfs"; type = "tmpfs" } ∷ (bind_devices devices ++ rest))
  ]
