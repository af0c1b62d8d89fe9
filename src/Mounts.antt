-- ===== src/Mounts.antt =====
-- mount.go: mount options, the order of mounts, and their destinations.
pub mod Resolved
pub mod Made
pub mod Entries
pub mod Free
use Prim.Native.Char.{code}
use Prim.Native.String
use lxcri.Base.{
  ℕ, String, ◌≡◌, refl, Bool, true, false, not, ◌&&◌, ◌||◌, Option, none, some, List, [], ◌∷◌, ◌++◌,
  ◌==◌, ◌<>◌, if◌then◌else◌, ltb, eqb, Error, failed, wrapped, nil_dereference, Result, ok, err,
  is_ok, contains, keep_if, has_prefix, trim_prefix, split, join,
}
use lxcri.Base.Host.{
  Host, M, History, FileInfo, mkdir_all, create_file, close_file, perform, return, throw, lift,
  query, query_result, throw_if, when, with_error, attempt, ◌>>=◌, ◌>>◌,
}
use lxcri.Base.FilePath.{join_path, dir, is_abs, clean}
use lxcri.Oci.{Mount, Root}
use lxcri.Config.{set_item}

-- `removeMountOptions`
unfoldable pub remove_mount_options : List String → List String → List String
remove_mount_options [] unsupported = []
remove_mount_options (opt ∷ opts) unsupported =
    let rest = remove_mount_options opts unsupported in
    if contains unsupported opt then rest else opt ∷ rest

-- `filterMountOptions`
unfoldable pub filter_mount_options : String → List String → List String
filter_mount_options fs opts =
    if fs == "tmpfs" then remove_mount_options opts ("tmpcopyup" ∷ []) else opts

-- `<` on strings
abbrev pub less_text : String → String → Bool
less_text s String.[] = false
less_text String.[] (String.◌∷◌ d t) = true
less_text (String.◌∷◌ c s) (String.◌∷◌ d t) =
    ltb (code c) (code d) || (eqb (code c) (code d) && less_text s t)

-- `Less` of `mounts`
unfoldable pub less : Mount → Mount → Bool
less m n = less_text m.destination n.destination

insert : Mount → List Mount → List Mount
insert m [] = m ∷ []
insert m (n ∷ ns) = let rest = insert m ns in if less n m then n ∷ rest else m ∷ (n ∷ ns)

-- `sort.Sort` by `Less`. Mounts of one destination keep their order here, while Go leaves it open.
unfoldable pub sort : List Mount → List Mount
unfolding insert
sort [] = []
sort (m ∷ ms) = insert m (sort ms)

module _ (h : Host) where
  -- What the target of a symbolic link resolves to.
  unfoldable pub link_target : String → String → String → String → String
  link_target rootfs current_path p link_dst =
      if is_abs link_dst
      then if has_prefix link_dst rootfs then p else join_path (rootfs ∷ link_dst ∷ [])
      else clean (join_path (current_path ∷ link_dst ∷ []))

  -- `resolvePathRelative`: the path, and the error behind which resolution ends
  unfoldable pub resolve_path_relative : String → String → String → History → String × Option Error
  resolve_path_relative rootfs current_path sub_path w =
      let p = join_path (current_path ∷ sub_path ∷ []) in
      elim (h.is_symlink w p) [
        | err e ↦ (p, some e)
        | ok false ↦ (p, none)
        | ok true ↦ elim (h.read_link w p) [
          | err e ↦ (p, some e)
          | ok link_dst ↦ (link_target rootfs current_path p link_dst, none)
        ]
      ]

  -- The loop of `resolveMountDestination`
  unfoldable pub resolve_entries : String → String → List String → History → String
  resolve_entries rootfs current_path [] w = current_path
  resolve_entries rootfs current_path (entry ∷ entries) w =
      next (resolve_path_relative rootfs current_path entry w)
        (λ current_path. resolve_entries rootfs current_path entries w)
    where
      next : String × Option Error → (String → String) → String
      next (p, none) continue = continue p
      next (p, some e) continue = join_path (p ∷ join_path entries ∷ [])

  -- `resolveMountDestination`, whose error is only logged
  unfoldable pub resolve_mount_destination : String → String → History → String
  resolve_mount_destination rootfs dst =
      resolve_entries rootfs rootfs (split b'/' (trim_prefix dst "/"))

  abbrev pub is_file : Result FileInfo → Bool
  is_file (ok info) = not info.is_dir
  is_file (err e) = false

  -- `createMountDestination`: the mount with its new option, from what is known of its source
  abbrev pub create_at : Root → Mount → Result FileInfo → M Mount
  create_at root ms info = elim (not (is_ok info) && ms.type == "bind") [
    | true ↦ do
      throw_if (not (contains ms.options "optional")) (failed "failed to access bind mount source")
      return ms
    | false ↦ elim (is_file info) [
      | false ↦ do
        when root.readonly (perform h (mkdir_all ms.destination 493))
        return (record ms { options = ms.options ++ ("create=dir" ∷ []) })
      | true ↦ do
        when root.readonly (do
          with_error (wrapped "failed to create mount destination dir")
              (perform h (mkdir_all (dir ms.destination) 493))
          with_error (wrapped "failed to create file mountpoint")
              (perform h (create_file ms.destination 493))
          perform h (close_file ms.destination))
        return (record ms { options = ms.options ++ ("create=file" ∷ []) })
    ]
  ]

  -- `createMountDestination`
  unfoldable pub create_mount_destination : Root → Mount → M Mount
  create_mount_destination root ms = do
    info ← attempt (query_result (λ w. h.stat w ms.source))
    create_at root ms info

  -- A mount of the cgroup file system, of either version
  unfoldable pub as_cgroup2 : Mount → Mount
  as_cgroup2 ms =
      if ms.type == "cgroup" || ms.type == "cgroup2"
      then record ms {
        type = "cgroup2";
        source = "cgroup2";
        options = ms.options ++ ("optional" ∷ []);
      }
      else ms

  unfoldable pub entry_text : Mount → String
  entry_text ms = ms.source <> " " <> ms.destination <> " " <> ms.type <> " " <> join "," ms.options

  -- One round of the loop of `configureMounts`
  unfoldable pub configure_mount : Root → Mount → M (Unit {0})
  configure_mount root m = do
    mount_dest ← query (resolve_mount_destination root.path (as_cgroup2 m).destination)
    throw_if (not (has_prefix mount_dest root.path)) (
        failed (
          "resolved mount target path " <> mount_dest <> " escapes from container root "
          <> root.path))
    ms ← create_mount_destination root (record (as_cgroup2 m) { destination = mount_dest })
    set_item h "lxc.mount.entry"
        (entry_text (record ms { options = filter_mount_options ms.type ms.options }))

  unfoldable pub configure_mount_list : Root → List Mount → M (Unit {0})
  configure_mount_list root [] = return tt
  configure_mount_list root (m ∷ ms) = do configure_mount root m; configure_mount_list root ms

  -- `configureMounts`
  unfoldable pub configure_mounts : Root → List Mount → M (Unit {0})
  configure_mounts root ms = do set_item h "lxc.mount.auto" ""; configure_mount_list root (sort ms)

options_test :
    filter_mount_options "tmpfs" ("rprivate" ∷ "tmpcopyup" ∷ "ro" ∷ []) ≡ "rprivate" ∷ "ro" ∷ []
unfolding filter_mount_options remove_mount_options
options_test = refl
