-- ===== src/Mounts/Free.antt =====
-- The kinds of errors of `configureMounts`.
use lxcri.Base.{
  ℕ, refl, Bool, not, ◌&&◌, ◌==◌, List, [], ◌∷◌, ◌++◌, ◌<>◌, Error, failed, wrapped, Result,
  Bool-cases, inl, inr, is_ok, contains, has_prefix,
}
use lxcri.Base.Host.{
  Host, M, FileInfo, perform, return, with_error, when, throw_if, mkdir_all, create_file,
  close_file, ◌>>=◌, ◌>>◌,
}
use lxcri.Base.Free.{
  IsForeign, Free, >>=-Free, then-Free, when-Free, throw_if-Free, perform-Free, wrapped-Free,
}
use lxcri.Base.FilePath.{dir}
use lxcri.Oci.{Mount, Root}
use lxcri.Config.{set_item}
use lxcri.Config.Free.{set_item-Free}
use lxcri.Mounts.{
  sort, as_cgroup2, is_file, resolve_mount_destination, create_mount_destination, create_at,
  configure_mount, configure_mount_list, configure_mounts, filter_mount_options, entry_text,
}

module _ {h : Host} {bad : Error → Bool} {fuel : ℕ} (f : IsForeign h bad fuel) where
  create_at-Free :
      (root : Root) (ms : Mount) (info : Result FileInfo) → Free bad (create_at h root ms info)
  create_at-Free root ms info = elim (Bool-cases (not (is_ok info) && ms.type == "bind")) [
    | inl gone ↦
        rw (gone, create_at)
          (then-Free bad
            (throw_if (not (contains ms.options "optional"))
              (failed "failed to access bind mount source"))
            (return ms) (throw_if-Free bad _ _ (f.message _)) (λ w. refl))
    | inr there ↦ elim (Bool-cases (is_file h info)) [
      | inr directory ↦
          rw (there, directory, create_at)
            (then-Free bad (when root.readonly (perform h (mkdir_all ms.destination 493)))
              (return (record ms { options = ms.options ++ ("create=dir" ∷ []) }))
              (when-Free bad _ _ (perform-Free f _)) (λ w. refl))
      | inl file ↦
          rw (there, file, create_at)
            (then-Free bad (when root.readonly make_file)
              (return (record ms { options = ms.options ++ ("create=file" ∷ []) }))
              (when-Free bad _ make_file (
                then-Free bad _ _ (wrapped-Free f _ _ (perform-Free f _))
                  (then-Free bad _ _ (wrapped-Free f _ _ (perform-Free f _)) (perform-Free f _))))
              (λ w. refl))
    ]
  ]
    where
      make_file : M (Unit {0})
      make_file = do
        with_error (wrapped "failed to create mount destination dir")
            (perform h (mkdir_all (dir ms.destination) 493))
        with_error (wrapped "failed to create file mountpoint")
            (perform h (create_file ms.destination 493))
        perform h (close_file ms.destination)

  create_mount_destination-Free :
      (root : Root) (ms : Mount) → Free bad (create_mount_destination h root ms)
  unfolding create_mount_destination
  create_mount_destination-Free root ms w = create_at-Free root ms (h.stat w ms.source) w

  configure_mount-Free : (root : Root) (m : Mount) → Free bad (configure_mount h root m)
  unfolding configure_mount
  configure_mount-Free root m w =
      let dest = resolve_mount_destination h root.path (as_cgroup2 h m).destination w in
      let escape : M (Unit {0}) = throw_if (not (has_prefix dest root.path)) (
        failed (
          "resolved mount target path " <> dest <> " escapes from container root " <> root.path)) in
      let make : M Mount =
        create_mount_destination h root (record (as_cgroup2 h m) { destination = dest }) in
      let write : Mount → M (Unit {0}) = λ ms.
        set_item h "lxc.mount.entry"
          (entry_text h (record ms { options = filter_mount_options ms.type ms.options })) in
      then-Free bad escape (make >>= write) (throw_if-Free bad _ _ (f.message _))
        (>>=-Free bad make write (create_mount_destination-Free root _) (λ ms. set_item-Free f _ _))
        w

  configure_mount_list-Free :
      (root : Root) (ms : List Mount) → Free bad (configure_mount_list h root ms)
  unfolding configure_mount_list
  configure_mount_list-Free root [] = λ w. refl
  configure_mount_list-Free root (m ∷ ms) =
      then-Free bad _ _ (configure_mount-Free root m) (configure_mount_list-Free root ms)

  pub configure_mounts-Free :
      (root : Root) (ms : List Mount) → Free bad (configure_mounts h root ms)
  unfolding configure_mounts
  configure_mounts-Free root ms =
      then-Free bad _ _ (set_item-Free f _ _) (configure_mount_list-Free root (sort ms))
