-- ===== src/Mounts/Entries.antt =====
-- What `configureMounts` writes when it succeeds.
use lxcri.Base.{
  String, ◌≡◌, refl, ap, ◌∙◌, Bool, true, false, not, ◌&&◌, ◌||◌, List, [], ◌∷◌, ◌++◌, ◌==◌, ◌<>◌,
  failed, ok, has_prefix, contains, keep_if, arith, if◌then◌else◌, join, Bool-cases, inl, inr,
}
use mathlib.Core.Path.{subst}
use lxcri.Base.Host.{Host, M, History, set_config_item, throw_if, >>=-eq-ok, ◌>>=◌, ◌>>◌}
use lxcri.Base.Calls.{Does}
use lxcri.Oci.{Mount, Root}
use lxcri.Config.{set_item, set_item-ok}
use lxcri.Mounts.{
  resolve_mount_destination, create_mount_destination, as_cgroup2, entry_text, remove_mount_options,
  filter_mount_options, configure_mount, configure_mount_list, configure_mounts, sort,
}
use lxcri.Mounts.Made.{
  Target, target_of, is_missing, create_option, target_calls, throw_if-ok,
  create_mount_destination-Made,
}

-- A mount of a cgroup file system, of which each becomes an optional one of version 2
abbrev is_cgroup : Mount → Bool
is_cgroup m = m.type == "cgroup" || m.type == "cgroup2"

abbrev final_type : Mount → String
final_type m = if is_cgroup m then "cgroup2" else m.type

abbrev final_source : Mount → String
final_source m = if is_cgroup m then "cgroup2" else m.source

abbrev asked_options : Mount → List String
asked_options m = if is_cgroup m then m.options ++ ("optional" ∷ []) else m.options

-- A tmpfs is mounted without the option tmpcopyup.
abbrev final_options : String → List String → List String
final_options type options =
    if type == "tmpfs" then keep_if (λ o. not ("tmpcopyup" == o)) options else options

-- The line of a mount table
abbrev line : String → String → String → List String → String
line source dest type options = source <> " " <> dest <> " " <> type <> " " <> join "," options

module _ (h : Host) (root : Root) where
  -- The mounts, one by one, each from the history that the one before it left. The destination of each
  -- resolves to a path that starts with the text of the root's path; it was created, if it had to be, as
  -- the source demands, and a bound source that there is not is optional; and right behind that liblxc
  -- took the line of the mount: its source, the resolved destination, its type and all its options, with
  -- the one that tells what to create.
  pub data Mounted : List Mount → History → History → Type 0 where
    all_mounted : {w : History} → Mounted [] w w
    mounted :
        {m : Mount} {ms : List Mount} {w w' : History} (target : Target) (dest : String)
        (made v : History)
        → target_of (h.stat w (final_source m)) (final_type m == "bind") ≡ target
        → resolve_mount_destination h root.path m.destination w ≡ dest
        → has_prefix dest root.path ≡ true
        → (is_missing target && not (contains (asked_options m) "optional")) ≡ false
        → Does h w (target_calls root.readonly dest target) made
        → Does h made
            (set_config_item "lxc.mount.entry" (
                line
                  (final_source m)
                  dest
                  (final_type m)
                  (final_options (final_type m) (asked_options m ++ create_option target)))
              ∷ [])
            v
        → Mounted ms v w'
        → Mounted (m ∷ ms) w w'

  remove_mount_options-keep_if :
      (options : List String)
      → remove_mount_options options ("tmpcopyup" ∷ [])
        ≡ keep_if (λ o. not ("tmpcopyup" == o)) options
  unfolding remove_mount_options
  remove_mount_options-keep_if [] = refl
  remove_mount_options-keep_if (o ∷ options) = elim (Bool-cases ("tmpcopyup" == o)) [
    | inl e ↦ rw (e, remove_mount_options) (remove_mount_options-keep_if options)
    | inr e ↦ rw (e, remove_mount_options) (ap (λ l. o ∷ l) (remove_mount_options-keep_if options))
  ]

  filter_mount_options-final :
      (type : String) (options : List String)
      → filter_mount_options type options ≡ final_options type options
  unfolding filter_mount_options
  filter_mount_options-final type options =
      ap (λ l. if type == "tmpfs" then l else options) (remove_mount_options-keep_if options)

  as_cgroup2-final :
      (m : Mount)
      → as_cgroup2 h m
        ≡ record m { type = final_type m; source = final_source m; options = asked_options m }
  unfolding as_cgroup2
  as_cgroup2-final m = elim (Bool-cases (is_cgroup m)) [
    | inl cgroup ↦ rw (cgroup, as_cgroup2) refl
    | inr other ↦ rw (other, as_cgroup2) refl
  ]

  is_true : (b : Bool) → not b ≡ false → b ≡ true
  is_true b e = ground arith

  -- One round, behind `as_cgroup2`
  abbrev round : Mount → M (Unit {0})
  round n w =
      let dest = resolve_mount_destination h root.path n.destination w in
      (throw_if (not (has_prefix dest root.path)) (
            failed (
              "resolved mount target path " <> dest <> " escapes from container root "
              <> root.path))
          >> (create_mount_destination h root (record n { destination = dest }) >>= λ m'.
              set_item h "lxc.mount.entry"
                (entry_text h (record m' { options = filter_mount_options m'.type m'.options }))))
        w

  -- What one round has done where it succeeded
  configure_mount-ok :
      (m n : Mount) (w w' : History)
      → as_cgroup2 h m ≡ n
      → configure_mount h root m w ≡ (ok tt, w')
      → let dest = resolve_mount_destination h root.path n.destination w in
        let target = target_of (h.stat w n.source) (n.type == "bind") in
        (made : History) × (has_prefix dest root.path ≡ true)
        × ((is_missing target && not (contains n.options "optional")) ≡ false)
        × Does h w (target_calls root.readonly dest target) made
        × Does h made
            (set_config_item "lxc.mount.entry" (
                line n.source dest n.type
                  (final_options n.type (n.options ++ create_option target)))
              ∷ [])
            w'
  unfolding configure_mount entry_text
  configure_mount-ok m n w w' is e =
      let dest = resolve_mount_destination h root.path n.destination w in
      let target = target_of (h.stat w n.source) (n.type == "bind") in
      let at : Mount = record n { destination = dest } in
      let filtered : Mount → Mount =
        λ m'. record m' { options = filter_mount_options m'.type m'.options } in
      let write : Mount → M (Unit {0}) =
        λ m'. set_item h "lxc.mount.entry" (entry_text h (filtered m')) in
      let escapes : M (Unit {0}) = throw_if (not (has_prefix dest root.path)) (
        failed (
          "resolved mount target path " <> dest <> " escapes from container root " <> root.path)) in
      let run : (escapes >> (create_mount_destination h root at >>= write)) w ≡ (ok tt, w') =
        subst (λ x. round x w ≡ (ok tt, w')) is e in
      let (_, w₁, inside, rest) =
        >>=-eq-ok escapes (λ _. create_mount_destination h root at >>= write) w run in
      let (m', v, created, set) = >>=-eq-ok (create_mount_destination h root at) write w₁ rest in
      let (below, quiet) = throw_if-ok (not (has_prefix dest root.path)) _ w w₁ inside in
      let (is_made, calls, optional) =
        create_mount_destination-Made h root at m' w v
          (subst (λ u. create_mount_destination h root at u ≡ (ok m', v)) quiet created) in
      let (accepted, grown) =
        set_item-ok h "lxc.mount.entry" (entry_text h (filtered m')) v w' set in
      let text : entry_text h (filtered m')
          ≡ line n.source dest n.type (final_options n.type (n.options ++ create_option target)) =
        ap (λ x. entry_text h (filtered x)) is_made
        ∙ ap (line n.source dest n.type)
            (filter_mount_options-final n.type (n.options ++ create_option target)) in
      let writes : Does h v (set_config_item "lxc.mount.entry" (entry_text h (filtered m')) ∷ [])
          w' =
        ((accepted, tt), grown) in
      (
        v,
        is_true _ below,
        optional,
        calls,
        subst (λ t. Does h v (set_config_item "lxc.mount.entry" t ∷ []) w') text writes,
      )

  configure_mount_list-ok :
      (ms : List Mount) (w w' : History)
      → configure_mount_list h root ms w ≡ (ok tt, w')
      → Mounted ms w w'
  unfolding configure_mount_list
  configure_mount_list-ok [] w w' e = subst (λ v. Mounted [] w v) (ap (λ r. r.1) e) all_mounted
  configure_mount_list-ok (m ∷ ms) w w' e =
      let (_, v, here, rest) =
        >>=-eq-ok (configure_mount h root m) (λ _. configure_mount_list h root ms) w e in
      let (made, below, optional, calls, writes) =
        configure_mount-ok m _ w v (as_cgroup2-final m) here in
      mounted _ _ made v refl refl below optional calls writes
        (configure_mount_list-ok ms v w' rest)

  -- If `configureMounts` succeeds, automatic mounts were disabled first, and then every mount was
  -- written, in the order of the destinations, each to a path that starts with the root's, with its
  -- source, its type and its options, and nothing else was done but to create their destinations
  -- (`Mounted`).
  pub configure_mounts_sound :
      (ms : List Mount) (w w' : History)
      → configure_mounts h root ms w ≡ (ok tt, w')
      → Mounted (sort ms) (w ++ (set_config_item "lxc.mount.auto" "" ∷ [])) w'
  unfolding configure_mounts
  configure_mounts_sound ms w w' e =
      let (_, v, disabled, rest) =
        >>=-eq-ok (set_item h "lxc.mount.auto" "") (λ _. configure_mount_list h root (sort ms)) w
          e in
      let (_, grown) = set_item-ok h "lxc.mount.auto" "" w v disabled in
      subst (λ u. Mounted (sort ms) u w') grown (configure_mount_list-ok (sort ms) v w' rest)
