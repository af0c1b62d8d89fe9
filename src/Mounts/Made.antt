-- ===== src/Mounts/Made.antt =====
-- What `createMountDestination` does and adds, by what the source of the mount is.
use lxcri.Base.{
  String, ◌≡◌, refl, sym, ◌∙◌, ap, Bool, true, false, not, ◌&&◌, List, [], ◌∷◌, ◌++◌, ◌==◌, Error,
  failed, wrapped, Result, ok, err, contains, Bool-cases, inl, inr, append-nil, if◌then◌else◌,
}
use mathlib.Core.Path.{subst}
use lxcri.Base.Host.{
  Host, M, History, Call, FileInfo, mkdir_all, create_file, close_file, perform, throw_if, when,
  with_error, return, >>=-eq-ok, ◌>>◌,
}
use lxcri.Base.Calls.{Does, then-Does, perform-Does, wrapped-Does, return-ok}
use lxcri.Base.FilePath.{dir}
use lxcri.Oci.{Mount, Root}
use lxcri.Mounts.{create_at, create_mount_destination}

-- What is to be mounted: a bound path that there is not, a directory or a file system, or a file.
pub data Target : Type 0 where
  missing : Target
  directory : Target
  file : Target

abbrev pub target_of : Result FileInfo → Bool → Target
target_of (err e) true = missing
target_of (err e) false = directory
target_of (ok info) is_bind = if info.is_dir then directory else file

abbrev pub is_missing : Target → Bool
is_missing missing = true
is_missing directory = false
is_missing file = false

-- The option that tells liblxc what to create
abbrev pub create_option : Target → List String
create_option missing = []
create_option directory = "create=dir" ∷ []
create_option file = "create=file" ∷ []

-- The calls that create the destination in a root that liblxc cannot write to
abbrev pub target_calls : Bool → String → Target → List Call
target_calls readonly dest missing = []
target_calls readonly dest directory = if readonly then mkdir_all dest 493 ∷ [] else []
target_calls readonly dest file =
    if readonly then mkdir_all (dir dest) 493 ∷ create_file dest 493 ∷ close_file dest ∷ [] else []

pub throw_if-ok :
    (b : Bool) (e : Error) (w v : History) → throw_if b e w ≡ (ok tt, v) → (b ≡ false) × (v ≡ w)
throw_if-ok true e w v h = absurd cc
throw_if-ok false e w v h = (refl, ap (λ r. r.1) (sym h))

module _ (h : Host) where
  -- The destination was created as the target demands, which the options of the mount tell.
  abbrev pub Made : Bool → Mount → Mount → History → History → Target → Type 0
  Made readonly ms m' w v target =
      (m' ≡ record ms { options = ms.options ++ create_option target })
      × Does h w (target_calls readonly ms.destination target) v
      × ((is_missing target && not (contains ms.options "optional")) ≡ false)

  missing-Made :
      (readonly : Bool) (ms m' : Mount) (x : Error) (w v : History)
      → (throw_if (not (contains ms.options "optional")) x >> return ms) w ≡ (ok m', v)
      → Made readonly ms m' w v missing
  missing-Made readonly ms m' x w v e =
      let check : M (Unit {0}) = throw_if (not (contains ms.options "optional")) x in
      let (_, u, checked, e₁) = >>=-eq-ok check (λ _. return ms) w e in
      let (optional, quiet) = throw_if-ok (not (contains ms.options "optional")) x w u checked in
      let (same, here) = return-ok ms m' u v e₁ in
      (
        sym same ∙ ap (λ l. record ms { options = l }) (sym (append-nil ms.options)),
        (tt, sym here ∙ quiet ∙ sym (append-nil w)),
        optional,
      )

  directory-Made :
      (readonly : Bool) (ms m' : Mount) (w v : History)
      → (when readonly (perform h (mkdir_all ms.destination 493))
            >> return (record ms { options = ms.options ++ ("create=dir" ∷ []) }))
          w
        ≡ (ok m', v)
      → Made readonly ms m' w v directory
  directory-Made false ms m' w v e =
      let (same, here) =
        return-ok (record ms { options = ms.options ++ ("create=dir" ∷ []) }) m' w v e in
      (sym same, (tt, sym here ∙ sym (append-nil w)), refl)
  directory-Made true ms m' w v e =
      let last : Mount = record ms { options = ms.options ++ ("create=dir" ∷ []) } in
      let (_, u, made, e₁) =
        >>=-eq-ok (perform h (mkdir_all ms.destination 493)) (λ _. return last) w e in
      let (same, here) = return-ok last m' u v e₁ in
      (
        sym same,
        subst (Does h w (mkdir_all ms.destination 493 ∷ [])) here
            (perform-Does h (mkdir_all ms.destination 493) w u made),
        refl,
      )

  file-Made :
      (readonly : Bool) (ms m' : Mount) (w v : History)
      → (when readonly (
              with_error
                (wrapped "failed to create mount destination dir")
                (perform h (mkdir_all (dir ms.destination) 493))
              >> (with_error
                    (wrapped "failed to create file mountpoint")
                    (perform h (create_file ms.destination 493))
                  >> perform h (close_file ms.destination)))
            >> return (record ms { options = ms.options ++ ("create=file" ∷ []) }))
          w
        ≡ (ok m', v)
      → Made readonly ms m' w v file
  file-Made false ms m' w v e =
      let (same, here) =
        return-ok (record ms { options = ms.options ++ ("create=file" ∷ []) }) m' w v e in
      (sym same, (tt, sym here ∙ sym (append-nil w)), refl)
  file-Made true ms m' w v e =
      let last : Mount = record ms { options = ms.options ++ ("create=file" ∷ []) } in
      let make : M (Unit {0}) =
        with_error (wrapped "failed to create mount destination dir")
          (perform h (mkdir_all (dir ms.destination) 493)) in
      let create : M (Unit {0}) =
        with_error (wrapped "failed to create file mountpoint")
          (perform h (create_file ms.destination 493)) in
      let close : M (Unit {0}) = perform h (close_file ms.destination) in
      let (_, u, done, e₁) = >>=-eq-ok (make >> (create >> close)) (λ _. return last) w e in
      let (_, u₁, made, e₂) = >>=-eq-ok make (λ _. create >> close) w done in
      let (_, u₂, created, closed) = >>=-eq-ok create (λ _. close) u₁ e₂ in
      let (same, here) = return-ok last m' u v e₁ in
      (
        sym same,
        subst
            (Does h w (
              mkdir_all (dir ms.destination) 493
              ∷ create_file ms.destination 493
              ∷ close_file ms.destination
              ∷ []))
            here
            (then-Does h w u₁ u (mkdir_all (dir ms.destination) 493 ∷ []) _
              (wrapped-Does h (wrapped "failed to create mount destination dir") _ w u₁ made)
              (then-Does h u₁ u₂ u (create_file ms.destination 493 ∷ []) _
                (wrapped-Does h (wrapped "failed to create file mountpoint") _ u₁ u₂ created)
                (perform-Does h (close_file ms.destination) u₂ u closed))),
        refl,
      )

  create_at-Made :
      (root : Root) (ms m' : Mount) (info : Result FileInfo) (w v : History)
      → create_at h root ms info w ≡ (ok m', v)
      → Made root.readonly ms m' w v (target_of info (ms.type == "bind"))
  create_at-Made root ms m' (err x) w v e = elim (Bool-cases (ms.type == "bind")) [
    | inl bind ↦ rw bind (
        missing-Made root.readonly ms m' (failed "failed to access bind mount source") w v
          (sym (rw (bind, create_at) refl) ∙ e))
    | inr other ↦
        rw other (directory-Made root.readonly ms m' w v (sym (rw (other, create_at) refl) ∙ e))
  ]
  create_at-Made root ms m' (ok info) w v e = elim (Bool-cases info.is_dir) [
    | inl is_dir ↦
        rw is_dir (directory-Made root.readonly ms m' w v (sym (rw (is_dir, create_at) refl) ∙ e))
    | inr is_file ↦
        rw is_file (file-Made root.readonly ms m' w v (sym (rw (is_file, create_at) refl) ∙ e))
  ]

  pub create_mount_destination-Made :
      (root : Root) (ms m' : Mount) (w v : History)
      → create_mount_destination h root ms w ≡ (ok m', v)
      → Made root.readonly ms m' w v (target_of (h.stat w ms.source) (ms.type == "bind"))
  unfolding create_mount_destination
  create_mount_destination-Made root ms m' w v e =
      create_at-Made root ms m' (h.stat w ms.source) w v e
