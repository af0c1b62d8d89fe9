-- ===== src/Seccomp/Free.antt =====
-- The kinds of errors of `writeSeccompProfile`.
use lxcri.Base.{
  ℕ, String, ◌≡◌, refl, Bool, false, List, [], ◌∷◌, ◌<>◌, Error, failed, wrapped, Result, ok, err,
  inl, inr, Option-cases, arith,
}
use lxcri.Base.Host.{
  Host, M, perform, lift, with_error, create_file, write_text, sync_file, ◌>>=◌, ◌>>◌,
}
use lxcri.Base.Free.{
  bad_of, IsForeign, Free, >>=-Free, lift-Free, then-Free, perform-Free, wrapped-Free,
}
use lxcri.Oci.{SeccompProfile, Syscall}
use lxcri.Seccomp.{
  default_action, seccomp_action, seccomp_archs, write_names, write_syscalls, write_archs, prepend,
  then_text, write_seccomp_profile,
}

module _ {h : Host} {bad : Error → Bool} {fuel : ℕ} (f : IsForeign h bad fuel) where
  prepend-good :
      (t : String) (r : Result String) → bad_of bad r ≡ false → bad_of bad (prepend t r) ≡ false
  prepend-good t (ok s) q = refl
  prepend-good t (err e) q = q

  then_text-good :
      (r s : Result String)
      → bad_of bad r ≡ false
      → bad_of bad s ≡ false
      → bad_of bad (then_text r s) ≡ false
  then_text-good (ok t) s q k = prepend-good t s k
  then_text-good (err e) s q k = q

  write_names-good :
      (sc : Syscall) (names : List String) → bad_of bad (write_names sc names) ≡ false
  unfolding write_names
  write_names-good sc [] = refl
  write_names-good sc (name ∷ names) =
      let rest = write_names-good sc names in
      elim (Option-cases (seccomp_action sc.action)) [
        | inl unknown ↦ rw (unknown, write_names) (f.message _)
        | inr (action, known) ↦ rw (known, write_names) (prepend-good _ _ rest)
      ]

  write_syscalls-good : (scs : List Syscall) → bad_of bad (write_syscalls scs) ≡ false
  unfolding write_syscalls
  write_syscalls-good [] = refl
  write_syscalls-good (sc ∷ scs) =
      then_text-good _ _ (write_names-good sc sc.names) (write_syscalls-good scs)

  write_archs-good :
      (scs : List Syscall) (archs : List String) → bad_of bad (write_archs scs archs) ≡ false
  unfolding write_archs
  write_archs-good scs [] = refl
  write_archs-good scs (arch ∷ archs) =
      then_text-good _ _ (prepend-good ("[" <> arch <> "]\n") _ (write_syscalls-good scs))
        (write_archs-good scs archs)

  default_action-good : (profile : SeccompProfile) → bad_of bad (default_action profile) ≡ false
  unfolding default_action
  default_action-good profile =
      let refused : bad (failed ("unsupported seccomp default action " <> profile.default_action))
          ≡ false =
        f.message _ in
      ground arith

  archs-good :
      (uname : Result String) (profile : SeccompProfile)
      → bad_of bad uname ≡ false
      → bad_of bad (seccomp_archs uname profile) ≡ false
  unfolding seccomp_archs
  archs-good (ok native) profile q = refl
  archs-good (err e) profile q = q

  pub write_seccomp_profile-Free :
      (uname : Result String) (path : String) (profile : SeccompProfile)
      → bad_of bad uname ≡ false
      → Free bad (write_seccomp_profile h uname path profile)
  unfolding write_seccomp_profile
  write_seccomp_profile-Free uname path profile known =
      let create : M (Unit {0}) = perform h (create_file path 288) in
      let archs : M (List String) =
        with_error (wrapped "failed to detect platform architecture")
          (lift (seccomp_archs uname profile)) in
      let write : String → String → M (Unit {0}) = λ action sections.
        perform h (write_text path ("2\nallowlist " <> action <> "\n" <> sections))
        >> perform h (sync_file path) in
      let sections : String → List String → M (Unit {0}) =
        λ action names. lift (write_archs profile.syscalls names) >>= write action in
      let rest : String → M (Unit {0}) = λ action. archs >>= sections action in
      then-Free bad create (lift (default_action profile) >>= rest) (perform-Free f _) (
        >>=-Free bad (lift (default_action profile)) rest
          (lift-Free bad _ (default_action-good profile))
          (λ action.
            >>=-Free bad archs (sections action)
              (wrapped-Free f _ (lift (seccomp_archs uname profile))
                (lift-Free bad _ (archs-good uname profile known)))
              (λ names.
                >>=-Free bad (lift (write_archs profile.syscalls names)) (write action)
                  (lift-Free bad _ (write_archs-good profile.syscalls names))
                  (λ text. then-Free bad _ _ (perform-Free f _) (perform-Free f _)))))
