-- ===== src/Runtime/Check/Free.antt =====
-- The kinds of errors of `checkConfig`.
use lxcri.Base.{
  ℕ, String, ◌≡◌, refl, Bool, false, Option, none, some, Error, failed, ◌==◌, Bool-cases, is_empty,
  inl, inr, List,
}
use lxcri.Base.Host.{Host, M, return, with_error, lift, throw_if, ◌>>=◌, ◌>>◌}
use lxcri.Base.Free.{bad_of, IsForeign, Free, >>=-Free, then-Free, throw_if-Free, with_error-Free}
use lxcri.Oci.{Spec, Process, Root, Namespace, mount_namespace, pid_namespace}
use lxcri.Namespaces.{get_namespace, is_namespace_shared_with_runtime}
use lxcri.Namespaces.Free.{shared-Free}
use lxcri.Runtime.Check.{
  opaque_error, check_config, check_spec, check_root, check_process, check_namespaces,
  namespaces_of,
}

module _ {h : Host} {bad : Error → Bool} {fuel : ℕ} (f : IsForeign h bad fuel) where
  check_root-good : (o : Option Root) → bad_of bad (check_root o) ≡ false
  unfolding check_root
  check_root-good none = f.message _
  check_root-good (some r) = elim (Bool-cases (r.path == "")) [
    | inl unset ↦ rw (unset, check_root) (f.message _)
    | inr given ↦ rw (given, check_root) refl
  ]

  check_process-good : (o : Option Process) → bad_of bad (check_process o) ≡ false
  unfolding check_process
  check_process-good none = f.message _
  check_process-good (some p) = elim (Bool-cases (is_empty p.args)) [
    | inl unset ↦ rw (unset, check_process) (f.message _)
    | inr given ↦ rw (given, check_process) refl
  ]

  tested-Free :
      (m : String) (o : Option Namespace)
      → Free bad (with_error (opaque_error m) (is_namespace_shared_with_runtime h o))
  tested-Free m o =
      with_error-Free bad (opaque_error m) (is_namespace_shared_with_runtime h o)
        (λ e q. f.message m) (shared-Free f o)

  check_namespaces-Free : (nss : List Namespace) → Free bad (check_namespaces h nss)
  unfolding check_namespaces
  check_namespaces-Free nss =
      let mount : M Bool =
        with_error (opaque_error "failed to mount namespace")
          (is_namespace_shared_with_runtime h (get_namespace nss mount_namespace)) in
      let pid : M Bool =
        with_error (opaque_error "failed to check PID namespace")
          (is_namespace_shared_with_runtime h (get_namespace nss pid_namespace)) in
      let refuse : Bool → M (Unit {0}) = λ shares.
        throw_if shares (failed "container wants to share the runtimes mount namespace") in
      let rest : M (Unit {0}) = pid >>= (λ shares. return tt) in
      >>=-Free bad mount (λ shares. refuse shares >> rest) (tested-Free _ _)
        (λ shares.
          then-Free bad (refuse shares) rest (throw_if-Free bad shares _ (f.message _))
            (>>=-Free bad pid (λ shares. return tt) (tested-Free _ _) (λ shares w. refl)))

  pub check_config-Free :
      (id : String) (spec : Spec)
      → bad_of bad (namespaces_of spec.linux) ≡ false
      → Free bad (check_config h id spec)
  unfolding check_config check_spec
  check_config-Free id spec has_linux =
      let end : Process → List Namespace → M Spec =
        λ p nss. check_namespaces h nss >> return (record spec { process = some p }) in
      let with_process : Process → M Spec = λ p. lift (namespaces_of spec.linux) >>= end p in
      elim (Bool-cases (id == "")) [
        | inl missing ↦ rw (missing, check_config) (λ w. f.message _)
        | inr given ↦
            rw (given, check_config)
              (then-Free bad (lift (check_root spec.root))
                (lift (check_process spec.process) >>= with_process)
                (λ w. check_root-good spec.root)
                (>>=-Free bad (lift (check_process spec.process)) with_process
                  (λ w. check_process-good spec.process)
                  (λ p.
                    >>=-Free bad (lift (namespaces_of spec.linux)) (end p) (λ w. has_linux)
                      (λ nss.
                        then-Free bad (check_namespaces h nss)
                          (return (record spec { process = some p })) (check_namespaces-Free nss)
                          (λ w. refl)))))
      ]
