-- ===== src/Runtime/Check.antt =====
-- `checkConfig` and `checkSpec` of runtime.go. They return the spec with the working directory filled
-- in. A `spec.Linux` that is nil is dereferenced, which is a panic in Go.
pub mod Sound
pub mod Gap
pub mod Free
use lxcri.Base.{
  ℕ, String, ◌≡◌, ◌≢◌, refl, sym, ◌∙◌, ap, Bool, true, false, Option, none, some, List, [], ◌∷◌,
  ◌==◌, ◌<>◌, if◌then◌else◌, Error, failed, wrapped, nil_dereference, Result, ok, err, is_empty,
  arith, eqb, ◌&&◌, eq_iff, eqb_iff, ◌⊎◌, inl, inr, Bool-cases, Option-cases, Result-cases,
}
use lxcri.Base.Host.{
  Host, M, History, FileInfo, return, throw, lift, throw_if, with_error, bind_step, >>=-eq-ok,
  ◌>>=◌, ◌>>◌,
}
use lxcri.Oci.{Spec, Process, Root, Linux, Namespace, mount_namespace, pid_namespace}
use lxcri.Namespaces.{get_namespace, is_namespace_shared_with_runtime}

-- A failed namespace test keeps only the text of its error (`%s`).
abbrev pub opaque_error : String → Error → Error
opaque_error m e = failed m

abbrev pub namespaces_of : Option Linux → Result (List Namespace)
namespaces_of none = err nil_dereference
namespaces_of (some l) = ok l.namespaces

unfoldable pub check_root : Option Root → Result (Unit {0})
check_root none = err (failed "spec.Root is nil")
check_root (some r) = if r.path == "" then err (failed "empty spec.Root.Path") else ok tt

unfoldable pub check_process : Option Process → Result Process
check_process none = err (failed "spec.Process is nil")
check_process (some p) =
    if is_empty p.args
    then err (failed "specs.Process.Args is empty")
    else ok (if p.cwd == "" then record p { cwd = "/" } else p)

-- The two namespace tests. A shared PID namespace is only logged.
unfoldable pub check_namespaces : Host → List Namespace → M (Unit {0})
check_namespaces h nss = do
  shares_mount ←
      with_error (opaque_error "failed to mount namespace")
        (is_namespace_shared_with_runtime h (get_namespace nss mount_namespace))
  throw_if shares_mount (failed "container wants to share the runtimes mount namespace")
  shares_pid ←
      with_error (opaque_error "failed to check PID namespace")
        (is_namespace_shared_with_runtime h (get_namespace nss pid_namespace))
  return tt

unfoldable pub check_spec : Host → Spec → M Spec
check_spec h spec = do
  lift (check_root spec.root)
  p ← lift (check_process spec.process)
  nss ← lift (namespaces_of spec.linux)
  check_namespaces h nss
  return (record spec { process = some p })

unfoldable pub check_config : Host → String → Spec → M Spec
check_config h container_id spec = elim (container_id == "") [
  | true ↦ throw (failed "missing container ID")
  | false ↦ check_spec h spec
]
