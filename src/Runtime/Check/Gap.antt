-- ===== src/Runtime/Check/Gap.antt =====
-- The namespace test compares every namespace with the PID namespace of the runtime, so a container
-- that asks for the runtime's own mount namespace is accepted.
use lxcri.Base.{
  String, ◌≡◌, ◌≢◌, refl, ◌∙◌, ap, false, some, ◌==◌, if◌then◌else◌, ok, is_empty, arith, eq_iff,
}
use lxcri.Base.Host.{Host, History, FileInfo}
use lxcri.Oci.{Spec, Process, Root, Linux, Namespace, mount_namespace, pid_namespace}
use lxcri.Namespaces.{get_namespace, is_namespace_shared_with_runtime}
use lxcri.Runtime.Check.{check_root, check_process, check_namespaces, check_spec, check_config}

-- A spec that passes all checks but, perhaps, the one of its mount namespace `ns`.
pub record IsOtherwiseFine (id : String) (spec : Spec) (ns : Namespace) : Type 0 where
  pub has_id : id ≢ ""
  pub root : Root
  pub root_given : spec.root ≡ some root
  pub root_path : root.path ≢ ""
  pub process : Process
  pub process_given : spec.process ≡ some process
  pub has_args : is_empty process.args ≡ false
  pub linux : Linux
  pub linux_given : spec.linux ≡ some linux
  pub mount_given : get_namespace linux.namespaces mount_namespace ≡ some ns
  pub pid_ns : Namespace
  pub pid_given : get_namespace linux.namespaces pid_namespace ≡ some pid_ns
  pub pid_new : pid_ns.path ≡ ""

shared_false :
    (h : Host) (w : History) (ns : Namespace) (a b : FileInfo)
    → ns.path ≡ "/proc/self/ns/mnt"
    → h.stat w "/proc/self/ns/mnt" ≡ ok a
    → h.stat w "/proc/self/ns/pid" ≡ ok b
    → a.ino ≢ b.ino
    → is_namespace_shared_with_runtime h (some ns) w ≡ (ok false, w)
unfolding is_namespace_shared_with_runtime
shared_false h w ns a b path sa sb differ =
    let sa' : h.stat w ns.path ≡ ok a = ap (h.stat w) path ∙ sa in
    let not_empty : (ns.path == "") ≡ false = rw path refl in ground arith

shared_new :
    (h : Host) (w : History) (ns : Namespace)
    → ns.path ≡ ""
    → is_namespace_shared_with_runtime h (some ns) w ≡ (ok false, w)
unfolding is_namespace_shared_with_runtime
shared_new h w ns path = rw (path, is_namespace_shared_with_runtime) refl

-- A spec whose mount namespace is the runtime's own, by path, is accepted on every host where the
-- mount and the PID namespace of the runtime are different files, if it passes the other checks.
pub check_config_accepts_runtime_mount :
    (h : Host) (w : History) (id : String) (spec : Spec) (ns : Namespace) (a b : FileInfo)
    → IsOtherwiseFine id spec ns
    → ns.path ≡ "/proc/self/ns/mnt"
    → h.stat w "/proc/self/ns/mnt" ≡ ok a
    → h.stat w "/proc/self/ns/pid" ≡ ok b
    → a.ino ≢ b.ino
    → (spec' : Spec) × (check_config h id spec w ≡ (ok spec', w))
unfolding check_config check_spec check_root check_process check_namespaces
check_config_accepts_runtime_mount h w id spec ns a b fine path sa sb differ = (
  record spec {
    process = some (if process.cwd == "" then record process { cwd = "/" } else process);
  },
  ground (
    arith,
    eq_iff id "",
    eq_iff root.path "",
    shared_false h w ns a b path sa sb differ,
    shared_new h w fine.pid_ns fine.pid_new,
  ),
)
  where
    open fine use {root, process}
