-- ===== src/Runtime/Check/Sound.antt =====
-- What `checkConfig` has established of a spec that it accepts.
use lxcri.Base.{
  String, ◌≡◌, ◌≢◌, refl, Bool, true, false, Option, none, some, List, [], ◌==◌, if◌then◌else◌,
  Result, ok, err, arith, eqb, ◌&&◌, eq_iff, ◌⊎◌, inl, inr, Bool-cases, Option-cases, Result-cases,
}
use lxcri.Base.Host.{Host, History, FileInfo}
use lxcri.Oci.{Spec, Process, Root, Linux, Namespace, mount_namespace, pid_namespace}
use lxcri.Namespaces.{get_namespace, is_namespace_shared_with_runtime}
use lxcri.Runtime.Check.{check_root, check_process, check_namespaces, check_spec, check_config}

-- The namespace is private to the container: it is new, or another file than the runtime's PID
-- namespace.
abbrev IsTested : Host → History → Namespace → Type 0
IsTested h w ns =
    (ns.path ≡ "")
    ⊎ ((a b : FileInfo) × (h.stat w ns.path ≡ ok a)
        × (h.stat w "/proc/self/ns/pid" ≡ ok b)
        × ((eqb a.dev b.dev && eqb a.ino b.ino) ≡ false))

-- What `checkConfig` has found out of a spec that it returns.
pub record IsChecked (h : Host) (w : History) (id : String) (before after : Spec) : Type 0 where
  pub has_id : id ≢ ""
  pub root : Root
  pub root_given : before.root ≡ some root
  pub root_path : root.path ≢ ""
  pub process : Process
  pub process_given : before.process ≡ some process
  pub has_args : process.args ≢ []
  pub after_is : after ≡ record before {
    process = some (if process.cwd == "" then record process { cwd = "/" } else process);
  }
  pub linux : Linux
  pub linux_given : before.linux ≡ some linux
  pub mount_ns : Namespace
  pub mount_given : get_namespace linux.namespaces mount_namespace ≡ some mount_ns
  pub mount_tested : IsTested h w mount_ns

private_lem :
    (h : Host) (o : Option Namespace) (w w' : History)
    → is_namespace_shared_with_runtime h o w ≡ (ok false, w')
    → (ns : Namespace) × (o ≡ some ns) × IsTested h w ns × (w' ≡ w)
unfolding is_namespace_shared_with_runtime
private_lem h none w w' e = cc
private_lem h (some ns) w w' e = elim (Bool-cases (ns.path == "")) [
  | inl new ↦ (ns, refl, inl ((eq_iff _ _).0 new), ground arith)
  | inr path ↦ elim (Result-cases (h.stat w ns.path)) [
    | inl (a, sa) ↦ elim (Result-cases (h.stat w "/proc/self/ns/pid")) [
      | inl (b, sb) ↦ (ns, refl, inr (a, b, sa, sb, ground arith), ground arith)
      | inr (x, sb) ↦ absurd (ground arith)
    ]
    | inr (x, sa) ↦ absurd (ground arith)
  ]
]

history_lem :
    (h : Host) (o : Option Namespace) (w : History) → (is_namespace_shared_with_runtime h o w).1 ≡ w
unfolding is_namespace_shared_with_runtime
history_lem h none w = refl
history_lem h (some ns) w = ground arith

root_lem : (o : Option Root) → check_root o ≡ ok tt → (r : Root) × (o ≡ some r) × (r.path ≢ "")
unfolding check_root
root_lem none e = cc
root_lem (some r) e = (r, refl, λ p. ground (arith, eq_iff r.path ""))

process_lem :
    (o : Option Process) (p : Process)
    → check_process o ≡ ok p
    → (q : Process) × (o ≡ some q)
      × (q.args ≢ [])
      × (p ≡ (if q.cwd == "" then record q { cwd = "/" } else q))
unfolding check_process
process_lem none p e = cc
process_lem (some q) p e = (q, refl, λ a. ground arith, ground arith)

check_namespaces_sound :
    (h : Host) (nss : List Namespace) (w : History)
    → (check_namespaces h nss w).0 ≡ ok tt
    → (is_namespace_shared_with_runtime h (get_namespace nss mount_namespace) w ≡ (ok false, w))
      × ((check_namespaces h nss w).1 ≡ w)
unfolding check_namespaces
check_namespaces_sound h nss w e =
    go (is_namespace_shared_with_runtime h (get_namespace nss mount_namespace) w) refl e
  where
    go :
        (r : Result Bool × History)
        → is_namespace_shared_with_runtime h (get_namespace nss mount_namespace) w ≡ r
        → (check_namespaces h nss w).0 ≡ ok tt
        → (is_namespace_shared_with_runtime h (get_namespace nss mount_namespace) w ≡ (ok false, w))
          × ((check_namespaces h nss w).1 ≡ w)
    go (ok true, w₁) r e = absurd (ground arith)
    go (err x, w₁) r e = absurd (ground arith)
    go (ok false, w₁) r e = (
      ground (arith, history_lem h (get_namespace nss mount_namespace) w),
      ground (
        arith,
        history_lem h (get_namespace nss mount_namespace) w,
        history_lem h (get_namespace nss pid_namespace) w,
      ),
    )

-- If `checkConfig` returns a spec, then the container ID, the root path and the argument list are not
-- empty; the spec differs from the given one at most in the working directory of the process, which
-- is `/` where it was empty; and the spec has a mount namespace that is new or whose file is not that
-- of the PID namespace of the runtime. Nothing was changed on the host.
pub check_config_sound :
    (h : Host) (id : String) (spec spec' : Spec) (w w' : History)
    → check_config h id spec w ≡ (ok spec', w')
    → IsChecked h w id spec spec' × (w' ≡ w)
unfolding check_config check_spec
check_config_sound h id spec spec' w w' e = elim (Bool-cases (id == "")) [
  | inl empty ↦ absurd (ground arith)
  | inr has_id ↦ elim (Result-cases (check_root spec.root)) [
    | inr (x, er) ↦ absurd (ground arith)
    | inl (_, er) ↦ elim (Result-cases (check_process spec.process)) [
      | inr (x, ep) ↦ absurd (ground arith)
      | inl (p, ep) ↦ elim (Option-cases spec.linux) [
        | inl no_linux ↦ absurd (ground arith)
        | inr (l, el) ↦
            let (r, root_given, root_path) = root_lem spec.root er in
            let (q, process_given, has_args, cwd) = process_lem spec.process p ep in
            let (mount, w_same) = check_namespaces_sound h l.namespaces w (ground arith) in
            let (ns, ns_given, tested, _) = private_lem h _ w w mount in
            (
              record {
                has_id = λ b. ground (arith, eq_iff id "");
                root = r;
                root_given = root_given;
                root_path = root_path;
                process = q;
                process_given = process_given;
                has_args = has_args;
                after_is = ground arith;
                linux = l;
                linux_given = el;
                mount_ns = ns;
                mount_given = ns_given;
                mount_tested = tested;
              },
              ground arith,
            )
      ]
    ]
  ]
]
