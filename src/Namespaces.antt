-- ===== src/Namespaces.antt =====
-- namespaces.go: the table of namespaces, `configureNamespaces`, and the test for a namespace that is
-- shared with the runtime. `setHostname` is in Create.antt.
pub mod Configure
pub mod Free
use lxcri.Base.{
  ℕ, String, Bool, true, false, ◌&&◌, Option, none, some, List, [], ◌∷◌, ◌++◌, eqb, ◌==◌, ◌<>◌,
  join, contains, if◌then◌else◌, Error, failed, ok, err,
}
use lxcri.Base.Host.{Host, M, return, throw, query_result, FileInfo, ◌>>=◌, ◌>>◌}
use lxcri.Config.{set_item}
use lxcri.Oci.{
  Namespace, Spec, pid_namespace, network_namespace, mount_namespace, ipc_namespace, uts_namespace,
  user_namespace, cgroup_namespace,
}

-- `namespace`: the name under /proc/{pid}/ns and the clone(2) flag
pub record Kind : Type 0 where
  pub name : String
  pub clone_flag : ℕ

-- `namespaceMap`
unfoldable pub namespace_map : String → Option Kind
namespace_map type =
    if type == cgroup_namespace
    then some (record { name = "cgroup"; clone_flag = 0x2000000 })
    else if type == ipc_namespace
    then some (record { name = "ipc"; clone_flag = 0x8000000 })
    else if type == mount_namespace
    then some (record { name = "mnt"; clone_flag = 0x20000 })
    else if type == network_namespace
    then some (record { name = "net"; clone_flag = 0x40000000 })
    else if type == pid_namespace
    then some (record { name = "pid"; clone_flag = 0x20000000 })
    else if type == user_namespace
    then some (record { name = "user"; clone_flag = 0x10000000 })
    else if type == uts_namespace
    then some (record { name = "uts"; clone_flag = 0x4000000 })
    else none

unfoldable pub share_key : Kind → String
share_key n = "lxc.namespace.share." <> n.name

module _ (h : Host) where
  -- The loop of `configureNamespaces`, with the types seen and the names to clone so far.
  unfoldable pub configure_from : List String → List String → List Namespace → M (Unit {0})
  configure_from seen clone [] = set_item h "lxc.namespace.clone" (join " " clone)
  configure_from seen clone (ns ∷ rest) = elim (contains seen ns.type) [
    | true ↦ throw (failed ("duplicate namespace " <> ns.type))
    | false ↦ elim (namespace_map ns.type) [
      | none ↦ throw (failed ("unsupported namespace " <> ns.type))
      | some n ↦ elim (ns.path == "") [
        | true ↦ configure_from (ns.type ∷ seen) (clone ++ (n.name ∷ [])) rest
        | false ↦ do set_item h (share_key n) ns.path; configure_from (ns.type ∷ seen) clone rest
      ]
    ]
  ]

  unfoldable pub configure_namespaces : List Namespace → M (Unit {0})
  configure_namespaces = configure_from [] []

-- `isNamespaceEnabled`
unfoldable pub is_namespace_enabled : List Namespace → String → Bool
is_namespace_enabled [] type = false
is_namespace_enabled (ns ∷ rest) type =
    let more = is_namespace_enabled rest type in if ns.type == type then true else more

-- `getNamespace`
unfoldable pub get_namespace : List Namespace → String → Option Namespace
get_namespace [] type = none
get_namespace (ns ∷ rest) type =
    let more = get_namespace rest type in if ns.type == type then some ns else more

-- `isNamespaceSharedWithRuntime`
unfoldable pub is_namespace_shared_with_runtime : Host → Option Namespace → M Bool
is_namespace_shared_with_runtime h none = return true
is_namespace_shared_with_runtime h (some ns) = elim (ns.path == "") [
  | true ↦ return false
  | false ↦ do
    a ← query_result (λ w. h.stat w ns.path)
    b ← query_result (λ w. h.stat w "/proc/self/ns/pid")
    return (eqb a.dev b.dev && eqb a.ino b.ino)
]
