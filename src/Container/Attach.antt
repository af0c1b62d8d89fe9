-- ===== src/Container/Attach.antt =====
-- `attachOptions`, `Exec` and `ExecDetached` of container.go. The flags of clone(2) are combined by `|`.
use Prim.Native.Nat.{bit_or}
use lxcri.Base.{
  ℕ, String, ◌≡◌, refl, ◌∙◌, ap, Bool, true, Option, none, some, List, [], ◌∷◌, ◌==◌, eq_iff,
  is_empty, if◌then◌else◌, failed, wrapped, Result, ok, err, Bool-cases, inl, inr,
}
use lxcri.Base.Host.{Host, M, run_command, perform, with_error, lift, ◌>>=◌, ◌>>◌}
use lxcri.Oci.{
  Namespace, Process, pid_namespace, network_namespace, mount_namespace, ipc_namespace,
  uts_namespace, user_namespace, cgroup_namespace,
}
use lxcri.Namespaces.{Kind, namespace_map}

-- lxc.AttachOptions, without the file descriptors, which are 0, 1 and 2
pub record AttachOptions : Type 0 where
  pub cwd : String
  pub clear_env : Bool
  pub env : List String
  pub uid : ℕ
  pub gid : ℕ
  pub groups : List ℕ
  pub namespaces : ℕ

-- The keys of `namespaceMap`. Go visits them in any order, which `|` does not show.
abbrev all_types : List String
all_types =
    cgroup_namespace ∷ ipc_namespace ∷ mount_namespace ∷ network_namespace ∷ pid_namespace
    ∷ user_namespace ∷ uts_namespace ∷ []

-- The inner loop, for one namespace of the container.
unfoldable pub add_flags : ℕ → String → List String → ℕ
add_flags flags type [] = flags
add_flags flags type (t ∷ wanted) =
    add_flags
      (if type == t
        then elim (namespace_map t) [ some n ↦ bit_or flags n.clone_flag | none ↦ flags ]
        else flags)
      type wanted

unfoldable pub attach_flags : ℕ → List Namespace → List String → ℕ
attach_flags flags [] wanted = flags
attach_flags flags (ns ∷ nss) wanted = attach_flags (add_flags flags ns.type wanted) nss wanted

-- `attachOptions`, with the namespaces of the container's spec and those of the options
unfoldable pub attach_options : List Namespace → Option Process → List String → Result AttachOptions
attach_options nss none wanted = err (failed "process spec is nil")
attach_options nss (some p) wanted = ok (record {
  cwd = p.cwd;
  clear_env = true;
  env = p.env;
  uid = p.user.uid;
  gid = p.user.gid;
  groups = p.user.additional_gids;
  namespaces = attach_flags 0 nss (if is_empty wanted then all_types else wanted);
})

abbrev args_of : Option Process → List String
args_of none = []
args_of (some p) = p.args

-- `ExecDetached` and `Exec`, up to the PID or the exit status that liblxc returns
unfoldable pub exec_process : Host → List Namespace → Option Process → List String → M AttachOptions
exec_process h nss proc wanted = do
  opts ←
      with_error (wrapped "failed to create attach options") (lift (attach_options nss proc wanted))
  with_error (wrapped "failed to run exec cmd") (perform h (run_command (args_of proc)))
  lift (ok opts)

-- The flags of the namespaces that the table knows, combined.
abbrev known_flags : ℕ → List Namespace → ℕ
known_flags flags [] = flags
known_flags flags (ns ∷ nss) = elim (namespace_map ns.type) [
  | some n ↦ known_flags (bit_or flags n.clone_flag) nss
  | none ↦ known_flags flags nss
]

add_all_flags :
    (flags : ℕ) (type : String)
    → add_flags flags type all_types
      ≡ elim (namespace_map type) [ some n ↦ bit_or flags n.clone_flag | none ↦ flags ]
unfolding add_flags namespace_map
add_all_flags flags type = elim (Bool-cases (type == cgroup_namespace)) [
  | inl same ↦ rw ((eq_iff type cgroup_namespace).0 same) refl
  | inr d0 ↦ elim (Bool-cases (type == ipc_namespace)) [
    | inl same ↦ rw ((eq_iff type ipc_namespace).0 same) refl
    | inr d1 ↦ elim (Bool-cases (type == mount_namespace)) [
      | inl same ↦ rw ((eq_iff type mount_namespace).0 same) refl
      | inr d2 ↦ elim (Bool-cases (type == network_namespace)) [
        | inl same ↦ rw ((eq_iff type network_namespace).0 same) refl
        | inr d3 ↦ elim (Bool-cases (type == pid_namespace)) [
          | inl same ↦ rw ((eq_iff type pid_namespace).0 same) refl
          | inr d4 ↦ elim (Bool-cases (type == user_namespace)) [
            | inl same ↦ rw ((eq_iff type user_namespace).0 same) refl
            | inr d5 ↦ elim (Bool-cases (type == uts_namespace)) [
              | inl same ↦ rw ((eq_iff type uts_namespace).0 same) refl
              | inr d6 ↦ rw (d0, d1, d2, d3, d4, d5, d6, add_flags, namespace_map) refl
            ]
          ]
        ]
      ]
    ]
  ]
]

attach_flags-known_flags :
    (flags : ℕ) (nss : List Namespace) → attach_flags flags nss all_types ≡ known_flags flags nss
unfolding attach_flags
attach_flags-known_flags flags [] = refl
attach_flags-known_flags flags (ns ∷ nss) =
    ap (λ f. attach_flags f nss all_types) (add_all_flags flags ns.type)
    ∙ split (namespace_map ns.type) (λ f. attach_flags-known_flags f nss)
  where
    split :
        (o : Option Kind)
        → ((f : ℕ) → attach_flags f nss all_types ≡ known_flags f nss)
        → attach_flags (elim o [ some n ↦ bit_or flags n.clone_flag | none ↦ flags ]) nss all_types
          ≡ elim o [
            | some n ↦ known_flags (bit_or flags n.clone_flag) nss
            | none ↦ known_flags flags nss
          ]
    split none ih = ih flags
    split (some n) ih = ih (bit_or flags n.clone_flag)

-- With no namespaces asked for, a process is attached to all namespaces of the container that the
-- table knows, with a clean environment, and with the identity, directory and variables of its spec.
attach_options_all :
    (nss : List Namespace) (p : Process)
    → attach_options nss (some p) []
      ≡ ok (record {
        cwd = p.cwd;
        clear_env = true;
        env = p.env;
        uid = p.user.uid;
        gid = p.user.gid;
        groups = p.user.additional_gids;
        namespaces = known_flags 0 nss;
      })
unfolding attach_options
attach_options_all nss p = rw (attach_flags-known_flags 0 nss) refl
