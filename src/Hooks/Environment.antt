-- ===== src/Hooks/Environment.antt =====
-- `LoadEnv` of cmd/lxcri-hook/hooks.go.
use mathlib.Core.Path.{subst}
use lxcri.Base.{
  String, Bool, true, false, Option, none, some, List, [], ◌∷◌, ◌<>◌, ◌≡◌, refl, sym, ap, ◌∙◌, ◌==◌,
  eq_iff, to_upper, failed, Result, ok, err, if◌then◌else◌, Bool-cases, inl, inr, contains,
}
use lxcri.Base.Host.{Host}

-- `Env`
pub record Env : Type 0 where
  pub cgroup_aware : Bool
  pub config_file : String
  pub type : String
  pub section : String
  pub version : String
  pub log_level : String
  pub container_name : String
  -- a map, as a list of its entries
  pub shared_namespaces : List (String × String)
  pub rootfs_mount : String
  pub rootfs_path : String
  pub src_container_name : String

abbrev hook_namespaces : List String
hook_namespaces = "cgroup" ∷ "ipc" ∷ "mnt" ∷ "net" ∷ "pid" ∷ "time" ∷ "user" ∷ "uts" ∷ []

unfoldable ns_variable : String → String
ns_variable ns = "LXC_" <> to_upper ns <> "_NS"

module _ (h : Host) where
  -- os.Getenv
  unfoldable value_of : String → String
  value_of key = elim (h.lookup_env key) [ some val ↦ val | none ↦ "" ]

  unfoldable shared_of : List String → List (String × String)
  unfolding ns_variable
  shared_of [] = []
  shared_of (ns ∷ nss) = elim (h.lookup_env (ns_variable ns)) [
    | some val ↦ (ns, val) ∷ shared_of nss
    | none ↦ shared_of nss
  ]

  -- The values for a hook type. `CgroupAware` stays false.
  unfoldable pub env_of : String → Env
  unfolding value_of shared_of
  env_of hook_type = record {
    cgroup_aware = false;
    config_file = value_of "LXC_CONFIG_FILE";
    type = hook_type;
    section = value_of "LXC_HOOK_SECTION";
    version = value_of "LXC_HOOK_VERSION";
    log_level = value_of "LXC_LOG_LEVEL";
    container_name = value_of "LXC_NAME";
    shared_namespaces = shared_of hook_namespaces;
    rootfs_mount = value_of "LXC_ROOTFS_MOUNT";
    rootfs_path = value_of "LXC_ROOTFS_PATH";
    src_container_name = value_of "LXC_SRC_NAME";
  }

  -- `LoadEnv`
  unfoldable pub load_env : Result Env
  load_env = elim (h.lookup_env "LXC_HOOK_TYPE") [
    | none ↦ err (failed "LXC_HOOK_TYPE environment variable is not set")
    | some hook_type ↦ ok (env_of hook_type)
  ]

-- Reading a map
abbrev pub entry : List (String × String) → String → Option String
entry [] key = none
entry ((k, v) ∷ entries) key = let rest = entry entries key in if k == key then some v else rest

if-same : {A : Type 0} (b : Bool) (o a : A) → o ≡ a → (if b then o else a) ≡ o
if-same true o a e = refl
if-same false o a e = sym e

module _ (h : Host) where
  entry-shared_of :
      (nss : List String) (key : String)
      → entry (shared_of h nss) key
        ≡ (if contains nss key then h.lookup_env (ns_variable key) else none)
  unfolding shared_of
  entry-shared_of [] key = refl
  entry-shared_of (ns ∷ nss) key = go (entry-shared_of nss key) (h.lookup_env (ns_variable ns)) refl
    where
      here : (ns == key) ≡ true → h.lookup_env (ns_variable key) ≡ h.lookup_env (ns_variable ns)
      here same = ap (λ k. h.lookup_env (ns_variable k)) (sym ((eq_iff ns key).0 same))

      go :
          entry (shared_of h nss) key
            ≡ (if contains nss key then h.lookup_env (ns_variable key) else none)
          → (o : Option String) → h.lookup_env (ns_variable ns) ≡ o
          → entry (shared_of h (ns ∷ nss)) key
            ≡ (if contains (ns ∷ nss) key then h.lookup_env (ns_variable key) else none)
      go ih (some val) e = elim (Bool-cases (ns == key)) [
        | inl same ↦ rw (e, same, shared_of) (sym (here same ∙ e))
        | inr other ↦ rw (e, other, shared_of) ih
      ]
      go ih none e = elim (Bool-cases (ns == key)) [
        | inl same ↦
            rw (e, same, shared_of)
              (ih
                ∙ if-same (contains nss key) (h.lookup_env (ns_variable key)) none (here same ∙ e))
        | inr other ↦ rw (e, other, shared_of) ih
      ]

  -- `LoadEnv` succeeds only where the hook type is set; the type is that, and the map of the shared
  -- namespaces has, for each of the eight names, what the variable of that name holds, and nothing for
  -- any other name.
  load_env_sound :
      (env : Env) (ns : String)
      → load_env h ≡ ok env
      → (h.lookup_env "LXC_HOOK_TYPE" ≡ some env.type)
        × (entry env.shared_namespaces ns
            ≡ (if contains hook_namespaces ns then h.lookup_env (ns_variable ns) else none))
  unfolding load_env
  load_env_sound env ns e = go (h.lookup_env "LXC_HOOK_TYPE") refl
    where
      go :
          (o : Option String)
          → h.lookup_env "LXC_HOOK_TYPE" ≡ o
          → (h.lookup_env "LXC_HOOK_TYPE" ≡ some env.type)
            × (entry env.shared_namespaces ns
                ≡ (if contains hook_namespaces ns then h.lookup_env (ns_variable ns) else none))
      go none q =
          let bad : load_env h ≡ err (failed "LXC_HOOK_TYPE environment variable is not set") =
            rw (q, load_env) refl in
          absurd cc
      go (some type) q =
          let is : load_env h ≡ ok (env_of h type) = rw (q, load_env) refl in
          let same : env_of h type ≡ env = cc in
          subst
            (λ x.
              (h.lookup_env "LXC_HOOK_TYPE" ≡ some x.type)
              × (entry x.shared_namespaces ns
                  ≡ (if contains hook_namespaces ns then h.lookup_env (ns_variable ns) else none)))
            same (unfold env_of in (q, entry-shared_of hook_namespaces ns))
