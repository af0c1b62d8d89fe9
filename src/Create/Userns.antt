-- ===== src/Create/Userns.antt =====
-- `configureUserNamespace` of create.go.
use lxcri.Base.{
  ℕ, zero, suc, String, ◌≡◌, refl, Bool, not, ◌||◌, List, [], ◌∷◌, ◌++◌, ◌==◌, if◌then◌else◌, eqb,
  any, length,
}
use lxcri.Base.Host.{Host}
use lxcri.Oci.{entry_of, Linux, Namespace, IdMapping, user_namespace}
use lxcri.Settings.{Runtime}
use lxcri.Namespaces.{is_namespace_enabled}

unfoldable pub is_user : Namespace → Bool
is_user ns = ns.type == user_namespace

-- The places of the shared array from the removed element `n` on, once those behind it have moved up:
-- the last place keeps what it held.
unfoldable pub shift_up : Namespace → List Namespace → List Namespace
shift_up n [] = n ∷ []
shift_up n (x ∷ xs) = x ∷ shift_up x xs

-- The loop over the array, which reads what earlier rounds have moved. `k` rounds are left, `passed`
-- are the places that were read.
unfoldable pub drop_users : ℕ → List Namespace → List Namespace → List Namespace
unfolding is_user
drop_users zero passed rest = passed ++ rest
drop_users (suc k) passed [] = passed
drop_users (suc k) passed (n ∷ []) = drop_users k (passed ++ (n ∷ [])) []
drop_users (suc k) passed (n ∷ (x ∷ rest)) =
    let moved = drop_users k (passed ++ (x ∷ [])) (shift_up x rest) in
    let kept = drop_users k (passed ++ (n ∷ [])) (x ∷ rest) in if is_user n then moved else kept

unfoldable pub all_but_last : List Namespace → List Namespace
all_but_last [] = []
all_but_last (x ∷ []) = []
all_but_last (x ∷ (y ∷ ys)) = x ∷ all_but_last (y ∷ ys)

-- The namespaces without a preconfigured user namespace: after each removal the list is the array
-- without its last place.
unfoldable pub without_user : List Namespace → List Namespace
unfolding is_user
without_user nss = if any is_user nss then all_but_last (drop_users (length nss) [] nss) else nss

default_mapping : List IdMapping
default_mapping = record { container_id = 0; host_id = 100000; size = 100 } ∷ []

-- `configureUserNamespace`
unfoldable pub configure_user_namespace : Host → Runtime → List (String × String) → Linux → Linux
unfolding default_mapping
configure_user_namespace h rt annotations linux =
    if rt.userns_configured
    then record linux { namespaces = without_user linux.namespaces }
    else if is_namespace_enabled linux.namespaces user_namespace
    then linux
    else if not (eqb h.uid 0) || not (entry_of annotations "org.linuxcontainers.lxcri.userns" == "")
    then record linux {
      uid_mappings = default_mapping;
      gid_mappings = default_mapping;
      namespaces = linux.namespaces ++ (record { type = user_namespace; path = "" } ∷ []);
    }
    else linux

-- Of two user namespaces next to each other, the second one stays.
two_users_test :
    without_user (
      record { type = "user"; path = "" }
      ∷ record { type = "user"; path = "/x" }
      ∷ record { type = "pid"; path = "" }
      ∷ [])
    ≡ record { type = "user"; path = "/x" } ∷ record { type = "pid"; path = "" } ∷ []
unfolding without_user drop_users shift_up all_but_last is_user
two_users_test = refl
