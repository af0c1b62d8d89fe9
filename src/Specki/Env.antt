-- ===== src/Specki/Env.antt =====
-- `Getenv` and `Setenv` of pkg/specki/specki.go, and `cleanenv` of create.go. An environment is a
-- list of strings; the slice that `Setenv` changes in place is a new list.
pub mod Keys
pub mod Laws
pub mod Clean
use lxcri.Base.{
  ℕ, String, Bool, true, false, Option, none, some, List, [], ◌∷◌, ◌++◌, ltb, if◌then◌else◌, length,
  ◌<>◌, has_prefix, trim_prefix, split, head_or,
}

unfoldable pub getenv : List String → String → Option String
getenv [] key = none
getenv (kv ∷ env) key =
    let rest = getenv env key in
    if has_prefix kv (key <> "=") then some (trim_prefix kv (key <> "=")) else rest

-- The loop of `Setenv`: the list with the first definition of `key` dealt with, if there is one.
unfoldable pub set_first : List String → String → String → Bool → Option (List String)
set_first [] key val overwrite = none
set_first (kv ∷ env) key val overwrite =
    let rest = set_first env key val overwrite in
    if has_prefix kv (key <> "=")
    then some ((if overwrite then val else kv) ∷ env)
    else elim rest [ none ↦ none | some env' ↦ some (kv ∷ env') ]

unfoldable pub setenv : List String → String → Bool → List String × Bool
unfolding set_first
setenv env val overwrite = elim (set_first env (head_or "" (split b'=' val)) val overwrite) [
  | some env' ↦ (env', true)
  | none ↦ (env ++ (val ∷ []), false)
]

unfoldable pub add_all : List String → List String → Bool → List String
add_all new_env [] overwrite = new_env
add_all new_env (kv ∷ env) overwrite = add_all (setenv new_env kv overwrite).0 env overwrite

-- `cleanenv`, on the environment that it replaces
unfoldable pub cleanenv : List String → Bool → List String
cleanenv env overwrite = if ltb (length env) 2 then env else add_all [] env overwrite
