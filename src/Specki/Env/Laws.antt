-- ===== src/Specki/Env/Laws.antt =====
-- What `getenv` reads after `setenv`.
use lxcri.Base.{
  String, ◌≡◌, refl, ◌∙◌, Bool, true, false, Option, none, some, List, [], ◌∷◌, ◌++◌, arith, ◌<>◌,
  Bool-cases, inl, inr, ap, sym, has_prefix, strip, append-strip, trim_prefix, strip-append, lacks,
  ◌==◌, eq_iff, if◌then◌else◌, <>_assoc,
}
use lxcri.Specki.Env.{getenv, set_first, setenv}
use lxcri.Specki.Env.Keys.{has_prefix-assignment, head_or-split-assignment}

-- The value that a definition gives to `k`, if it is one of `k`.
abbrev pub definition : String → String → Option String
definition kv k = if has_prefix kv (k <> "=") then some (trim_prefix kv (k <> "=")) else none

abbrev pub or_else : Option String → Option String → Option String
or_else none b = b
or_else (some v) b = some v

pub definition_lem :
    (key value k : String)
    → lacks b'=' key ≡ true
    → lacks b'=' k ≡ true
    → definition (key <> "=" <> value) k ≡ (if key == k then some value else none)
definition_lem key value k h₁ h₂ = elim (Bool-cases (key == k)) [
  | inl same ↦
      rw (has_prefix-assignment key k value h₁ h₂, same)
        (ap some (
          rw (← (eq_iff key k).0 same) (
            ap (λ s. strip s (key <> "=")) (sym (<>_assoc key "=" value))
            ∙ strip-append (key <> "=") value)))
  | inr diff ↦ rw (has_prefix-assignment key k value h₁ h₂, diff) refl
]

-- The loop of `setenv`, with the append behind it.
abbrev pub updated : List String → String → String → Bool → List String
updated env key val overwrite = elim (set_first env key val overwrite) [
  | some env' ↦ env'
  | none ↦ env ++ (val ∷ [])
]

pub updated_found :
    (kv : String) (env : List String) (key val : String) (overwrite : Bool)
    → has_prefix kv (key <> "=") ≡ true
    → updated (kv ∷ env) key val overwrite ≡ (if overwrite then val else kv) ∷ env
unfolding set_first
updated_found kv env key val overwrite found = rw (found, updated) refl

pub updated_other :
    (kv : String) (env : List String) (key val : String) (overwrite : Bool)
    → has_prefix kv (key <> "=") ≡ false
    → updated (kv ∷ env) key val overwrite ≡ kv ∷ updated env key val overwrite
unfolding set_first
updated_other kv env key val overwrite other = ground arith

pub getenv-cons :
    (kv : String) (env : List String) (k : String)
    → getenv (kv ∷ env) k ≡ or_else (definition kv k) (getenv env k)
unfolding getenv
getenv-cons kv env k = ground arith

module _ (key k : String) (key_lacks : lacks b'=' key ≡ true) (k_lacks : lacks b'=' k ≡ true) where
  getenv-cons_assignment :
      (v : String) (env : List String)
      → getenv ((key <> "=" <> v) ∷ env) k ≡ (if key == k then some v else getenv env k)
  getenv-cons_assignment v env =
      ground (arith, getenv-cons (key <> "=" <> v) env k, definition_lem key v k key_lacks k_lacks)

  getenv-cons_found :
      (kv : String) (env : List String)
      → has_prefix kv (key <> "=") ≡ true
      → getenv (kv ∷ env) k ≡ (if key == k then some (strip kv (key <> "=")) else getenv env k)
  getenv-cons_found kv env found =
      ap (λ x. getenv (x ∷ env) k)
        (sym (append-strip kv (key <> "=") found) ∙ <>_assoc key "=" (strip kv (key <> "=")))
      ∙ getenv-cons_assignment (strip kv (key <> "=")) env

  -- A definition of another variable hides none of `key`.
  definition_other :
      (kv : String) (env : List String)
      → has_prefix kv (key <> "=") ≡ false
      → (key == k) ≡ true
      → getenv (kv ∷ env) k ≡ getenv env k
  definition_other kv env other same =
      rw (← (eq_iff key k).0 same) (getenv-cons kv env key ∙ rw other refl)

  pub getenv-updated :
      (env : List String) (value : String) (overwrite : Bool)
      → getenv (updated env key (key <> "=" <> value) overwrite) k ≡ (
          if key == k
          then if overwrite then some value else or_else (getenv env k) (some value)
          else getenv env k)
  unfolding set_first
  getenv-updated [] value overwrite = ground (arith, getenv-cons_assignment value [], getenv_nil)
    where
      getenv_nil : getenv [] k ≡ none
      getenv_nil = unfold getenv in refl
  getenv-updated (kv ∷ env) value overwrite = elim (Bool-cases (has_prefix kv (key <> "="))) [
    | inl found ↦
        rw (updated_found kv env key (key <> "=" <> value) overwrite found)
          (ground (arith, getenv-cons_assignment value env, getenv-cons_found kv env found))
    | inr other ↦ rw (updated_other kv env key (key <> "=" <> value) overwrite other) (
        ground (
          arith,
          getenv-cons kv env k,
          getenv-cons kv (updated env key (key <> "=" <> value) overwrite) k,
          definition_other kv env other,
          definition_other kv (updated env key (key <> "=" <> value) overwrite) other,
          getenv-updated env value overwrite,
        ))
  ]

pub setenv-updated :
    (env : List String) (key value : String) (overwrite : Bool)
    → lacks b'=' key ≡ true
    → (setenv env (key <> "=" <> value) overwrite).0
      ≡ updated env key (key <> "=" <> value) overwrite
unfolding setenv
setenv-updated env key value overwrite h =
    rw (head_or-split-assignment key value h, setenv) (ground arith)

-- Setting `key=value` and reading a variable back, for names without `=`: another variable reads as
-- before; `key` reads as the new value with `overwrite`, and without it as the old value if there
-- was one and as the new value if not.
pub getenv-setenv :
    (env : List String) (key value k : String) (overwrite : Bool)
    → lacks b'=' key ≡ true
    → lacks b'=' k ≡ true
    → getenv (setenv env (key <> "=" <> value) overwrite).0 k ≡ (
        if key == k
        then if overwrite then some value else or_else (getenv env k) (some value)
        else getenv env k)
getenv-setenv env key value k overwrite h₁ h₂ =
    rw (setenv-updated env key value overwrite h₁) (getenv-updated key k h₁ h₂ env value overwrite)
