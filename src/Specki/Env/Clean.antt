-- ===== src/Specki/Env/Clean.antt =====
-- What `cleanenv` leaves of an environment of assignments.
use lxcri.Base.{
  String, ◌≡◌, refl, ◌∙◌, ap, sym, Bool, true, false, Option, none, some, List, [], ◌∷◌, arith,
  ◌<>◌, has_prefix, lacks, eq_iff, if◌then◌else◌, All, Bool-cases, inl, inr,
}
use lxcri.Specki.Env.{getenv, set_first, setenv, add_all, cleanenv}
use lxcri.Specki.Env.Keys.{IsAssignment, has_prefix-assignment}
use lxcri.Specki.Env.Laws.{
  definition, or_else, definition_lem, updated, updated_found, updated_other, getenv-cons,
  getenv-updated, setenv-updated, getenv-setenv,
}

-- The value that the last definition of `k` gives.
abbrev pub last_value : List String → String → Option String
last_value [] k = none
last_value (kv ∷ env) k = or_else (last_value env k) (definition kv k)

-- No variable is defined twice.
abbrev pub Unique : List String → Type 0
Unique [] = Unit
Unique (kv ∷ env) =
    ((k : String) → lacks b'=' k ≡ true → has_prefix kv (k <> "=") ≡ true → getenv env k ≡ none)
    × Unique env

getenv-setenv-definition :
    (env : List String) (kv k : String) (overwrite : Bool)
    → IsAssignment kv
    → lacks b'=' k ≡ true
    → getenv (setenv env kv overwrite).0 k ≡ (
        if overwrite
        then or_else (definition kv k) (getenv env k)
        else or_else (getenv env k) (definition kv k))
getenv-setenv-definition env kv k overwrite (key, value, h, e) hk =
    rw (e, getenv-setenv env key value k overwrite h hk, definition_lem key value k h hk)
      (ground arith)

getenv-add_all :
    (acc env : List String) (k : String)
    → All IsAssignment env
    → lacks b'=' k ≡ true
    → getenv (add_all acc env true) k ≡ or_else (last_value env k) (getenv acc k)
unfolding add_all
getenv-add_all acc [] k _ hk = refl
getenv-add_all acc (kv ∷ env) k (a, as') hk = ground (
  arith,
  getenv-add_all (setenv acc kv true).0 env k as' hk,
  getenv-setenv-definition acc kv k true a hk,
)

getenv-add_all_keep :
    (acc env : List String) (k : String)
    → All IsAssignment env
    → lacks b'=' k ≡ true
    → getenv (add_all acc env false) k ≡ or_else (getenv acc k) (getenv env k)
unfolding add_all
getenv-add_all_keep acc [] k _ hk = ground (arith, getenv_nil)
  where
    getenv_nil : getenv [] k ≡ none
    getenv_nil = unfold getenv in refl
getenv-add_all_keep acc (kv ∷ env) k (a, as') hk = ground (
  arith,
  getenv-add_all_keep (setenv acc kv false).0 env k as' hk,
  getenv-setenv-definition acc kv k false a hk,
  getenv-cons kv env k,
)

replaced_fresh :
    (kv : String) (env : List String) (key value k : String)
    → lacks b'=' key ≡ true
    → lacks b'=' k ≡ true
    → has_prefix kv (key <> "=") ≡ true
    → ((k : String) → lacks b'=' k ≡ true → has_prefix kv (k <> "=") ≡ true → getenv env k ≡ none)
    → has_prefix (key <> "=" <> value) (k <> "=") ≡ true
    → getenv env k ≡ none
replaced_fresh kv env key value k h hk found fresh p =
    let same : key ≡ k = (eq_iff key k).0 (sym (has_prefix-assignment key k value h hk) ∙ p) in
    fresh k hk (rw (← same) found)

kept_fresh :
    (kv : String) (env : List String) (key value k : String) (overwrite : Bool)
    → lacks b'=' key ≡ true
    → lacks b'=' k ≡ true
    → has_prefix kv (key <> "=") ≡ false
    → getenv env k ≡ none
    → has_prefix kv (k <> "=") ≡ true
    → getenv (updated env key (key <> "=" <> value) overwrite) k ≡ none
kept_fresh kv env key value k overwrite h hk other fresh p =
    ground (arith, eq_iff key k, getenv-updated key k h hk env value overwrite)

updated-Unique :
    (env : List String) (key value : String) (overwrite : Bool)
    → lacks b'=' key ≡ true
    → Unique env
    → Unique (updated env key (key <> "=" <> value) overwrite)
unfolding set_first
updated-Unique [] key value overwrite h _ = (λ k hk p. unfold getenv in refl, tt)
updated-Unique (kv ∷ env) key value overwrite h (fresh, u) =
    elim (Bool-cases (has_prefix kv (key <> "="))) [
      | inl found ↦
          rw (updated_found kv env key (key <> "=" <> value) overwrite found)
            (replaced overwrite found)
      | inr other ↦ rw (updated_other kv env key (key <> "=" <> value) overwrite other) (
        λ k hk p. kept_fresh kv env key value k overwrite h hk other (fresh k hk p) p,
        updated-Unique env key value overwrite h u,
      )
    ]
  where
    replaced :
        (w : Bool)
        → has_prefix kv (key <> "=") ≡ true
        → Unique ((if w then key <> "=" <> value else kv) ∷ env)
    replaced true found = (λ k hk p. replaced_fresh kv env key value k h hk found fresh p, u)
    replaced false found = (fresh, u)

add_all-Unique :
    (acc env : List String) (overwrite : Bool)
    → All IsAssignment env
    → Unique acc
    → Unique (add_all acc env overwrite)
unfolding add_all
add_all-Unique acc [] overwrite _ u = u
add_all-Unique acc (kv ∷ env) overwrite ((key, value, h, e), as') u =
    add_all-Unique (setenv acc kv overwrite).0 env overwrite as' (
      rw (e, setenv-updated acc key value overwrite h) (updated-Unique acc key value overwrite h u))

cleanenv-add_all :
    (kv kv' : String) (env : List String) (overwrite : Bool)
    → cleanenv (kv ∷ (kv' ∷ env)) overwrite ≡ add_all [] (kv ∷ (kv' ∷ env)) overwrite
unfolding cleanenv
cleanenv-add_all kv kv' env overwrite = ground arith

-- `cleanenv`, with either order of precedence, leaves no variable of a list of assignments with two
-- definitions.
pub cleanenv-Unique :
    (env : List String) (overwrite : Bool) → All IsAssignment env → Unique (cleanenv env overwrite)
unfolding cleanenv
cleanenv-Unique [] overwrite a = tt
cleanenv-Unique (kv ∷ []) overwrite a = (λ k hk p. unfold getenv in refl, tt)
cleanenv-Unique (kv ∷ (kv' ∷ env)) overwrite a =
    rw (cleanenv-add_all kv kv' env overwrite) (add_all-Unique [] (kv ∷ (kv' ∷ env)) overwrite a tt)

or_else-none : (o : Option String) → or_else o none ≡ o
or_else-none none = refl
or_else-none (some v) = refl

-- With `overwrite`, a variable reads after `cleanenv` as what its last definition gave, for a list of
-- assignments; without it, as what its first definition gave.
pub getenv-cleanenv :
    (env : List String) (k : String)
    → All IsAssignment env
    → lacks b'=' k ≡ true
    → (getenv (cleanenv env true) k ≡ last_value env k)
      × (getenv (cleanenv env false) k ≡ getenv env k)
unfolding cleanenv getenv
getenv-cleanenv [] k a hk = (refl, refl)
getenv-cleanenv (kv ∷ []) k a hk = (refl, refl)
getenv-cleanenv (kv ∷ (kv' ∷ env)) k a hk = (
  ap (λ e. getenv e k) (cleanenv-add_all kv kv' env true)
      ∙ getenv-add_all [] (kv ∷ (kv' ∷ env)) k a hk
      ∙ or_else-none _,
  ap (λ e. getenv e k) (cleanenv-add_all kv kv' env false)
      ∙ getenv-add_all_keep [] (kv ∷ (kv' ∷ env)) k a hk,
)
