-- ===== src/Specki/Env/Keys.antt =====
-- Definitions of the form `key=value`, and how `getenv` and `setenv` see their keys.
use Prim.Native.Char.{code}
use lxcri.Base.{
  String, ◌≡◌, refl, Bool, true, false, ◌&&◌, List, [], ◌∷◌, arith, eqb, ◌<>◌, has_prefix, lacks,
  split, head_or, ◌==◌, eq-cons, nil-eq-cons, cons-eq-nil, sym, ◌∙◌, push_head, if◌then◌else◌,
}

-- A definition `key=value` whose key holds no `=`.
abbrev pub IsAssignment : String → Type 0
IsAssignment kv = (key value : String) × (lacks b'=' key ≡ true) × (kv ≡ key <> "=" <> value)

and_false_left : (a b : Bool) → a ≡ false → (a && b) ≡ false
and_false_left a b h = ground arith

-- A definition is one of `k` exactly when its key is `k`.
pub has_prefix-assignment :
    (key k value : String)
    → lacks b'=' key ≡ true
    → lacks b'=' k ≡ true
    → has_prefix (key <> "=" <> value) (k <> "=") ≡ (key == k)
has_prefix-assignment String.[] String.[] value h₁ h₂ = refl
has_prefix-assignment (String.◌∷◌ d key) String.[] value h₁ h₂ =
    and_false_left (eqb (code d) b'=') true (ground arith) ∙ sym (cons-eq-nil d key)
has_prefix-assignment String.[] (String.◌∷◌ c k) value h₁ h₂ =
    and_false_left (eqb b'=' (code c)) (has_prefix value (k <> "=")) (ground arith)
    ∙ sym (nil-eq-cons c k)
has_prefix-assignment (String.◌∷◌ d key) (String.◌∷◌ c k) value h₁ h₂ =
    ground (arith, eq-cons d c key k, has_prefix-assignment key k value)

-- The key that `setenv` cuts out of a definition.
pub head_or-split-assignment :
    (key value : String)
    → lacks b'=' key ≡ true
    → head_or "" (split b'=' (key <> "=" <> value)) ≡ key
head_or-split-assignment String.[] value h = refl
head_or-split-assignment (String.◌∷◌ c key) value h =
    push (split b'=' (key <> "=" <> value)) (head_or-split-assignment key value (ground arith))
  where
    push :
        (parts : List String)
        → head_or "" parts ≡ key
        → head_or "" (if eqb (code c) b'=' then "" ∷ parts else push_head c parts)
          ≡ String.◌∷◌ c key
    push [] e = ground arith
    push (x ∷ xs) e = ground arith
