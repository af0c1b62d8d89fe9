-- ===== src/Namespaces/Configure.antt =====
-- What `configureNamespaces` accepts, and which items it sets.
use lxcri.Base.{
  String, ◌≡◌, refl, ◌∙◌, ap, sym, true, false, none, some, List, [], ◌∷◌, ◌++◌, append_assoc,
  append-nil, ◌==◌, ◌<>◌, join, contains, if◌then◌else◌, ok, err, failed, All, Bool-cases,
  Option-cases, inl, inr,
}
use lxcri.Base.Host.{>>=-eq-ok, IsCompliant, Host, Call, set_config_item, History, bind_step}
use lxcri.Config.{set_item, set_item_history, set_item_accepted}
use lxcri.Oci.{Namespace}
use lxcri.Namespaces.{Kind, share_key, namespace_map, configure_from, configure_namespaces}

-- No type is listed twice, and none of those in `seen`.
abbrev pub Distinct : List String → List Namespace → Type 0
Distinct seen [] = Unit
Distinct seen (ns ∷ rest) = (contains seen ns.type ≡ false) × Distinct (ns.type ∷ seen) rest

abbrev pub IsSupported : Namespace → Type 0
IsSupported ns = (n : Kind) × (namespace_map ns.type ≡ some n)

unfoldable pub name_of : Namespace → String
name_of ns = elim (namespace_map ns.type) [ some n ↦ n.name | none ↦ "" ]

pub key_of : Namespace → String
key_of ns = elim (namespace_map ns.type) [ some n ↦ share_key n | none ↦ "" ]

-- The names of the namespaces without a path, in order.
abbrev pub cloned : List Namespace → List String
cloned [] = []
cloned (ns ∷ rest) = let more = cloned rest in if ns.path == "" then name_of ns ∷ more else more

-- One item for each namespace with a path, in order.
abbrev pub shared_calls : List Namespace → List Call
shared_calls [] = []
shared_calls (ns ∷ rest) =
    let more = shared_calls rest in
    if ns.path == "" then more else set_config_item (key_of ns) ns.path ∷ more

abbrev pub clone_call : List String → Call
clone_call names = set_config_item "lxc.namespace.clone" (join " " names)

module _ (h : Host) where
  own_step :
      (seen clone : List String) (ns : Namespace) (rest : List Namespace) (w : History) {n : Kind}
      → contains seen ns.type ≡ false
      → namespace_map ns.type ≡ some n
      → (ns.path == "") ≡ true
      → configure_from h seen clone (ns ∷ rest) w
        ≡ configure_from h (ns.type ∷ seen) (clone ++ (name_of ns ∷ [])) rest w
  unfolding configure_from name_of
  own_step seen clone ns rest w new kind own =
      rw (kind, name_of) (rw (new, kind, own, configure_from) refl)

  shared_step :
      (seen clone : List String) (ns : Namespace) (rest : List Namespace) (w : History) {n : Kind}
      → contains seen ns.type ≡ false
      → namespace_map ns.type ≡ some n
      → (ns.path == "") ≡ false
      → configure_from h seen clone (ns ∷ rest) w
        ≡ bind_step
            (set_item h (key_of ns) ns.path w)
            (λ _. configure_from h (ns.type ∷ seen) clone rest)
  unfolding configure_from key_of
  shared_step seen clone ns rest w new kind shared =
      rw (kind, key_of) (rw (new, kind, shared, configure_from) refl)

  nil_step :
      (seen clone : List String) (w : History)
      → configure_from h seen clone [] w ≡ set_item h "lxc.namespace.clone" (join " " clone) w
  unfolding configure_from
  nil_step seen clone w = refl

  configure_from_complete :
      (seen clone : List String) (nss : List Namespace) (w : History)
      → Distinct seen nss
      → All IsSupported nss
      → IsCompliant h
      → configure_from h seen clone nss w
        ≡ (ok tt, w ++ (shared_calls nss ++ (clone_call (clone ++ cloned nss) ∷ [])))
  configure_from_complete seen clone [] w _ _ quiet =
      nil_step seen clone w ∙ set_item_accepted h _ _ w (quiet w _) ∙ rw append-nil refl
  configure_from_complete seen clone (ns ∷ rest) w (new, d) ((n, kind), s) quiet =
      elim (Bool-cases (ns.path == "")) [
        | inl own ↦
            own_step seen clone ns rest w new kind own
            ∙ rw own (
                configure_from_complete (ns.type ∷ seen) (clone ++ (name_of ns ∷ [])) rest w d s
                  quiet
                ∙ simp append_assoc)
        | inr shared ↦
            shared_step seen clone ns rest w new kind shared
            ∙ rw (shared, set_item_accepted h _ _ w (quiet w _))
                (configure_from_complete (ns.type ∷ seen) clone rest _ d s quiet
                  ∙ simp append_assoc)
      ]

  dup_step :
      (seen clone : List String) (ns : Namespace) (rest : List Namespace) (w : History)
      → contains seen ns.type ≡ true
      → configure_from h seen clone (ns ∷ rest) w
        ≡ (err (failed ("duplicate namespace " <> ns.type)), w)
  unfolding configure_from
  dup_step seen clone ns rest w dup = rw (dup, configure_from) refl

  unsupported_step :
      (seen clone : List String) (ns : Namespace) (rest : List Namespace) (w : History)
      → contains seen ns.type ≡ false
      → namespace_map ns.type ≡ none
      → configure_from h seen clone (ns ∷ rest) w
        ≡ (err (failed ("unsupported namespace " <> ns.type)), w)
  unfolding configure_from
  unsupported_step seen clone ns rest w new kind = rw (new, kind, configure_from) refl

  -- What a successful run says of its list.
  abbrev Outcome : List String → List String → List Namespace → History → History → Type 0
  Outcome seen clone nss w w' =
      Distinct seen nss
      × All IsSupported nss
      × (w' ≡ w ++ (shared_calls nss ++ (clone_call (clone ++ cloned nss) ∷ [])))

  configure_from_sound :
      (seen clone : List String) (nss : List Namespace) (w w' : History)
      → configure_from h seen clone nss w ≡ (ok tt, w')
      → Outcome seen clone nss w w'
  configure_from_sound seen clone [] w w' e = (
    tt,
    tt,
    ap (λ r. r.1) (sym e ∙ nil_step seen clone w) ∙ set_item_history h _ _ w ∙ rw append-nil refl,
  )
  configure_from_sound seen clone (ns ∷ rest) w w' e = elim (Bool-cases (contains seen ns.type)) [
    | inl dup ↦ let f = sym e ∙ dup_step seen clone ns rest w dup in cc
    | inr new ↦ elim (Option-cases (namespace_map ns.type)) [
      | inl no_kind ↦ let f = sym e ∙ unsupported_step seen clone ns rest w new no_kind in cc
      | inr (n, kind) ↦ elim (Bool-cases (ns.path == "")) [
        | inl own ↦ own_outcome new n kind own (
            configure_from_sound (ns.type ∷ seen) (clone ++ (name_of ns ∷ [])) rest w w'
              (sym (own_step seen clone ns rest w new kind own) ∙ e))
        | inr shared ↦
            let f = sym (shared_step seen clone ns rest w new kind shared) ∙ e in
            let (_, w₁, set, later) =
              >>=-eq-ok (set_item h (key_of ns) ns.path)
                (λ _. configure_from h (ns.type ∷ seen) clone rest) w f in
            shared_outcome new n kind shared w₁ (sym (ap (λ r. r.1) set) ∙ set_item_history h _ _ w)
              (configure_from_sound (ns.type ∷ seen) clone rest w₁ w' later)
      ]
    ]
  ]
    where
      own_outcome :
          contains seen ns.type ≡ false
          → (n : Kind) → namespace_map ns.type ≡ some n
          → (ns.path == "") ≡ true
          → Outcome (ns.type ∷ seen) (clone ++ (name_of ns ∷ [])) rest w w'
          → Outcome seen clone (ns ∷ rest) w w'
      own_outcome new n kind own (d, s, t) =
          ((new, d), ((n, kind), s), rw own (t ∙ simp append_assoc))

      shared_outcome :
          contains seen ns.type ≡ false
          → (n : Kind) → namespace_map ns.type ≡ some n
          → (ns.path == "") ≡ false
          → (w₁ : History) → w₁ ≡ w ++ (set_config_item (key_of ns) ns.path ∷ [])
          → Outcome (ns.type ∷ seen) clone rest w₁ w'
          → Outcome seen clone (ns ∷ rest) w w'
      shared_outcome new n kind shared w₁ first (d, s, t) =
          ((new, d), ((n, kind), s), rw shared (t ∙ rw first (simp append_assoc)))

-- If `configureNamespaces` succeeds, then no namespace type is listed twice, every type is one of the
-- table, and it has set exactly these items: for each namespace with a path, in order, its share
-- item with that path; then the clone item with the names of those without a path, in order.
pub configure_namespaces_sound :
    (h : Host) (nss : List Namespace) (w w' : History)
    → configure_namespaces h nss w ≡ (ok tt, w')
    → Distinct [] nss
      × All IsSupported nss
      × (w' ≡ w ++ (shared_calls nss ++ (clone_call (cloned nss) ∷ [])))
unfolding configure_namespaces
configure_namespaces_sound h nss w w' e = configure_from_sound h [] [] nss w w' e

-- On a host that refuses no item, every list without a repeated or an unknown type is accepted.
pub configure_namespaces_complete :
    (h : Host) (nss : List Namespace) (w : History)
    → Distinct [] nss
    → All IsSupported nss
    → IsCompliant h
    → configure_namespaces h nss w
      ≡ (ok tt, w ++ (shared_calls nss ++ (clone_call (cloned nss) ∷ [])))
unfolding configure_namespaces
configure_namespaces_complete h nss w d s quiet = configure_from_complete h [] [] nss w d s quiet
