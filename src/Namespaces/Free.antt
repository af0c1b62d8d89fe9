-- ===== src/Namespaces/Free.antt =====
-- The kinds of errors of the namespace tests and of `configureNamespaces`.
use lxcri.Base.{
  ℕ, String, refl, Bool, true, false, Option, none, some, List, [], ◌∷◌, ◌++◌, ◌==◌, ◌<>◌, Error,
  failed, Bool-cases, inl, inr, contains,
}
use lxcri.Base.Host.{Host, M, throw, ◌>>◌}
use lxcri.Base.Free.{IsForeign, Free, >>=-Free, then-Free}
use lxcri.Oci.{Namespace}
use lxcri.Config.{set_item}
use lxcri.Config.Free.{set_item-Free}
use lxcri.Namespaces.{
  is_namespace_shared_with_runtime, configure_from, namespace_map, share_key, Kind,
}

module _ {h : Host} {bad : Error → Bool} {fuel : ℕ} (f : IsForeign h bad fuel) where
  pub shared-Free : (o : Option Namespace) → Free bad (is_namespace_shared_with_runtime h o)
  unfolding is_namespace_shared_with_runtime
  shared-Free none = λ w. refl
  shared-Free (some ns) = elim (Bool-cases (ns.path == "")) [
    | inl own ↦ rw (own, is_namespace_shared_with_runtime) (λ w. refl)
    | inr given ↦
        rw (given, is_namespace_shared_with_runtime)
          (>>=-Free bad _ _ (λ w. f.stat w _)
            (λ a. >>=-Free bad _ _ (λ w. f.stat w _) (λ b w. refl)))
  ]

  pub configure_from-Free :
      (nss : List Namespace) (seen clone : List String) → Free bad (configure_from h seen clone nss)
  unfolding configure_from
  configure_from-Free [] seen clone = set_item-Free f _ _
  configure_from-Free (ns ∷ rest) seen clone =
      go (configure_from-Free rest) (contains seen ns.type) (namespace_map ns.type) (ns.path == "")
    where
      go :
          ((seen clone : List String) → Free bad (configure_from h seen clone rest))
          → (dup : Bool) (o : Option Kind) (own : Bool)
          → Free bad {A = Unit {0}} (elim dup as (λ x. M (Unit {0})) [
            | true ↦ throw (failed ("duplicate namespace " <> ns.type))
            | false ↦ elim o as (λ x. M (Unit {0})) [
              | none ↦ throw (failed ("unsupported namespace " <> ns.type))
              | some n ↦ elim own as (λ x. M (Unit {0})) [
                | true ↦ configure_from h (ns.type ∷ seen) (clone ++ (n.name ∷ [])) rest
                | false ↦
                    set_item h (share_key n) ns.path >> configure_from h (ns.type ∷ seen) clone rest
              ]
            ]
          ])
      go ih true o own = λ w. f.message _
      go ih false none own = λ w. f.message _
      go ih false (some n) true = ih _ _
      go ih false (some n) false = then-Free bad _ _ (set_item-Free f _ _) (ih _ _)
