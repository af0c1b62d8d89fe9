-- ===== src/Create/Limits.antt =====
-- Which resource limits are configured.
use lxcri.Base.{
  String, ◌≡◌, refl, ◌∙◌, ap, Bool, true, false, ◌||◌, List, [], ◌∷◌, ◌++◌, append_assoc,
  append-nil, ◌<>◌, ok, is_ok, contains, decimal, to_lower, trim_prefix, Bool-cases, inl, inr,
}
use lxcri.Base.Host.{Host, Call, History, set_config_item, IsCompliant}
use lxcri.Oci.{Rlimit}
use lxcri.Config.{set_item_compliant}
use lxcri.Create.{configure_limits}

abbrev limit_name : Rlimit → String
limit_name limit = trim_prefix (to_lower limit.type) "rlimit_"

-- A name stands twice among the limits, or is one of those seen before.
abbrev repeats : List String → List Rlimit → Bool
repeats seen [] = false
repeats seen (limit ∷ limits) =
    contains seen (limit_name limit) || repeats (limit_name limit ∷ seen) limits

abbrev limit_items : List Rlimit → List Call
limit_items [] = []
limit_items (limit ∷ limits) =
    set_config_item ("lxc.prlimit." <> limit_name limit)
      (decimal limit.soft <> ":" <> decimal limit.hard)
    ∷ limit_items limits

module _ (h : Host) (quiet : IsCompliant h) where
  -- On a host that refuses no call, the limits are refused exactly if two of them have the same name,
  -- in whatever case it is written and with or without its prefix. Otherwise each is set, in order.
  configure_limits_lem :
      (seen : List String) (limits : List Rlimit) (w : History)
      → (repeats seen limits ≡ true → is_ok (configure_limits h seen limits w).0 ≡ false)
        × (repeats seen limits ≡ false
            → configure_limits h seen limits w ≡ (ok tt, w ++ limit_items limits))
  unfolding configure_limits
  configure_limits_lem seen [] w = (λ x. absurd cc, λ _. rw append-nil refl)
  configure_limits_lem seen (limit ∷ limits) w =
      elim (Bool-cases (contains seen (limit_name limit))) [
        | inl twice ↦ rw (twice, configure_limits) (λ _. refl, λ x. absurd cc)
        | inr once ↦
            let key = "lxc.prlimit." <> limit_name limit in
            let value = decimal limit.soft <> ":" <> decimal limit.hard in
            let item : Call = set_config_item key value in
            let (refused, all_set) =
              configure_limits_lem (limit_name limit ∷ seen) limits (w ++ (item ∷ [])) in
            rw (once, configure_limits)
              (rw (set_item_compliant h quiet key value w) (
                refused,
                λ clean.
                    all_set clean
                    ∙ ap (λ v. (ok tt, v)) (append_assoc w (item ∷ []) (limit_items limits)),
              ))
      ]
