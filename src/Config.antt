-- ===== src/Config.antt =====
-- The wrappers of container.go around the configuration items of liblxc.
pub mod Free
use lxcri.Base.{
  Option, some, Error, is_ok, sym, ap, String, Bool, true, false, List, [], ◌∷◌, ◌&&◌, all, ◌==◌,
  if◌then◌else◌, wrapped, ◌<>◌, ◌++◌, ok, ◌≡◌, refl, ◌∙◌, append-nil, none, arith, Option-cases,
  inl, inr,
}
use lxcri.Base.Host.{
  Host, M, Call, set_config_item, perform, with_error, query, History, IsCompliant, when,
}

-- `setConfigItem`
unfoldable pub set_item : Host → String → String → M (Unit {0})
set_item h key value =
    with_error (wrapped ("failed to set config item '" <> key <> "=" <> value <> "'"))
      (perform h (set_config_item key value))

-- `getConfigItem`
unfoldable pub get_item : Host → String → M String
get_item h key = query (λ w. first (h.config_item w key))
  where
    first : List String → String
    first [] = ""
    first (val ∷ vals) = if val == "(null)" then "" else val

-- `supportsConfigItem`
unfoldable pub supports_items : Host → List String → Bool
supports_items h keys = all (λ key. h.can_check_items && h.supports_item key) keys

abbrev calls_of : List (String × String) → List Call
calls_of [] = []
calls_of ((key, value) ∷ items) = set_config_item key value ∷ calls_of items

-- The history after `setConfigItem`, whatever it returns.
pub set_item_history :
    (h : Host) (key value : String) (w : History)
    → (set_item h key value w).1 ≡ w ++ (set_config_item key value ∷ [])
unfolding set_item
set_item_history h key value w = elim (Option-cases (h.reply w (set_config_item key value))) [
  | inl e ↦ rw (e, set_item) refl
  | inr (x, e) ↦ rw (e, set_item) refl
]

-- An item that was set without an error was taken by liblxc.
pub set_item-ok :
    (h : Host) (key value : String) (w v : History)
    → set_item h key value w ≡ (ok tt, v)
    → (h.reply w (set_config_item key value) ≡ none) × (v ≡ w ++ (set_config_item key value ∷ []))
unfolding set_item
set_item-ok h key value w v e = go (h.reply w (set_config_item key value)) refl
  where
    go :
        (o : Option Error)
        → h.reply w (set_config_item key value) ≡ o
        → (h.reply w (set_config_item key value) ≡ none)
          × (v ≡ w ++ (set_config_item key value ∷ []))
    go none q = (q, ap (λ r. r.1) (sym e) ∙ set_item_history h key value w)
    go (some x) q =
        let bad : is_ok (set_item h key value w).0 ≡ false = rw (q, set_item) refl in
        absurd (ground (arith, bad, ap (λ r. is_ok r.0) e))

pub set_item_accepted :
    (h : Host) (key value : String) (w : History)
    → h.reply w (set_config_item key value) ≡ none
    → set_item h key value w ≡ (ok tt, w ++ (set_config_item key value ∷ []))
unfolding set_item
set_item_accepted h key value w e = rw (e, set_item) refl

abbrev pub item_if : Bool → String → String → List Call
item_if b key value = if b then set_config_item key value ∷ [] else []

module _ (h : Host) (quiet : IsCompliant h) where
  pub set_item_compliant :
      (key value : String) (w : History)
      → set_item h key value w ≡ (ok tt, w ++ (set_config_item key value ∷ []))
  set_item_compliant key value w = set_item_accepted h key value w (quiet w _)

  pub when-set_item :
      (b : Bool) (key value : String) (w : History)
      → when b (set_item h key value) w ≡ (ok tt, w ++ item_if b key value)
  when-set_item true key value w = set_item_compliant key value w
  when-set_item false key value w = rw append-nil refl
