-- ===== src/Config/Free.antt =====
-- The kinds of errors of `setConfigItem`.
use lxcri.Base.{ℕ, String, Bool, Error}
use lxcri.Base.Host.{Host}
use lxcri.Base.Free.{IsForeign, Free, perform-Free, wrapped-Free}
use lxcri.Config.{set_item}

module _ {h : Host} {bad : Error → Bool} {fuel : ℕ} (f : IsForeign h bad fuel) where
  pub set_item-Free : (key value : String) → Free bad (set_item h key value)
  unfolding set_item
  set_item-Free key value = wrapped-Free f _ _ (perform-Free f _)
