-- ===== src/Create/Steps.antt =====
-- The kinds of errors of the steps of `configureContainer` that are about the log, the hooks and the
-- devices.
use lxcri.Base.{
  ℕ, String, ◌≡◌, refl, Bool, true, false, not, ◌||◌, Option, List, [], ◌∷◌, ◌++◌, ◌==◌, Error,
  wrapped, Result, ok, err, Bool-cases, inl, inr, is_empty,
}
use lxcri.Base.Host.{Host, M, perform, return, with_error, when, set_log_level, set_log_file, ◌>>◌}
use lxcri.Base.Free.{bad_of, IsForeign, Free, then-Free, when-Free, perform-Free, wrapped-Free}
use lxcri.Oci.{Device, DeviceCgroup, Hooks}
use lxcri.Base.Int.{eq_ℤ}
use lxcri.Config.{set_item}
use lxcri.Config.Free.{set_item-Free}
use lxcri.Container.Log.{set_log, parse_container_log_level}
use lxcri.Specki.Devices.{
  same_device, is_device_enabled, add_missing, allow_essential_devices, essential_devices,
  essential_devices_allow, rules_or_none,
}
use lxcri.Hooks.{merge_hooks, register_hooks, configure_hooks}

module _ {h : Host} {bad : Error → Bool} {fuel : ℕ} (f : IsForeign h bad fuel) where
  pub set_log-Free : (filename level : String) → Free bad (set_log h filename level)
  unfolding set_log
  set_log-Free filename level w =
      let set_level : M (Unit {0}) =
        with_error (wrapped "failed to set container loglevel")
          (perform h (set_log_level (parse_container_log_level level))) in
      let set_file : M (Unit {0}) =
        with_error (wrapped "failed to set container log file")
          (perform h (set_log_file filename)) in
      then-Free bad set_level set_file (wrapped-Free f _ _ (perform-Free f _))
        (wrapped-Free f _ _ (perform-Free f _)) _

  register_hooks-Free : (exec : String) (hooks : Hooks) → Free bad (register_hooks h exec hooks)
  unfolding register_hooks
  register_hooks-Free exec hooks =
      let pre : M (Unit {0}) =
        when (not (is_empty hooks.prestart) || not (is_empty hooks.create_runtime))
          (set_item h "lxc.hook.pre-mount" exec) in
      let mount : M (Unit {0}) =
        when (not (is_empty hooks.create_container)) (set_item h "lxc.hook.mount" exec) in
      let start : M (Unit {0}) =
        when (not (is_empty hooks.start_container)) (set_item h "lxc.hook.start" exec) in
      then-Free bad (set_item h "lxc.hook.version" "1") (pre >> (mount >> start))
        (set_item-Free f _ _)
        (then-Free bad pre (mount >> start) (when-Free bad _ _ (set_item-Free f _ _)) (
          then-Free bad mount start (when-Free bad _ _ (set_item-Free f _ _))
            (when-Free bad _ _ (set_item-Free f _ _))))

  pub configure_hooks-Free :
      (exec : String) (rt : Hooks) (spec : Option Hooks) → Free bad (configure_hooks h exec rt spec)
  unfolding configure_hooks
  configure_hooks-Free exec rt spec =
      then-Free bad (register_hooks h exec (merge_hooks rt spec)) (return (merge_hooks rt spec))
        (register_hooks-Free exec _) (λ w. refl)

  same_device-good : (d dev : Device) → bad_of bad (same_device d dev) ≡ false
  unfolding same_device
  same_device-good d dev = elim (Bool-cases (d.type == dev.type)) [
    | inr e ↦ rw (e, same_device) (f.message _)
    | inl e ↦ elim (Bool-cases (eq_ℤ d.major dev.major)) [
      | inr g ↦ rw (e, g, same_device) (f.message _)
      | inl g ↦ elim (Bool-cases (eq_ℤ d.minor dev.minor)) [
        | inr k ↦ rw (e, g, k, same_device) (f.message _)
        | inl k ↦ rw (e, g, k, same_device) refl
      ]
    ]
  ]

  is_device_enabled-good :
      (ds : List Device) (dev : Device) → bad_of bad (is_device_enabled ds dev) ≡ false
  unfolding is_device_enabled
  is_device_enabled-good [] dev = refl
  is_device_enabled-good (d ∷ ds) dev =
      let rest = is_device_enabled-good ds dev in
      elim (Bool-cases (d.path == dev.path)) [
        | inl here ↦ rw (here, is_device_enabled) (same_device-good d dev)
        | inr other ↦ rw (other, is_device_enabled) rest
      ]

  add_missing-good : (devs devices : List Device) → bad_of bad (add_missing devices devs) ≡ false
  unfolding add_missing
  add_missing-good [] devices = refl
  add_missing-good (dev ∷ devs) devices =
      go (add_missing-good devs) (is_device_enabled devices dev)
        (is_device_enabled-good devices dev)
    where
      go :
          ((l : List Device) → bad_of bad (add_missing l devs) ≡ false)
          → (r : Result Bool) → bad_of bad r ≡ false
          → bad_of bad (elim r as (λ x. Result (List Device)) [
            | err e ↦ err e
            | ok b ↦ elim b as (λ x. Result (List Device)) [
              | true ↦ add_missing devices devs
              | false ↦ add_missing (devices ++ (dev ∷ [])) devs
            ]
          ])
            ≡ false
      go ih (err e) q = q
      go ih (ok true) q = ih _
      go ih (ok false) q = ih _

  pub allow_essential_devices-good :
      (devices : List Device) (rules : Option (List DeviceCgroup))
      → bad_of bad (allow_essential_devices devices rules) ≡ false
  unfolding allow_essential_devices
  allow_essential_devices-good devices rules =
      go (add_missing devices essential_devices) (add_missing-good essential_devices devices)
    where
      go :
          (r : Result (List Device))
          → bad_of bad r ≡ false
          → bad_of bad (elim r as (λ x. Result (List Device × List DeviceCgroup)) [
            | err e ↦ err e
            | ok added ↦ ok (added, rules_or_none rules ++ essential_devices_allow)
          ])
            ≡ false
      go (err e) q = q
      go (ok added) q = refl
