-- ===== src/Cgroup/Devices.antt =====
-- `configureDeviceController` of cgroup.go.
use lxcri.Base.{
  String, ◌≡◌, refl, ◌∙◌, ap, Bool, true, false, not, ◌||◌, Option, none, some, List, [], ◌∷◌, ◌++◌,
  append_assoc, append-nil, ◌==◌, ◌<>◌, if◌then◌else◌, failed, ok, err, arith, All, Bool-cases, inl,
  inr,
}
use lxcri.Base.Host.{Host, M, Call, History, set_config_item, return, throw, IsCompliant, ◌>>◌}
use lxcri.Base.Int.{ℤ, decimal_ℤ}
use lxcri.Oci.{DeviceCgroup}
use lxcri.Config.{set_item, set_item_compliant}

number : Option ℤ → String
number none = "*"
number (some n) = decimal_ℤ n

-- The value for devices of one type
unfoldable pub rule_value : String → DeviceCgroup → String
unfolding number
rule_value type dev =
    type <> " " <> number dev.major <> ":" <> number dev.minor <> " " <> dev.access

unfoldable pub rule_key : DeviceCgroup → String
rule_key dev = if dev.allow then "lxc.cgroup2.devices.allow" else "lxc.cgroup2.devices.deny"

module _ (h : Host) where
  -- One round of the loop. A rule that denies every type of device is skipped.
  unfoldable pub configure_device : DeviceCgroup → M (Unit {0})
  configure_device dev =
      if dev.type == ""
      then if not dev.allow
        then return tt
        else set_item h (rule_key dev) (rule_value "b" dev)
          >> set_item h (rule_key dev) (rule_value "c" dev)
      else if dev.type == "b" || dev.type == "c"
      then set_item h (rule_key dev) (rule_value dev.type dev)
      else throw (failed "invalid cgroup2 device - invalid type")

  -- `configureDeviceController`
  unfoldable pub configure_devices : List DeviceCgroup → M (Unit {0})
  configure_devices [] = return tt
  configure_devices (dev ∷ devs) = do configure_device dev; configure_devices devs

-- The types that a rule is written for, where its own type is one of the three that are known.
abbrev device_types : DeviceCgroup → List String
device_types dev =
    if dev.type == "" then if dev.allow then "b" ∷ "c" ∷ [] else [] else dev.type ∷ []

abbrev written_rules : DeviceCgroup → List String → List Call
written_rules dev [] = []
written_rules dev (type ∷ types) =
    set_config_item (rule_key dev) (rule_value type dev) ∷ written_rules dev types

abbrev all_rules : List DeviceCgroup → List Call
all_rules [] = []
all_rules (dev ∷ devs) = written_rules dev (device_types dev) ++ all_rules devs

abbrev is_known_type : String → Bool
is_known_type type = type == "" || (type == "b" || type == "c")

module _ (h : Host) (quiet : IsCompliant h) where
  configure_device_lem :
      (dev : DeviceCgroup) (w : History)
      → is_known_type dev.type ≡ true
      → configure_device h dev w ≡ (ok tt, w ++ written_rules dev (device_types dev))
  unfolding configure_device
  configure_device_lem dev w known = elim (Bool-cases (dev.type == "")) [
    | inr one ↦
        let known' : (dev.type == "b" || dev.type == "c") ≡ true = ground arith in
        rw (one, known', configure_device)
          (set_item_compliant h quiet (rule_key dev) (rule_value dev.type dev) w)
    | inl any ↦ rw (any, configure_device) (untyped dev.allow)
  ]
    where
      key : String
      key = rule_key dev

      both :
          (set_item h key (rule_value "b" dev) >> set_item h key (rule_value "c" dev)) w
          ≡ (ok tt, w ++ written_rules dev ("b" ∷ "c" ∷ []))
      both =
          let first : Call = set_config_item key (rule_value "b" dev) in
          let second : Call = set_config_item key (rule_value "c" dev) in
          rw (set_item_compliant h quiet key (rule_value "b" dev) w) (
            set_item_compliant h quiet key (rule_value "c" dev) (w ++ (first ∷ []))
            ∙ ap (λ v. (ok tt, v)) (append_assoc w (first ∷ []) (second ∷ [])))

      untyped :
          (allow : Bool)
          → (if not allow
                then return tt
                else set_item h key (rule_value "b" dev) >> set_item h key (rule_value "c" dev))
              w
            ≡ (ok tt, w ++ written_rules dev (if allow then "b" ∷ "c" ∷ [] else []))
      untyped true = both
      untyped false = rw append-nil refl

  -- On a host that refuses no call, rules of the three known types are written in order: for a rule
  -- that names no type one for block and one for character devices if it allows, none if it denies.
  configure_devices_lem :
      (devs : List DeviceCgroup) (w : History)
      → All (λ dev. is_known_type dev.type ≡ true) devs
      → configure_devices h devs w ≡ (ok tt, w ++ all_rules devs)
  unfolding configure_devices
  configure_devices_lem [] w known = rw append-nil refl
  configure_devices_lem (dev ∷ devs) w (here, later) =
      rw (configure_device_lem dev w here, configure_devices)
        (configure_devices_lem devs (w ++ written_rules dev (device_types dev)) later
          ∙ ap (λ v. (ok tt, v)) (append_assoc w _ _))

  -- A rule of another type ends the loop with an error, behind the rules before it.
  configure_devices_invalid :
      (before : List DeviceCgroup) (dev : DeviceCgroup) (after : List DeviceCgroup) (w : History)
      → All (λ dev. is_known_type dev.type ≡ true) before
      → is_known_type dev.type ≡ false
      → configure_devices h (before ++ (dev ∷ after)) w
        ≡ (err (failed "invalid cgroup2 device - invalid type"), w ++ all_rules before)
  unfolding configure_devices configure_device
  configure_devices_invalid [] dev after w _ bad =
      let typed : (dev.type == "") ≡ false = ground arith in
      let other : (dev.type == "b" || dev.type == "c") ≡ false = ground arith in
      rw (typed, other, configure_devices, configure_device, append-nil) refl
  configure_devices_invalid (d ∷ before) dev after w (here, later) bad =
      rw (configure_device_lem d w here, configure_devices)
        (configure_devices_invalid before dev after (w ++ written_rules d (device_types d)) later
            bad
          ∙ ap (λ v. (err (failed "invalid cgroup2 device - invalid type"), v))
              (append_assoc w _ _))
