-- ===== src/Specki/Devices.antt =====
-- `EssentialDevices`, `IsDeviceEnabled` and `AllowEssentialDevices` of pkg/specki/specki.go.
pub mod Essential
use lxcri.Base.{
  ℕ, String, ◌≡◌, ◌≢◌, refl, sym, ◌∙◌, ap, Bool, true, false, not, Option, none, some, List, [],
  ◌∷◌, ◌++◌, append_assoc, append-nil, ◌==◌, eq_refl, ◌<>◌, if◌then◌else◌, failed, Result, ok, err,
  All, Bool-cases, inl, inr,
}
use lxcri.Base.Int.{ℤ, pos, eq_ℤ, decimal_ℤ}
use lxcri.Oci.{Device, DeviceCgroup}

unfoldable pub char_device : ℕ → ℕ → String → Device
char_device major minor path = record {
  path = path;
  type = "c";
  major = pos major;
  minor = pos minor;
  file_mode = some 438;
  uid = none;
  gid = none;
}

-- `EssentialDevices`; the mode 0666 is 438
unfoldable pub essential_devices : List Device
unfolding char_device
essential_devices =
    char_device 1 3 "/dev/null"
    ∷ char_device 1 5 "/dev/zero"
    ∷ char_device 1 7 "/dev/full"
    ∷ char_device 1 8 "/dev/random"
    ∷ char_device 1 9 "/dev/urandom"
    ∷ char_device 5 0 "/dev/tty"
    ∷ []

unfoldable pub allow_char : ℕ → Option ℕ → DeviceCgroup
allow_char major minor = record {
  allow = true;
  type = "c";
  major = some (pos major);
  minor = minor_of minor;
  access = "rwm";
}
  where
    minor_of : Option ℕ → Option ℤ
    minor_of none = none
    minor_of (some n) = some (pos n)

-- `EssentialDevicesAllow`
unfoldable pub essential_devices_allow : List DeviceCgroup
unfolding allow_char
essential_devices_allow =
    allow_char 1 (some 3)
    ∷ allow_char 1 (some 5)
    ∷ allow_char 1 (some 7)
    ∷ allow_char 1 (some 8)
    ∷ allow_char 1 (some 9)
    ∷ allow_char 5 (some 0)
    ∷ allow_char 5 (some 2)
    ∷ allow_char 88 none
    ∷ []

-- The tests on a device that has the path of `dev`; the text for the minor number names the major one.
unfoldable pub same_device : Device → Device → Result Bool
same_device d dev =
    if not (d.type == dev.type)
    then err (
        failed
          (dev.path <> " type mismatch (expected " <> dev.type <> " but was " <> d.type <> ")"))
    else if not (eq_ℤ d.major dev.major)
    then err (
        failed (
          dev.path
          <> " major number mismatch (expected "
          <> decimal_ℤ dev.major
          <> " but was "
          <> decimal_ℤ d.major
          <> ")"))
    else if not (eq_ℤ d.minor dev.minor)
    then err (
        failed (
          dev.path
          <> " major number mismatch (expected "
          <> decimal_ℤ dev.major
          <> " but was "
          <> decimal_ℤ d.major
          <> ")"))
    else ok true

-- `IsDeviceEnabled`
unfoldable pub is_device_enabled : List Device → Device → Result Bool
is_device_enabled [] dev = ok false
is_device_enabled (d ∷ ds) dev =
    let rest = is_device_enabled ds dev in if d.path == dev.path then same_device d dev else rest

-- The loop of `AllowEssentialDevices`
unfoldable pub add_missing : List Device → List Device → Result (List Device)
add_missing devices [] = ok devices
add_missing devices (dev ∷ devs) =
    let as_is = add_missing devices devs in
    let added = add_missing (devices ++ (dev ∷ [])) devs in
    elim (is_device_enabled devices dev) [ err e ↦ err e | ok true ↦ as_is | ok false ↦ added ]

abbrev pub rules_or_none : Option (List DeviceCgroup) → List DeviceCgroup
rules_or_none none = []
rules_or_none (some rules) = rules

-- `AllowEssentialDevices`: the devices and the rules of the spec behind it
unfoldable pub allow_essential_devices :
    List Device → Option (List DeviceCgroup) → Result (List Device × List DeviceCgroup)
allow_essential_devices devices rules = elim (add_missing devices essential_devices) [
  | err e ↦ err e
  | ok added ↦ ok (added, rules_or_none rules ++ essential_devices_allow)
]

same_device-not-false : (d dev : Device) → same_device d dev ≢ ok false
unfolding same_device
same_device-not-false d dev = elim (Bool-cases (d.type == dev.type)) [
  | inr e ↦ rw (e, same_device) (λ x. cc)
  | inl e ↦ elim (Bool-cases (eq_ℤ d.major dev.major)) [
    | inr f ↦ rw (e, f, same_device) (λ x. cc)
    | inl f ↦ elim (Bool-cases (eq_ℤ d.minor dev.minor)) [
      | inr g ↦ rw (e, f, g, same_device) (λ x. cc)
      | inl g ↦ rw (e, f, g, same_device) (λ x. cc)
    ]
  ]
]

module _ (d : Device) (ds : List Device) (dev : Device) where
  pub enabled_here :
      (d.path == dev.path) ≡ true → is_device_enabled (d ∷ ds) dev ≡ same_device d dev
  unfolding is_device_enabled
  enabled_here e = rw e refl

  pub enabled_below :
      (d.path == dev.path) ≡ false → is_device_enabled (d ∷ ds) dev ≡ is_device_enabled ds dev
  unfolding is_device_enabled
  enabled_below e = rw e refl

enabled_after :
    (ds : List Device) (dev : Device)
    → is_device_enabled ds dev ≡ ok false
    → same_device dev dev ≡ ok true
    → is_device_enabled (ds ++ (dev ∷ [])) dev ≡ ok true
unfolding is_device_enabled
enabled_after [] dev e same = rw (eq_refl dev.path) same
enabled_after (d ∷ ds) dev e same = elim (Bool-cases (d.path == dev.path)) [
  | inl p ↦ absurd (same_device-not-false d dev (sym (enabled_here d ds dev p) ∙ e))
  | inr p ↦
      enabled_below d (ds ++ (dev ∷ [])) dev p
      ∙ enabled_after ds dev (sym (enabled_below d ds dev p) ∙ e) same
]

enabled_later :
    (ds more : List Device) (dev : Device)
    → is_device_enabled ds dev ≡ ok true
    → is_device_enabled (ds ++ more) dev ≡ ok true
unfolding is_device_enabled
enabled_later [] more dev e = absurd cc
enabled_later (d ∷ ds) more dev e = elim (Bool-cases (d.path == dev.path)) [
  | inl p ↦ enabled_here d (ds ++ more) dev p ∙ sym (enabled_here d ds dev p) ∙ e
  | inr p ↦
      enabled_below d (ds ++ more) dev p
      ∙ enabled_later ds more dev (sym (enabled_below d ds dev p) ∙ e)
]

-- The devices grew at their end, and those asked for are enabled.
abbrev pub Provides : List Device → List Device → List Device → Type 0
Provides devices devs added =
    ((extra : List Device) × (added ≡ devices ++ extra))
    × All (λ dev. is_device_enabled added dev ≡ ok true) devs

pub add_missing-ok :
    (devices devs added : List Device)
    → All (λ dev. same_device dev dev ≡ ok true) devs
    → add_missing devices devs ≡ ok added
    → Provides devices devs added
unfolding add_missing
add_missing-ok devices [] added _ e = (([], joined), tt)
  where
    joined : added ≡ devices ++ []
    joined = rw (append-nil devices) cc
add_missing-ok devices (dev ∷ devs) added (same, rest) e =
    go (is_device_enabled devices dev) refl (add_missing-ok devices devs added rest)
      (add_missing-ok (devices ++ (dev ∷ [])) devs added rest)
  where
    go :
        (r : Result Bool)
        → is_device_enabled devices dev ≡ r
        → (add_missing devices devs ≡ ok added → Provides devices devs added)
        → (add_missing (devices ++ (dev ∷ [])) devs ≡ ok added
            → Provides (devices ++ (dev ∷ [])) devs added)
        → Provides devices (dev ∷ devs) added
    go (err x) q ih ih' =
        let stuck : add_missing devices (dev ∷ devs) ≡ err x = rw (q, add_missing) refl in absurd cc
    go (ok true) q ih ih' =
        let step : add_missing devices (dev ∷ devs) ≡ add_missing devices devs =
          rw (q, add_missing) refl in
        let ((extra, grown), all) = ih (sym step ∙ e) in
        (
          (extra, grown),
          (ap (λ l. is_device_enabled l dev) grown ∙ enabled_later devices extra dev q, all),
        )
    go (ok false) q ih ih' =
        let step : add_missing devices (dev ∷ devs) ≡ add_missing (devices ++ (dev ∷ [])) devs =
          rw (q, add_missing) refl in
        let ((extra, grown), all) = ih' (sym step ∙ e) in
        (
          (dev ∷ extra, grown ∙ append_assoc devices (dev ∷ []) extra),
          (
            ap (λ l. is_device_enabled l dev) grown
                ∙ enabled_later (devices ++ (dev ∷ [])) extra dev
                    (enabled_after devices dev q same),
            all,
          ),
        )

pub essential_same : All (λ dev. same_device dev dev ≡ ok true) essential_devices
unfolding same_device essential_devices
essential_same = (refl, (refl, (refl, (refl, (refl, (refl, tt))))))
