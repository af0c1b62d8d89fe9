-- ===== src/Specki/Devices/Essential.antt =====
-- Which devices and rules `AllowEssentialDevices` leaves.
use lxcri.Base.{
  ℕ, String, ◌≡◌, refl, sym, ◌∙◌, ap, true, Option, none, some, List, [], ◌∷◌, ◌++◌, map, ◌==◌,
  eq_iff, Result, ok, err, All, Bool-cases, ◌⊎◌, inl, inr,
}
use lxcri.Base.Int.{ℤ, pos, eq_ℤ, eq_ℤ_lem}
use lxcri.Oci.{Device, DeviceCgroup}
use lxcri.Specki.Devices.{
  char_device, allow_char, essential_devices, essential_devices_allow, same_device,
  is_device_enabled, add_missing, rules_or_none, allow_essential_devices, Provides, add_missing-ok,
  essential_same, enabled_here, enabled_below,
}

-- The list has a device of this path, which is a character device with these numbers.
abbrev pub HasDevice : List Device → String × ℕ × ℕ → Type 0
HasDevice [] node = ⊥
HasDevice (d ∷ ds) (path, major, minor) =
    ((d.path ≡ path) × (d.type ≡ "c") × (d.major ≡ pos major) × (d.minor ≡ pos minor))
    ⊎ HasDevice ds (path, major, minor)

-- The devices that every container must have, with their numbers
abbrev pub essential_nodes : List (String × ℕ × ℕ)
essential_nodes =
    ("/dev/null", 1, 3)
    ∷ ("/dev/zero", 1, 5)
    ∷ ("/dev/full", 1, 7)
    ∷ ("/dev/random", 1, 8)
    ∷ ("/dev/urandom", 1, 9)
    ∷ ("/dev/tty", 5, 0)
    ∷ []

-- The rule that allows everything for the character devices of these numbers
abbrev pub allowed_node : ℕ × Option ℤ → DeviceCgroup
allowed_node (major, minor) = record {
  allow = true;
  type = "c";
  major = some (pos major);
  minor = minor;
  access = "rwm";
}

abbrev pub allowed_numbers : List (ℕ × Option ℤ)
allowed_numbers =
    (1, some (pos 3))
    ∷ (1, some (pos 5))
    ∷ (1, some (pos 7))
    ∷ (1, some (pos 8))
    ∷ (1, some (pos 9))
    ∷ (5, some (pos 0))
    ∷ (5, some (pos 2))
    ∷ (88, none)
    ∷ []

same_device-ok :
    (d dev : Device)
    → same_device d dev ≡ ok true
    → (d.type ≡ dev.type) × (d.major ≡ dev.major) × (d.minor ≡ dev.minor)
unfolding same_device
same_device-ok d dev = elim (Bool-cases (d.type == dev.type)) [
  | inr e ↦ rw (e, same_device) (λ x. absurd cc)
  | inl e ↦ elim (Bool-cases (eq_ℤ d.major dev.major)) [
    | inr f ↦ rw (e, f, same_device) (λ x. absurd cc)
    | inl f ↦ elim (Bool-cases (eq_ℤ d.minor dev.minor)) [
      | inr g ↦ rw (e, f, g, same_device) (λ x. absurd cc)
      | inl g ↦ λ x. ((eq_iff _ _).0 e, eq_ℤ_lem _ _ f, eq_ℤ_lem _ _ g)
    ]
  ]
]

enabled-HasDevice :
    (ds : List Device) (dev : Device) (major minor : ℕ)
    → dev.type ≡ "c"
    → dev.major ≡ pos major
    → dev.minor ≡ pos minor
    → is_device_enabled ds dev ≡ ok true
    → HasDevice ds (dev.path, major, minor)
unfolding is_device_enabled
enabled-HasDevice [] dev major minor type maj min e = absurd cc
enabled-HasDevice (d ∷ ds) dev major minor type maj min e = elim (Bool-cases (d.path == dev.path)) [
  | inl here ↦
      let (t, a, b) = same_device-ok d dev (sym (enabled_here d ds dev here) ∙ e) in
      inl ((eq_iff _ _).0 here, t ∙ type, a ∙ maj, b ∙ min)
  | inr other ↦
      inr
        (enabled-HasDevice ds dev major minor type maj min (sym (enabled_below d ds dev other) ∙ e))
]

essential-HasDevice :
    (ds : List Device)
    → All (λ dev. is_device_enabled ds dev ≡ ok true) essential_devices
    → All (HasDevice ds) essential_nodes
unfolding essential_devices char_device
essential-HasDevice ds (a, (b, (c, (d, (e, (g, _)))))) = (
  enabled-HasDevice ds (char_device 1 3 "/dev/null") 1 3 refl refl refl a,
  (
    enabled-HasDevice ds (char_device 1 5 "/dev/zero") 1 5 refl refl refl b,
    (
      enabled-HasDevice ds (char_device 1 7 "/dev/full") 1 7 refl refl refl c,
      (
        enabled-HasDevice ds (char_device 1 8 "/dev/random") 1 8 refl refl refl d,
        (
          enabled-HasDevice ds (char_device 1 9 "/dev/urandom") 1 9 refl refl refl e,
          (enabled-HasDevice ds (char_device 5 0 "/dev/tty") 5 0 refl refl refl g, tt),
        ),
      ),
    ),
  ),
)

allow_essential_devices_lem :
    (devices added : List Device) (rules : Option (List DeviceCgroup)) (allowed : List DeviceCgroup)
    → allow_essential_devices devices rules ≡ ok (added, allowed)
    → Provides devices essential_devices added
      × (allowed ≡ rules_or_none rules ++ map allowed_node allowed_numbers)
unfolding allow_essential_devices essential_devices_allow allow_char
allow_essential_devices_lem devices added rules allowed e =
    go (add_missing devices essential_devices) refl
  where
    go :
        (r : Result (List Device))
        → add_missing devices essential_devices ≡ r
        → Provides devices essential_devices added
          × (allowed ≡ rules_or_none rules ++ map allowed_node allowed_numbers)
    go (err x) q =
        let stuck : allow_essential_devices devices rules ≡ err x =
          rw (q, allow_essential_devices) refl in
        absurd cc
    go (ok l) q =
        let fine : allow_essential_devices devices rules
            ≡ ok (l, rules_or_none rules ++ essential_devices_allow) =
          rw (q, allow_essential_devices) refl in
        let result : List Device × List DeviceCgroup =
          (l, rules_or_none rules ++ essential_devices_allow) in
        let same : result ≡ (added, allowed) = cc in
        (
          add_missing-ok devices essential_devices added essential_same (q ∙ ap (λ p. ok p.0) same),
          ap (λ p. p.1) (sym same),
        )

-- If `AllowEssentialDevices` succeeds, the devices that it leaves are those of the spec, unchanged, with
-- others behind, and among them is a character device with the right numbers for each of /dev/null, zero,
-- full, random, urandom and tty; and behind the rules of the spec stand those that allow the devices
-- of these numbers, of /dev/ptmx and of the pseudo terminals.
pub allow_essential_devices_sound :
    (devices added : List Device) (rules : Option (List DeviceCgroup)) (allowed : List DeviceCgroup)
    → allow_essential_devices devices rules ≡ ok (added, allowed)
    → ((extra : List Device) × (added ≡ devices ++ extra))
      × All (HasDevice added) essential_nodes
      × (allowed ≡ rules_or_none rules ++ map allowed_node allowed_numbers)
allow_essential_devices_sound devices added rules allowed e =
    let (provides, is) = allow_essential_devices_lem devices added rules allowed e in
    (provides.0, essential-HasDevice added provides.1, is)
