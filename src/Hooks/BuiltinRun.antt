-- ===== src/Hooks/BuiltinRun.antt =====
-- What a run of the built-in hook program tries.
use mathlib.Core.Path.{subst}
use Prim.Native.Nat.{bit_or}
use lxcri.Base.{
  ℕ, String, ◌≡◌, refl, sym, ap, ◌∙◌, Option, none, some, List, [], ◌∷◌, ◌++◌, ◌==◌, if◌then◌else◌,
  Error, failed, ◌<>◌, Result, ok, err, is_not_exist, append-nil, append_assoc, Bool-cases, inl,
  inr,
}
use lxcri.Base.Host.{Host, History, Call, mknod, chown, mount, bind_step}
use lxcri.Base.FilePath.{join_path}
use lxcri.Oci.{Spec, SpecState, Linux, Process, User, Device}
use lxcri.Hooks.Builtin.{
  get_device_mode, file_type, perm_of, is_enotdir, uint32, id_or, mask_path, create_device,
  create_devices, mask_paths, init_hook, run_builtin,
}

-- What the program tries: to make a device node, with a mode and a number, or to mask a path.
pub data Attempt : Type 0 where
  make_node : String → ℕ → ℕ → Attempt
  hide : String → Attempt

-- The nodes that were asked for and the paths that /dev/null was to be mounted over, oldest first
abbrev attempts : History → List Attempt
attempts [] = []
attempts (mknod path mode dev ∷ w) = make_node path mode dev ∷ attempts w
attempts (mount source target type flags ∷ w) =
    let rest = attempts w in if source == "/dev/null" then hide target ∷ rest else rest
attempts (c ∷ w) = attempts w

-- The bits for the type of a file: a block device, a character device or a named pipe
abbrev type_bits : String → Option ℕ
type_bits type =
    if type == "b"
    then some 0x6000
    else if type == "c"
    then some 0x2000
    else if type == "p"
    then some 0x1000
    else none

-- Its permissions, where there are none those of everybody to read and to write
abbrev permissions : Option ℕ → ℕ
permissions none = 438
permissions (some mode) = mode

perm_of-permissions : (mode : Option ℕ) → perm_of mode ≡ permissions mode
perm_of-permissions none = refl
perm_of-permissions (some mode) = refl

module _ (mkdev : ℕ → ℕ → ℕ) where
  abbrev wanted_node : Option ℕ → String → Device → List Attempt
  wanted_node none rootfs dev = []
  wanted_node (some type) rootfs dev =
      make_node (join_path (rootfs ∷ dev.path ∷ [])) (bit_or type (permissions dev.file_mode))
        (mkdev (uint32 dev.major) (uint32 dev.minor))
      ∷ []

  -- The nodes that a list of devices stands for: those of a known type, in order
  abbrev pub wanted_nodes : String → List Device → List Attempt
  wanted_nodes rootfs [] = []
  wanted_nodes rootfs (dev ∷ devices) =
      wanted_node (type_bits dev.type) rootfs dev ++ wanted_nodes rootfs devices

abbrev pub masked : String → List String → List Attempt
masked rootfs [] = []
masked rootfs (p ∷ paths) = hide (join_path (rootfs ∷ p ∷ [])) ∷ masked rootfs paths

attempts-append : (v w : History) → attempts (v ++ w) ≡ attempts v ++ attempts w
attempts-append [] w = refl
attempts-append (mknod path mode dev ∷ v) w =
    ap (λ l. make_node path mode dev ∷ l) (attempts-append v w)
attempts-append (mount source target type flags ∷ v) w = elim (Bool-cases (source == "/dev/null")) [
  | inl null ↦ rw null (ap (λ l. hide target ∷ l) (attempts-append v w))
  | inr other ↦ rw other (attempts-append v w)
]
attempts-append (c ∷ v) w = attempts-append v w

-- From one history to another, this was tried, in this order.
abbrev pub Tries : History → List Attempt → History → Type 0
Tries w l w' = attempts w' ≡ attempts w ++ l

Tries-nothing : (w : History) → Tries w [] w
Tries-nothing w = sym (append-nil (attempts w))

then-Tries : (u v w : History) (l m : List Attempt) → Tries u l v → Tries v m w → Tries u (l ++ m) w
then-Tries u v w l m first second = second ∙ ap (λ k. k ++ m) first ∙ append_assoc (attempts u) l m

one-Tries : (w : History) (c : Call) → Tries w (attempts (c ∷ [])) (w ++ (c ∷ []))
one-Tries w c = attempts-append w (c ∷ [])

module _ (h : Host) where
  mask_path-Tries : (p : String) (w : History) → Tries w (hide p ∷ []) (mask_path h p w).1
  unfolding mask_path
  mask_path-Tries p w = go (h.reply w null) refl
    where
      null : Call
      null = mount "/dev/null" p "" 4096

      cover : Call
      cover = mount "tmpfs" p "tmpfs" 1

      go : (o : Option Error) → h.reply w null ≡ o → Tries w (hide p ∷ []) (mask_path h p w).1
      go none e = rw (e, mask_path) (one-Tries w null)
      go (some x) e = elim (Bool-cases (is_not_exist x)) [
        | inl missing ↦ rw (e, missing, mask_path) (one-Tries w null)
        | inr there ↦ elim (Bool-cases (is_enotdir x)) [
          | inl directory ↦
              rw (e, there, directory, mask_path)
                (then-Tries w (w ++ (null ∷ [])) ((w ++ (null ∷ [])) ++ (cover ∷ [])) (hide p ∷ [])
                  [] (one-Tries w null) (one-Tries (w ++ (null ∷ [])) cover))
          | inr other ↦ rw (e, there, other, mask_path) (one-Tries w null)
        ]
      ]

  mask_paths-Tries :
      (rootfs : String) (paths : List String) (w : History)
      → ((mask_paths h rootfs paths w).0 ≡ ok tt)
        × Tries w (masked rootfs paths) (mask_paths h rootfs paths w).1
  unfolding mask_paths
  mask_paths-Tries rootfs [] w = (refl, Tries-nothing w)
  mask_paths-Tries rootfs (p ∷ paths) w =
      let path = join_path (rootfs ∷ p ∷ []) in
      let v = (mask_path h path w).1 in
      let (fine, rest) = mask_paths-Tries rootfs paths v in
      (
        fine,
        then-Tries w v (mask_paths h rootfs paths v).1 (hide path ∷ []) (masked rootfs paths)
            (mask_path-Tries path w) rest,
      )

  module _ (mkdev : ℕ → ℕ → ℕ) where
    create_device-known :
        (rootfs : String) (dev : Device) (user : User) (type : ℕ) (w : History)
        → get_device_mode dev ≡ ok (bit_or type (permissions dev.file_mode))
        → Tries w
            (wanted_node mkdev (some type) rootfs dev)
            (create_device h mkdev rootfs dev user w).1
    unfolding create_device
    create_device-known rootfs dev user type w known = go (h.reply w node) refl
      where
        path : String
        path = join_path (rootfs ∷ dev.path ∷ [])

        node : Call
        node =
            mknod path (bit_or type (permissions dev.file_mode))
              (mkdev (uint32 dev.major) (uint32 dev.minor))

        owner : Call
        owner = chown path (id_or dev.uid user.uid) (id_or dev.gid user.gid)

        go :
            (o : Option Error)
            → h.reply w node ≡ o
            → Tries w
                (wanted_node mkdev (some type) rootfs dev)
                (create_device h mkdev rootfs dev user w).1
        go (some x) e = rw (known, e, create_device) (one-Tries w node)
        go none e =
            rw (known, e, create_device)
              (then-Tries w (w ++ (node ∷ [])) ((w ++ (node ∷ [])) ++ (owner ∷ []))
                (wanted_node mkdev (some type) rootfs dev) [] (one-Tries w node)
                (one-Tries (w ++ (node ∷ [])) owner))

    mode_of : Option ℕ → Device → Result ℕ
    mode_of (some type) dev = ok (bit_or type (permissions dev.file_mode))
    mode_of none dev = err (failed ("unsupported device type: " <> dev.type))

    get_device_mode_lem : (dev : Device) → get_device_mode dev ≡ mode_of (type_bits dev.type) dev
    unfolding get_device_mode mode_of file_type
    get_device_mode_lem dev = of_type (type_bits dev.type)
      where
        of_type :
            (o : Option ℕ)
            → elim o [
              | some type ↦ ok (bit_or type (perm_of dev.file_mode))
              | none ↦ err (failed ("unsupported device type: " <> dev.type))
            ]
              ≡ mode_of o dev
        of_type none = refl
        of_type (some type) = ap (λ p. ok (bit_or type p)) (perm_of-permissions dev.file_mode)

    create_device-Tries :
        (rootfs : String) (dev : Device) (user : User) (w : History)
        → Tries w
            (wanted_node mkdev (type_bits dev.type) rootfs dev)
            (create_device h mkdev rootfs dev user w).1
    unfolding create_device mode_of
    create_device-Tries rootfs dev user w = go (type_bits dev.type) (get_device_mode_lem dev)
      where
        go :
            (o : Option ℕ)
            → get_device_mode dev ≡ mode_of o dev
            → Tries w (wanted_node mkdev o rootfs dev) (create_device h mkdev rootfs dev user w).1
        go none e = rw (e, create_device) (Tries-nothing w)
        go (some type) e = create_device-known rootfs dev user type w e

    create_devices-Tries :
        (rootfs : String) (process : Process) (devices : List Device) (w : History)
        → ((create_devices h mkdev rootfs (some process) devices w).0 ≡ ok tt)
          × Tries w
              (wanted_nodes mkdev rootfs devices)
              (create_devices h mkdev rootfs (some process) devices w).1
    unfolding create_devices
    create_devices-Tries rootfs process [] w = (refl, Tries-nothing w)
    create_devices-Tries rootfs process (dev ∷ devices) w =
        let v = (create_device h mkdev rootfs dev process.user w).1 in
        let (fine, rest) = create_devices-Tries rootfs process devices v in
        (
          fine,
          then-Tries w v (create_devices h mkdev rootfs (some process) devices v).1
              (wanted_node mkdev (type_bits dev.type) rootfs dev)
              (wanted_nodes mkdev rootfs devices) (create_device-Tries rootfs dev process.user w)
              rest,
        )

    -- Once its spec is loaded, the built-in hook program returns no error, whatever fails: it tries to
    -- make a node for every device of a known type, with the type and the permissions in its mode and
    -- with its number, and then, behind all of these, to mask every masked path, each once and in order,
    -- below the root of the container.
    pub run_builtin_lem :
        (decode_spec : String → Result Spec) (input : Result SpecState) (rootfs : String)
        (spec : Spec) (process : Process) (linux : Linux) (w v : History)
        → init_hook h decode_spec input w ≡ (ok (rootfs, spec), v)
        → spec.process ≡ some process
        → spec.linux ≡ some linux
        → ((run_builtin h mkdev decode_spec input w).0 ≡ ok tt)
          × Tries v
              (wanted_nodes mkdev rootfs linux.devices ++ masked rootfs linux.masked_paths)
              (run_builtin h mkdev decode_spec input w).1
    unfolding run_builtin
    run_builtin_lem decode_spec input rootfs spec process linux w v begun has_process has_linux =
        let x = (create_devices h mkdev rootfs (some process) linux.devices v).1 in
        let (made, nodes_tried) = create_devices-Tries rootfs process linux.devices v in
        let (hidden, masks_tried) = mask_paths-Tries rootfs linux.masked_paths x in
        let step : run_builtin h mkdev decode_spec input w
            ≡ bind_step (create_devices h mkdev rootfs (some process) linux.devices v)
                (λ _. mask_paths h rootfs linux.masked_paths) =
          rw (begun, has_linux, has_process, run_builtin) refl in
        let next : bind_step (create_devices h mkdev rootfs (some process) linux.devices v)
              (λ _. mask_paths h rootfs linux.masked_paths)
            ≡ mask_paths h rootfs linux.masked_paths x =
          ap (λ r. bind_step (r, x) (λ _. mask_paths h rootfs linux.masked_paths)) made in
        let e = step ∙ next in
        (
          ap (λ r. r.0) e ∙ hidden,
          subst
              (λ r.
                Tries v
                  (wanted_nodes mkdev rootfs linux.devices ++ masked rootfs linux.masked_paths) r.1)
              (sym e)
              (then-Tries v x (mask_paths h rootfs linux.masked_paths x).1
                (wanted_nodes mkdev rootfs linux.devices) (masked rootfs linux.masked_paths)
                nodes_tried masks_tried),
        )
