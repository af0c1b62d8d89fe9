-- ===== src/Hooks/Builtin.antt =====
-- cmd/lxcri-hook-builtin/main.go, which makes the devices of a container and masks paths, with `InitHook`
-- and `LoadSpecJSON` of pkg/specki/specki.go. The device number of unix.Mkdev and what the JSON decoder
-- makes of a text are parameters.
use Prim.Native.Nat.{bit_or}
use lxcri.Base.{
  ℕ, String, Bool, true, false, Option, none, some, List, [], ◌∷◌, ◌<>◌, ◌==◌, ◌%◌, ◌-◌, ◌^◌,
  if◌then◌else◌, Error, Errno, failed, nil_dereference, Result, ok, err, is_not_exist,
}
use lxcri.Base.Host.{
  Host, M, mknod, chown, mount, perform, return, throw, lift, with_error, attempt, ◌>>=◌, ◌>>◌,
}
use lxcri.Base.Int.{ℤ, pos, negsuc}
use lxcri.Base.FilePath.{join_path, is_abs}
use lxcri.Oci.{Spec, SpecState, Process, User, Device}
use lxcri.Specki.Json.{decode_json_file}
use lxcri.Create.Configure.{followed}

-- The file type of a device
unfoldable pub file_type : String → Option ℕ
file_type type =
    if type == "b"
    then some 0x6000
    else if type == "c"
    then some 0x2000
    else if type == "p"
    then some 0x1000
    else none

-- The permissions of a device; 438 is 0666.
abbrev pub perm_of : Option ℕ → ℕ
perm_of none = 438
perm_of (some mode) = mode

-- `getDeviceMode`
unfoldable pub get_device_mode : Device → Result ℕ
get_device_mode dev = elim (file_type dev.type) [
  | some type ↦ ok (bit_or type (perm_of dev.file_mode))
  | none ↦ err (failed ("unsupported device type: " <> dev.type))
]

-- The conversion of an int64 to uint32
unfoldable pub uint32 : ℤ → ℕ
uint32 (pos n) = n % 2 ^ 32
uint32 (negsuc n) = (2 ^ 32 - 1) - n % 2 ^ 32

abbrev pub id_or : Option ℕ → ℕ → ℕ
id_or none id = id
id_or (some own) id = own

-- An error of mknod keeps only its text.
abbrev mknod_error : Error → Error
mknod_error e = failed "mknod failed"

-- `err == unix.ENOTDIR`
abbrev pub is_enotdir : Error → Bool
is_enotdir (Error.errno Errno.enotdir) = true
is_enotdir _ = false

module _ (h : Host) where
  -- `maskPath`: a path that does not exist is left, a directory gets an empty file system. MS_BIND is
  -- 4096, MS_RDONLY is 1.
  abbrev judge_mask : String → Result (Unit {0}) → M (Unit {0})
  judge_mask p (ok u) = return tt
  judge_mask p (err e) =
      if is_not_exist e
      then return tt
      else if is_enotdir e
      then perform h (mount "tmpfs" p "tmpfs" 1)
      else throw e

  unfoldable pub mask_path : String → M (Unit {0})
  mask_path p = do outcome ← attempt (perform h (mount "/dev/null" p "" 4096)); judge_mask p outcome

  module _ (mkdev : ℕ → ℕ → ℕ) where
    -- `createDevice`
    unfoldable pub create_device : String → Device → User → M (Unit {0})
    create_device rootfs dev user = do
      mode ← lift (get_device_mode dev)
      let path : String = join_path (rootfs ∷ dev.path ∷ [])
      with_error mknod_error
          (perform h (mknod path mode (mkdev (uint32 dev.major) (uint32 dev.minor))))
      perform h (chown path (id_or dev.uid user.uid) (id_or dev.gid user.gid))

    -- The loop over the devices. An error is only printed.
    unfoldable pub create_devices : String → Option Process → List Device → M (Unit {0})
    create_devices rootfs process [] = return tt
    create_devices rootfs process (dev ∷ devices) = do
      p ← lift (followed process)
      made ← attempt (create_device rootfs dev p.user)
      create_devices rootfs process devices

  -- The loop over the masked paths. An error is only printed.
  unfoldable pub mask_paths : String → List String → M (Unit {0})
  mask_paths rootfs [] = return tt
  mask_paths rootfs (p ∷ paths) = do
    masked ← attempt (mask_path (join_path (rootfs ∷ p ∷ [])))
    mask_paths rootfs paths

  -- `InitHook`, from the state on the standard input. It follows the root of a spec that it could not
  -- load, which has none then.
  abbrev loaded_spec : Result Spec → Result Spec
  loaded_spec (ok spec) = ok spec
  loaded_spec (err e) = err nil_dereference

  unfoldable pub init_hook : (String → Result Spec) → Result SpecState → M (String × Spec)
  init_hook decode_spec input = do
    state ← lift input
    loaded ←
        attempt (decode_json_file h decode_spec (join_path (state.bundle ∷ "config.json" ∷ [])))
    spec ← lift (loaded_spec loaded)
    root ← lift (followed spec.root)
    return (if is_abs root.path then root.path else join_path (state.bundle ∷ root.path ∷ []), spec)

  -- `main`
  unfoldable pub run_builtin :
      (ℕ → ℕ → ℕ) → (String → Result Spec) → Result SpecState → M (Unit {0})
  run_builtin mkdev decode_spec input = do
    (rootfs, spec) ← init_hook decode_spec input
    linux ← lift (followed spec.linux)
    create_devices mkdev rootfs spec.process linux.devices
    mask_paths rootfs linux.masked_paths
