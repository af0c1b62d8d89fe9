-- ===== src/Cli/Missing.antt =====
-- The commands for a container that does not exist.
use lxcri.Base.{
  ℕ, String, ◌≡◌, refl, Bool, false, [], ◌∷◌, Error, Errno, Result, ok, err, container_not_exist,
}
use lxcri.Base.Host.{Host, History}
use lxcri.Base.Int.{ℤ, pos, eq_ℤ}
use lxcri.Base.FilePath.{join_path}
use lxcri.Oci.{SpecState}
use lxcri.Settings.{Runtime}
use lxcri.Runtime.Lifecycle.{load_container, delete_container}
use lxcri.Cli.Signal.{parse_signal}
use lxcri.Cli.Commands.{Decoder, app_load_container, do_start, do_state, do_kill, do_delete}

module _ (h : Host) (decode : Decoder) (rt : Runtime) (container_id : String) (w : History)
    (missing : h.stat w (join_path (rt.root ∷ container_id ∷ []))
      ≡ err (Error.errno Errno.enoent)) where
  not_loaded : load_container h decode rt.root container_id w ≡ (err container_not_exist, w)
  unfolding load_container
  not_loaded = rw (missing, load_container) refl

  not_app_loaded : app_load_container h decode rt container_id w ≡ (err container_not_exist, w)
  unfolding app_load_container
  not_app_loaded = rw (not_loaded, app_load_container) refl

  -- For a container whose runtime directory does not exist, `start`, `state` and `kill` with a valid signal
  -- return the error for that, and `delete`, forced or not, succeeds; none of them has called anything.
  pub missing_container :
      (encode : SpecState → Result String) (signal_num : String → ℤ) (cgroup_root sig : String)
      (force : Bool) (fuel : ℕ)
      → eq_ℤ (parse_signal signal_num sig) (pos 0) ≡ false
      → (do_start h decode rt container_id fuel w ≡ (err container_not_exist, w))
        × (do_state h decode encode rt container_id w ≡ (err container_not_exist, w))
        × (do_kill h decode signal_num cgroup_root rt container_id sig fuel w
            ≡ (err container_not_exist, w))
        × (do_delete h decode cgroup_root rt container_id force fuel w ≡ (ok tt, w))
  unfolding do_start do_state do_kill do_delete delete_container
  missing_container encode signal_num cgroup_root sig force fuel valid = (
    rw (not_app_loaded, do_start) refl,
    rw (not_app_loaded, do_state) refl,
    rw (valid, not_app_loaded, do_kill) refl,
    rw (not_loaded, do_delete, delete_container) refl,
  )
