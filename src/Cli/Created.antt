-- ===== src/Cli/Created.antt =====
-- What `doCreate` has done, on success and on failure.
use lxcri.Base.{
  ℕ, String, ◌≡◌, refl, Bool, true, [], ◌∷◌, ◌++◌, if◌then◌else◌, Result, ok, err, is_ok,
}
use lxcri.Base.Host.{Host, History, release}
use lxcri.Base.Calls.{Does}
use lxcri.Base.FilePath.{join_path}
use lxcri.Oci.{Spec}
use lxcri.Settings.{Runtime}
use lxcri.Specki.Json.{decode_json_file}
use lxcri.Container.{Container}
use lxcri.Runtime.Lifecycle.{delete_container}
use lxcri.Create.Instance.{Encoders}
use lxcri.Create.Created.{IsCreated}
use lxcri.Cli.PidFile.{pid_calls}
use lxcri.Cli.Commands.{
  Decoder, CreateFlags, container_config, do_create_internal, clean_up, do_create,
}

module _ (h : Host) (encode : Encoders) (uname : Result String) (cgroup_root : String)
    (rt : Runtime) (fuel : ℕ) where
  -- From one history to another a container was created, the PID of its monitor was written to the file
  -- that was asked for, if one was, and the container was released.
  abbrev pub Creates : Container → String → History → History → Type 0
  Creates cfg pid_file w w' =
      (c : Container) × (v x : History) × IsCreated h encode uname cgroup_root true rt cfg c fuel w
        v
      × Does h v (pid_calls pid_file c.pid) x
      × (w' ≡ x ++ (release ∷ []))

  module _ (decode : Decoder) (decode_spec : String → Result Spec) (late : History → Bool) where
    -- Once the spec is read, `doCreate` returns just what creating the container and writing the PID file
    -- returned. Without an error nothing more is done; behind an error, and only then, the container is
    -- deleted by force, in a new context, and what that returns is not passed on.
    pub do_create_outcome :
        (container_id : String) (flags : CreateFlags) (spec : Spec) (w u : History)
        → decode_json_file h decode_spec (join_path (flags.bundle ∷ "config.json" ∷ [])) w
          ≡ (ok spec, u)
        → let (r, v) =
            do_create_internal h encode uname cgroup_root rt fuel
              (container_config rt container_id flags spec)
              flags.pid_file
              u in
          do_create h encode uname cgroup_root rt fuel decode decode_spec late container_id flags w
          ≡ (
            r,
            (if is_ok r
                then v
                else (delete_container
                    (record h { is_done = late })
                    cgroup_root
                    decode
                    rt.root
                    container_id
                    true
                    fuel
                    v).1),
          )
    unfolding do_create
    do_create_outcome container_id flags spec w u has_spec =
        rw (has_spec, do_create)
          (go (
            do_create_internal h encode uname cgroup_root rt fuel
              (container_config rt container_id flags spec) flags.pid_file u))
      where
        go :
            (p : Result (Unit {0}) × History)
            → clean_up h encode uname cgroup_root rt fuel decode decode_spec late container_id p.0
                p.1
              ≡ (
                p.0,
                (if is_ok p.0
                    then p.1
                    else (delete_container
                        (record h { is_done = late })
                        cgroup_root
                        decode
                        rt.root
                        container_id
                        true
                        fuel
                        p.1).1),
              )
        go (ok u, v) = refl
        go (err e, v) = refl
