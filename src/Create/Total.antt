-- ===== src/Create/Total.antt =====
-- The kinds of errors of `Create`: those of the model for its loop and for panics.
use lxcri.Base.{
  ℕ, String, ◌≡◌, refl, ◌∙◌, ap, Bool, true, false, Option, some, Error, wrapped, Result, ok, err,
  ◌<◌,
}
use lxcri.Base.Poll.{slept}
use lxcri.Base.Host.{Host, M, History, return, with_error, bind_step, ◌>>=◌, ◌>>◌}
use lxcri.Base.Free.{bad_of, IsForeign, Free, >>=-Free, then-Free, wrapped-Free}
use lxcri.Oci.{Spec, SpecState, Hooks, Linux}
use lxcri.Runtime.Check.Free.{check_config-Free}
use lxcri.Settings.{Runtime}
use lxcri.Specki.Json.{encode_json_file}
use lxcri.Container.{Container, runtime_path}
use lxcri.Container.Wait.{wait_created}
use lxcri.Container.Status.{spec_state_of}
use lxcri.Runtime.Check.{check_config, namespaces_of}
use lxcri.Runtime.Check.Sound.{check_config_sound}
use lxcri.Runtime.Ends.{is_abnormal, IsReal, foreign}
use lxcri.Create.Configure.{followed, configure_container}
use lxcri.Create.Ends.{configure_container-Free}
use lxcri.Create.Instance.{
  Encoders, with_config_file, clean_container, create_dir, backup_spec, launch, run_start_cmd,
  publish, create,
}
use lxcri.Create.Returns.{
  encode_json_file-Free, wait_created-Free, spec_state_of-Free, create_dir-Free, backup_spec-Free,
  launch-Free,
}

-- Encoding a value returns no error of the kind.
pub record IsEncoding (bad : Error → Bool) (encode : Encoders) : Type 0 where
  pub of_spec : (spec : Spec) → bad_of bad (encode.of_spec spec) ≡ false
  pub of_hooks : (hooks : Option Hooks) → bad_of bad (encode.of_hooks hooks) ≡ false
  pub of_state : (state : SpecState) → bad_of bad (encode.of_state state) ≡ false
  pub of_container : (c : Container) → bad_of bad (encode.of_container c) ≡ false

module _ {h : Host} {bad : Error → Bool} {fuel : ℕ} (f : IsForeign h bad fuel) (encode : Encoders)
    (fine : IsEncoding bad encode) where
  run_start_cmd-Free :
      (timed : Bool) (rt : Runtime) (c : Container)
      → Free bad (run_start_cmd h encode timed rt c fuel)
  unfolding run_start_cmd
  run_start_cmd-Free timed rt c =
      let save : Container → M (Unit {0}) = λ running.
        encode_json_file h (runtime_path running "lxcri.json") (encode.of_container running) 288 in
      let wait : Container → M Container =
        λ running. wait_created h running.pid fuel >> return running in
      >>=-Free bad (launch h timed rt c) (λ running. save running >> wait running)
        (launch-Free f timed rt c)
        (λ running.
          then-Free bad (save running) (wait running)
            (encode_json_file-Free f _ _ 288 (fine.of_container running))
            (then-Free bad (wait_created h running.pid fuel) (return running)
              (wait_created-Free f running.pid) (λ w. refl)))

  publish-Free :
      (timed : Bool) (rt : Runtime) (c : Container) → Free bad (publish h encode timed rt c fuel)
  unfolding publish
  publish-Free timed rt c =
      let spec : M (Unit {0}) =
        encode_json_file h (runtime_path c "config.json") (encode.of_spec c.spec) 292 in
      let copy : M (Unit {0}) = backup_spec h rt c (encode.of_spec c.spec) in
      let hooks : M (Unit {0}) =
        encode_json_file h (runtime_path c "hooks.json") (encode.of_hooks c.spec.hooks) 292 in
      let save : SpecState → M (Unit {0}) =
        λ state. encode_json_file h (runtime_path c "state.json") (encode.of_state state) 292 in
      let begin : M Container =
        with_error (wrapped "failed to run container process")
          (run_start_cmd h encode timed rt c fuel) in
      let rest : M Container = spec_state_of h c >>= (λ state. save state >> begin) in
      then-Free bad spec (copy >> (hooks >> rest))
        (encode_json_file-Free f _ _ 292 (fine.of_spec c.spec))
        (then-Free bad copy (hooks >> rest) (backup_spec-Free f rt c _) (
          then-Free bad hooks rest (encode_json_file-Free f _ _ 292 (fine.of_hooks c.spec.hooks)) (
            >>=-Free bad (spec_state_of h c) (λ state. save state >> begin) (spec_state_of-Free f c)
              (λ state.
                then-Free bad (save state) begin
                  (encode_json_file-Free f _ _ 292 (fine.of_state state))
                  (wrapped-Free f _ (run_start_cmd h encode timed rt c fuel)
                    (run_start_cmd-Free timed rt c))))))

  module _ (uname : Result String) (known : bad_of bad uname ≡ false) (cgroup_root : String)
      (timed : Bool) (rt : Runtime) (cfg : Container) where
    made-Free :
        (spec : Spec)
        → bad_of bad (followed spec.root) ≡ false
        → bad_of bad (followed spec.process) ≡ false
        → bad_of bad (followed spec.linux) ≡ false
        → Free bad (
            with_error
              (wrapped "failed to create container")
              (create_dir h (with_config_file rt cfg spec))
            >> (with_error
                  (wrapped "failed to configure container")
                  (configure_container h uname cgroup_root rt (with_config_file rt cfg spec))
                >>= (λ configured. publish h encode timed rt (clean_container configured) fuel)))
    unfolding with_config_file
    made-Free spec has_root has_process has_linux =
        let c : Container = with_config_file rt cfg spec in
        let dir : M (Unit {0}) =
          with_error (wrapped "failed to create container") (create_dir h c) in
        let configure : M Container =
          with_error (wrapped "failed to configure container")
            (configure_container h uname cgroup_root rt c) in
        let end : Container → M Container =
          λ configured. publish h encode timed rt (clean_container configured) fuel in
        then-Free bad dir (configure >>= end)
          (wrapped-Free f _ (create_dir h c) (create_dir-Free f c))
          (>>=-Free bad configure end
            (wrapped-Free f _ (configure_container h uname cgroup_root rt c) (
              configure_container-Free f uname known cgroup_root rt c has_root has_process
                has_linux))
            (λ configured. publish-Free timed rt (clean_container configured)))

    create-Free :
        bad_of bad (namespaces_of cfg.spec.linux) ≡ false
        → Free bad (create h encode uname cgroup_root timed rt cfg fuel)
    unfolding create
    create-Free has_linux w =
        go (check_config h cfg.container_id cfg.spec w) refl
          (check_config-Free f cfg.container_id cfg.spec has_linux w)
      where
        rest : Spec → M Container
        rest spec = do
          let c : Container = with_config_file rt cfg spec
          with_error (wrapped "failed to create container") (create_dir h c)
          configured ←
              with_error (wrapped "failed to configure container")
                (configure_container h uname cgroup_root rt c)
          publish h encode timed rt (clean_container configured) fuel

        go :
            (r : Result Spec × History)
            → check_config h cfg.container_id cfg.spec w ≡ r
            → bad_of bad r.0 ≡ false
            → bad_of bad (bind_step r rest).0 ≡ false
        go (err e, v) q good = good
        go (ok spec, v) q good =
            let (checked, _) = check_config_sound h cfg.container_id cfg.spec spec w v q in
            made-Free spec
              (ap (λ s. bad_of bad (followed s.root)) checked.after_is
                ∙ ap (λ o. bad_of bad (followed o)) checked.root_given)
              (ap (λ s. bad_of bad (followed s.process)) checked.after_is)
              (ap (λ s. bad_of bad (followed s.linux)) checked.after_is
                ∙ ap (λ o. bad_of bad (followed o)) checked.linux_given)
              v

-- If the context is done whenever a loop has slept k times, and neither the host nor the JSON encoder
-- nor uname(2) returns an error that only the model has, then k + 1 rounds are enough for `Create` on a
-- configuration whose spec is given and has a Linux section: from any history `waitCreated` does not
-- run out of rounds, and `Create` does not follow the root, the process, the Linux section or its
-- resources where one of them is nil.
pub create_returns :
    (h : Host)
    → IsReal h
    → (k fuel : ℕ) → k < fuel
    → ((ms : ℕ) (w : History) → h.is_done (slept ms k w) ≡ true)
    → (encode : Encoders) → IsEncoding is_abnormal encode
    → (uname : Result String) → bad_of is_abnormal uname ≡ false
    → (cgroup_root : String) (timed : Bool) (rt : Runtime) (cfg : Container) (linux : Linux)
      (w : History)
    → cfg.spec.linux ≡ some linux
    → bad_of is_abnormal (create h encode uname cgroup_root timed rt cfg fuel w).0 ≡ false
create_returns h real k fuel enough ends encode fine uname known cgroup_root timed rt cfg linux w
      given =
    create-Free (foreign h real k fuel enough ends) encode fine uname known cgroup_root timed rt cfg
      (ap (λ o. bad_of is_abnormal (namespaces_of o)) given) w
