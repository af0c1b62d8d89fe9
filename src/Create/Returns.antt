-- ===== src/Create/Returns.antt =====
-- The kinds of errors of the steps of `Create` around `configureContainer`.
use lxcri.Base.{
  ℕ, String, ◌≡◌, refl, ◌∙◌, Bool, false, some, ◌==◌, ◌<>◌, Error, failed, wrapped, Result, ok, err,
  arith, Bool-cases, inl, inr,
}
use lxcri.Base.Host.{
  Host, M, Command, History, save_config, dial, set_deadline, connection_file, start_pty,
  send_terminal, close_pty, close_connection, perform, query, return, when, with_error, deferred,
  query_result, ◌>>=◌, ◌>>◌,
}
use lxcri.Base.Free.{
  bad_of, IsForeign, Free, >>=-Free, then-Free, attempt-Free, when-Free, deferred-Free,
  perform-Free, wrapped-Free,
}
use lxcri.Settings.{Runtime}
use lxcri.Config.{set_item}
use lxcri.Config.Free.{set_item-Free}
use lxcri.Specki.Json.{write_encoded, encode_json_file, put_text, close_failed}
use lxcri.Container.{Container, config_file_path}
use lxcri.Container.Wait.{look_created, unexpected, wait_created}
use lxcri.Container.State.{container_state, get_container_init_state}
use lxcri.Container.Status.{spec_state_of}
use lxcri.Runtime.Free.{container_state-good}
use lxcri.Create.Instance.{
  monitor_command, create_dir, run_start_cmd_console, start_cmd, backup_config, backup_spec, launch,
}

module _ {h : Host} {bad : Error → Bool} {fuel : ℕ} (f : IsForeign h bad fuel) where
  write_encoded-Free :
      (path : String) (text : Result String)
      → bad_of bad text ≡ false
      → Free bad (write_encoded h path text)
  unfolding write_encoded
  write_encoded-Free path text good =
      attempt-Free bad (put_text h path text) (close_failed h path) (put text good)
        (λ r q. close r q)
    where
      put : (t : Result String) → bad_of bad t ≡ false → Free bad (put_text h path t)
      put (ok t) q = perform-Free f _
      put (err e) q = λ w. q

      close : (r : Result (Unit {0})) → bad_of bad r ≡ false → Free bad (close_failed h path r)
      close (ok u) q = λ w. refl
      close (err e) q = λ w. f.through _ e ∙ q

  pub encode_json_file-Free :
      (path : String) (text : Result String) (perm : ℕ)
      → bad_of bad text ≡ false
      → Free bad (encode_json_file h path text perm)
  unfolding encode_json_file
  encode_json_file-Free path text perm good = then-Free bad _ _ (perform-Free f _) (
      then-Free bad _ _ (write_encoded-Free path text good) (
        then-Free bad _ _ (wrapped-Free f _ _ (perform-Free f _))
          (wrapped-Free f _ _ (perform-Free f _))))

  look_created-good :
      (pid : ℕ) (v : History) (r : Result (Unit {0}))
      → look_created h pid v ≡ some r
      → bad_of bad r ≡ false
  unfolding look_created
  look_created-good pid v r e =
      let died : bad (failed "monitor already died") ≡ false = f.message _ in
      let odd : bad (failed (unexpected (get_container_init_state h v))) ≡ false = f.message _ in
      ground arith

  pub wait_created-Free : (pid : ℕ) → Free bad (wait_created h pid fuel)
  unfolding wait_created
  wait_created-Free pid w = f.poll 100 (look_created h pid) w (look_created-good pid)

  pub spec_state_of-Free : (c : Container) → Free bad (spec_state_of h c)
  unfolding spec_state_of
  spec_state_of-Free c =
      let state =
        with_error (wrapped "failed go get container status")
          (query_result (λ w. container_state h w)) in
      >>=-Free bad state _
        (wrapped-Free f _ (query_result (λ w. container_state h w)) (container_state-good f))
        (λ status w. refl)

  pub create_dir-Free : (c : Container) → Free bad (create_dir h c)
  unfolding create_dir
  create_dir-Free c = then-Free bad _ _ (wrapped-Free f _ _ (perform-Free f _)) (
      then-Free bad _ _ (wrapped-Free f _ _ (perform-Free f _)) (
        then-Free bad _ _ (perform-Free f _)
          (then-Free bad _ _ (wrapped-Free f _ _ (perform-Free f _)) (perform-Free f _))))

  run_start_cmd_console-Free :
      (timed : Bool) (cmd : Command) (socket : String)
      → Free bad (run_start_cmd_console h timed cmd socket)
  unfolding run_start_cmd_console
  run_start_cmd_console-Free timed cmd socket =
      let limit : M (Unit {0}) =
        when timed
          (with_error (wrapped "failed to set connection deadline") (perform h set_deadline)) in
      let file : M (Unit {0}) =
        with_error (wrapped "failed to get file from unix connection")
          (perform h connection_file) in
      let begin : M (Unit {0}) =
        with_error (wrapped "failed to start with pty") (perform h (start_pty cmd)) in
      let hand : M (Unit {0}) =
        with_error (wrapped "failed to send console fd") (perform h send_terminal) in
      let end : M (Unit {0}) = perform h close_pty in
      let rest : M (Unit {0}) = file >> (begin >> (hand >> end)) in
      then-Free bad _ (deferred close_connection (limit >> rest))
        (wrapped-Free f "connecting to console socket failed" (perform h (dial socket))
          (perform-Free f _))
        (deferred-Free bad close_connection (limit >> rest) (
          then-Free bad limit rest (when-Free bad _ _ (wrapped-Free f _ _ (perform-Free f _))) (
            then-Free bad file (begin >> (hand >> end)) (wrapped-Free f _ _ (perform-Free f _)) (
              then-Free bad begin (hand >> end) (wrapped-Free f _ _ (perform-Free f _)) (
                then-Free bad hand end (wrapped-Free f _ _ (perform-Free f _))
                  (perform-Free f _))))))

  start_cmd-Free :
      (timed : Bool) (cmd : Command) (socket : String) → Free bad (start_cmd h timed cmd socket)
  unfolding start_cmd
  start_cmd-Free timed cmd socket = elim (Bool-cases (socket == "")) [
    | inl plain ↦ rw (plain, start_cmd) (perform-Free f _)
    | inr console ↦ rw (console, start_cmd) (run_start_cmd_console-Free timed cmd socket)
  ]

  backup_config-Free : (rt : Runtime) (c : Container) → Free bad (backup_config h rt c)
  unfolding backup_config
  backup_config-Free rt c = elim (Bool-cases (rt.backup_config_dir == "")) [
    | inl unset ↦ rw (unset, backup_config) (λ w. refl)
    | inr given ↦ rw (given, backup_config) (λ w. refl)
  ]

  pub backup_spec-Free :
      (rt : Runtime) (c : Container) (text : Result String) → Free bad (backup_spec h rt c text)
  unfolding backup_spec
  backup_spec-Free rt c text = elim (Bool-cases (rt.backup_config_dir == "")) [
    | inl unset ↦ rw (unset, backup_spec) (λ w. refl)
    | inr given ↦ rw (given, backup_spec) (λ w. refl)
  ]

  pub launch-Free : (timed : Bool) (rt : Runtime) (c : Container) → Free bad (launch h timed rt c)
  unfolding launch
  launch-Free timed rt c =
      let cmd = monitor_command rt c in
      let console : M (Unit {0}) = when cmd.inherits_stdio (set_item h "lxc.console.path" "none") in
      let save : M (Unit {0}) =
        with_error (wrapped ("failed to save config file to " <> config_file_path c))
          (perform h (save_config (config_file_path c))) in
      let copy : M (Unit {0}) = backup_config h rt c in
      let begin : M (Unit {0}) = start_cmd h timed cmd c.console_socket in
      let end : M Container =
        query (λ w. h.started_pid w) >>= (λ pid. return (record c { pid = pid })) in
      then-Free bad console (save >> (copy >> (begin >> end)))
        (when-Free bad _ _ (set_item-Free f _ _))
        (then-Free bad save (copy >> (begin >> end)) (wrapped-Free f _ _ (perform-Free f _)) (
          then-Free bad copy (begin >> end) (backup_config-Free rt c)
            (then-Free bad begin end (start_cmd-Free timed cmd c.console_socket) (λ w. refl))))
