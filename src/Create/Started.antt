-- ===== src/Create/Started.antt =====
-- What `runStartCmd` has done when it succeeds.
use mathlib.Core.Path.{subst}
use lxcri.Base.{
  ℕ, String, ◌≡◌, refl, sym, ◌∙◌, ap, Bool, true, false, List, [], ◌∷◌, ◌++◌, ◌<>◌, ◌==◌,
  if◌then◌else◌, wrapped, ok, Bool-cases, inl, inr, append-nil,
}
use lxcri.Base.Calls.{Does, then-Does, perform-Does, wrapped-Does, when-Does, deferred-ok}
use lxcri.Base.Host.{
  Host, M, History, Call, Command, dial, set_deadline, connection_file, start_pty, send_terminal,
  close_pty, close_connection, start_monitor, save_config, set_config_item, perform, query, return,
  when, with_error, deferred, >>=-eq-ok, ◌>>=◌, ◌>>◌,
}
use lxcri.Oci.{ContainerState}
use lxcri.Settings.{Runtime}
use lxcri.Config.{set_item, set_item-ok}
use lxcri.Container.{Container, config_file_path, runtime_path}
use lxcri.Container.State.{container_state}
use lxcri.Container.Wait.{is_monitor_running, wait_created}
use lxcri.Container.Waits.{wait_created_sound}
use lxcri.Specki.Json.{encode_json_file, encode_json_file-ok, file_calls}
use lxcri.Create.Instance.{
  Encoders, monitor_command, run_start_cmd_console, start_cmd, backup_config, launch, run_start_cmd,
}

-- The calls that start the monitor, up to the one that closes the connection to a console socket
abbrev start_calls : Bool → Command → String → List Call
start_calls has_deadline cmd socket =
    if socket == ""
    then start_monitor cmd ∷ []
    else dial socket ∷ []
      ++ ((if has_deadline then set_deadline ∷ [] else [])
          ++ (connection_file ∷ start_pty cmd ∷ send_terminal ∷ close_pty ∷ []))

abbrev end_calls : String → List Call
end_calls socket = if socket == "" then [] else close_connection ∷ []

module _ (h : Host) where
  run_start_cmd_console-ok :
      (has_deadline : Bool) (cmd : Command) (socket : String) (w w' : History)
      → run_start_cmd_console h has_deadline cmd socket w ≡ (ok tt, w')
      → (x : History) × Does h w
          (dial socket ∷ []
            ++ ((if has_deadline then set_deadline ∷ [] else [])
                ++ (connection_file ∷ start_pty cmd ∷ send_terminal ∷ close_pty ∷ [])))
          x
        × (w' ≡ x ++ (close_connection ∷ []))
  unfolding run_start_cmd_console
  run_start_cmd_console-ok has_deadline cmd socket w w' e =
      let send : M (Unit {0}) =
        with_error (wrapped "failed to send console fd") (perform h send_terminal) in
      let start : M (Unit {0}) =
        with_error (wrapped "failed to start with pty") (perform h (start_pty cmd)) in
      let file : M (Unit {0}) =
        with_error (wrapped "failed to get file from unix connection")
          (perform h connection_file) in
      let limit : M (Unit {0}) =
        when has_deadline
          (with_error (wrapped "failed to set connection deadline") (perform h set_deadline)) in
      let from_send : M (Unit {0}) = send >> perform h close_pty in
      let from_start : M (Unit {0}) = start >> from_send in
      let from_file : M (Unit {0}) = file >> from_start in
      let connect : M (Unit {0}) =
        with_error (wrapped "connecting to console socket failed") (perform h (dial socket)) in
      let (_, w₁, dialled, e₁) =
        >>=-eq-ok connect (λ _. deferred close_connection (limit >> from_file)) w e in
      let (x, inner, closed) = deferred-ok close_connection (limit >> from_file) w₁ w' tt e₁ in
      let (_, w₂, limited, e₂) = >>=-eq-ok limit (λ _. from_file) w₁ inner in
      let (_, w₃, got, e₃) = >>=-eq-ok file (λ _. from_start) w₂ e₂ in
      let (_, w₄, begun, e₄) = >>=-eq-ok start (λ _. from_send) w₃ e₃ in
      let (_, w₅, sent, e₅) = >>=-eq-ok send (λ _. perform h close_pty) w₄ e₄ in
      (
        x,
        then-Does h w w₁ x _ _
            (wrapped-Does h (wrapped "connecting to console socket failed") (dial socket) w w₁
              dialled)
            (then-Does h w₁ w₂ x _ _
              (when-Does h has_deadline (wrapped "failed to set connection deadline") set_deadline
                w₁ w₂ limited)
              (then-Does h w₂ w₃ x (connection_file ∷ []) _
                (wrapped-Does h (wrapped "failed to get file from unix connection") connection_file
                  w₂ w₃ got)
                (then-Does h w₃ w₄ x (start_pty cmd ∷ []) _
                  (wrapped-Does h (wrapped "failed to start with pty") (start_pty cmd) w₃ w₄ begun)
                  (then-Does h w₄ w₅ x (send_terminal ∷ []) _
                    (wrapped-Does h (wrapped "failed to send console fd") send_terminal w₄ w₅ sent)
                    (perform-Does h close_pty w₅ x e₅))))),
        closed,
      )

  start_cmd-ok :
      (has_deadline : Bool) (cmd : Command) (socket : String) (w w' : History)
      → start_cmd h has_deadline cmd socket w ≡ (ok tt, w')
      → (x : History) × Does h w (start_calls has_deadline cmd socket) x
        × (w' ≡ x ++ end_calls socket)
  unfolding start_cmd
  start_cmd-ok has_deadline cmd socket w w' e = elim (Bool-cases (socket == "")) [
    | inl none ↦
        let e' : perform h (start_monitor cmd) w ≡ (ok tt, w') =
          sym (rw (none, start_cmd) refl) ∙ e in
        rw none (w', perform-Does h (start_monitor cmd) w w' e', sym (append-nil w'))
    | inr given ↦
        let e' : run_start_cmd_console h has_deadline cmd socket w ≡ (ok tt, w') =
          sym (rw (given, start_cmd) refl) ∙ e in
        rw given (run_start_cmd_console-ok has_deadline cmd socket w w' e')
  ]

-- The calls for a monitor that has the streams of the runtime
abbrev stdio_calls : Bool → List Call
stdio_calls inherits_stdio =
    if inherits_stdio then set_config_item "lxc.console.path" "none" ∷ [] else []

-- The calls of `launch` one behind the other: the item for the console, where nothing else serves as
-- one, then the configuration of liblxc was saved, then copied, then the monitor was started, and
-- nothing came behind that; the container has its PID.
pub record IsLaunched (h : Host) (has_deadline : Bool) (rt : Runtime) (c c' : Container)
    (w w' : History) : Type 0 where
  pub before_save : History
  pub has_console : Does h w (stdio_calls (monitor_command rt c).inherits_stdio) before_save
  pub saved : History
  pub saves : Does h before_save (save_config (config_file_path c) ∷ []) saved
  pub before_start : History
  pub copied : backup_config h rt c saved ≡ (ok tt, before_start)
  pub running : History
  pub starts :
      Does h before_start (start_calls has_deadline (monitor_command rt c) c.console_socket) running
  pub ends : w' ≡ running ++ end_calls c.console_socket
  pub container_is : c' ≡ record c { pid = h.started_pid w' }

-- Directly behind that lxcri.json was written for the container, with that PID, and then only waiting
-- for the container led to the end, where the monitor runs and the container is in state `created`.
pub record IsStarted (h : Host) (encode : Encoders) (has_deadline : Bool) (rt : Runtime)
    (c c' : Container) (fuel : ℕ) (w w' : History) : Type 0 where
  pub launched : History
  pub launch_done : IsLaunched h has_deadline rt c c' w launched
  pub text : String
  pub has_text : encode.of_container c' ≡ ok text
  pub written : History
  pub writes : Does h launched (file_calls h (runtime_path c' "lxcri.json") text 288) written
  pub waited : wait_created h c'.pid fuel written ≡ (ok tt, w')
  pub monitor_runs : is_monitor_running h c'.pid w' ≡ true
  pub is_created : container_state h w' ≡ ok ContainerState.created

module _ (h : Host) where
  stdio_calls-Does :
      (inherits_stdio : Bool) (w w' : History)
      → when inherits_stdio (set_item h "lxc.console.path" "none") w ≡ (ok tt, w')
      → Does h w (stdio_calls inherits_stdio) w'
  stdio_calls-Does true w w' e =
      let (accepted, grown) = set_item-ok h "lxc.console.path" "none" w w' e in
      ((accepted, tt), grown)
  stdio_calls-Does false w w' e = (tt, sym (ap (λ r. r.1) e) ∙ sym (append-nil w))

  launch-IsLaunched :
      (has_deadline : Bool) (rt : Runtime) (c c' : Container) (w w' : History)
      → launch h has_deadline rt c w ≡ (ok c', w')
      → IsLaunched h has_deadline rt c c' w w'
  unfolding launch
  launch-IsLaunched has_deadline rt c c' w w' e =
      let cmd : Command = monitor_command rt c in
      let number : M Container =
        query (λ v. h.started_pid v) >>= λ pid. return (record c { pid = pid }) in
      let start : M Container = start_cmd h has_deadline cmd c.console_socket >> number in
      let backed : M Container = backup_config h rt c >> start in
      let save : M (Unit {0}) =
        with_error (wrapped ("failed to save config file to " <> config_file_path c))
          (perform h (save_config (config_file_path c))) in
      let stdio : M (Unit {0}) = when cmd.inherits_stdio (set_item h "lxc.console.path" "none") in
      let (_, u₁, console, f₁) = >>=-eq-ok stdio (λ _. save >> backed) w e in
      let (_, u₂, saving, f₂) = >>=-eq-ok save (λ _. backed) u₁ f₁ in
      let (_, u₃, copying, f₃) = >>=-eq-ok (backup_config h rt c) (λ _. start) u₂ f₂ in
      let (_, u₄, started, f₄) =
        >>=-eq-ok (start_cmd h has_deadline cmd c.console_socket) (λ _. number) u₃ f₃ in
      let (x, does, closed) = start_cmd-ok h has_deadline cmd c.console_socket u₃ u₄ started in
      let here : u₄ ≡ w' = ap (λ r. r.1) f₄ in
      let same : record c { pid = h.started_pid u₄ } ≡ c' = cc in
      record {
        before_save = u₁;
        has_console = stdio_calls-Does cmd.inherits_stdio w u₁ console;
        saved = u₂;
        saves =
            wrapped-Does h (wrapped ("failed to save config file to " <> config_file_path c))
              (save_config (config_file_path c)) u₁ u₂ saving;
        before_start = u₃;
        copied = copying;
        running = x;
        starts = does;
        ends = sym here ∙ closed;
        container_is = sym same ∙ ap (λ v. record c { pid = h.started_pid v }) here;
      }

  pub run_start_cmd-IsStarted :
      (encode : Encoders) (has_deadline : Bool) (rt : Runtime) (c c' : Container) (fuel : ℕ)
      (w w' : History)
      → run_start_cmd h encode has_deadline rt c fuel w ≡ (ok c', w')
      → IsStarted h encode has_deadline rt c c' fuel w w'
  unfolding run_start_cmd
  run_start_cmd-IsStarted encode has_deadline rt c c' fuel w w' e =
      let await : Container → M Container = λ c₁. wait_created h c₁.pid fuel >> return c₁ in
      let publish : Container → M (Unit {0}) =
        λ c₁. encode_json_file h (runtime_path c₁ "lxcri.json") (encode.of_container c₁) 288 in
      let (c₁, w₁, launched, e₁) =
        >>=-eq-ok (launch h has_deadline rt c) (λ c₁. publish c₁ >> await c₁) w e in
      let (_, w₂, written, e₂) = >>=-eq-ok (publish c₁) (λ _. await c₁) w₁ e₁ in
      let (_, w₃, waited, e₃) = >>=-eq-ok (wait_created h c₁.pid fuel) (λ _. return c₁) w₂ e₂ in
      let same : c₁ ≡ c' = cc in
      let here : w₃ ≡ w' = ap (λ r. r.1) e₃ in
      let (runs, created) = wait_created_sound h c₁.pid fuel w₂ w₃ waited in
      let (t, has_text, does) =
        encode_json_file-ok h (runtime_path c₁ "lxcri.json") (encode.of_container c₁) 288 w₁ w₂
          written in
      subst (λ x. IsStarted h encode has_deadline rt c x fuel w w') same
        (record {
          launched = w₁;
          launch_done = launch-IsLaunched has_deadline rt c c₁ w w₁ launched;
          text = t;
          has_text = has_text;
          written = w₂;
          writes = does;
          waited = subst (λ v. wait_created h c₁.pid fuel w₂ ≡ (ok tt, v)) here waited;
          monitor_runs = subst (λ v. is_monitor_running h c₁.pid v ≡ true) here runs;
          is_created = subst (λ v. container_state h v ≡ ok ContainerState.created) here created;
        })
