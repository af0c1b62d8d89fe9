-- ===== src/Init/Main.antt =====
-- `main` of cmd/lxcri-init/main.go and the termination log. What it prints is left out; the texts of
-- errors and what JSON decodes to are parameters.
use lxcri.Base.{
  String, ◌≡◌, refl, Bool, true, false, none, some, List, [], ◌∷◌, ◌++◌, append_assoc, append-nil,
  ◌==◌, ◌<>◌, if◌then◌else◌, Error, failed, wrapped, nil_dereference, Result, ok, err, Option,
  Bool-cases, inl, inr,
}
use lxcri.Base.Int.{ℤ, pos}
use lxcri.Base.Calls.{Accepted}
use lxcri.Base.Host.{
  Host, M, History, Call, open_existing, write_text, close_file, perform, return, throw, lift,
  with_error, attempt, deferred, ◌>>=◌, ◌>>◌,
}
use lxcri.Base.FilePath.{join_path}
use lxcri.Oci.{Spec, entry_of}
use lxcri.Specki.Json.{decode_json_file}
use lxcri.Init.{do_init}

abbrev termination_path : Spec → String
termination_path spec = entry_of spec.annotations "io.kubernetes.container.terminationMessagePath"

module _ (h : Host) where
  -- `writeTerminationLog`, with the formatted text
  unfoldable pub write_termination_log : Spec → String → M (Unit {0})
  write_termination_log spec text = elim (termination_path spec == "") [
    | true ↦ return tt
    | false ↦ do
      perform h (open_existing (termination_path spec))
      deferred (close_file (termination_path spec)) (
          with_error
            (wrapped ("failed to write to termination log \"" <> termination_path spec <> "\""))
            (perform h (write_text (termination_path spec) text)))
  ]

  module _ (look_path : History → String → Result String) (lookup : String → Option String)
      (decode_state : String → Result (Unit {0})) where
    -- `doInit` on a spec; without a process it is a panic, behind the reading of the state.
    unfoldable pub init_spec : String → Spec → M (Unit {0})
    init_spec runtime_dir spec = do
      state_json ←
          attempt (decode_json_file h decode_state (join_path (runtime_dir ∷ "state.json" ∷ [])))
      elim spec.process [
        | none ↦ do
          with_error (λ e. failed "failed to read spec") (lift state_json)
          throw nil_dereference
        | some p ↦ do_init h look_path lookup state_json runtime_dir p spec.hooks
      ]

    module _ (error_text : Error → String) where
      -- `main` behind `doInit`; a panic ends the program at once.
      unfoldable pub report : Spec → Result (Unit {0}) → M ℤ
      report spec (ok u) = return (pos 0)
      report spec (err nil_dereference) = throw nil_dereference
      report spec (err e) = do
        logged ← attempt (write_termination_log spec ("init failed: " <> error_text e <> "\n"))
        return (pos 4)

      abbrev run_spec : String → Result Spec → M ℤ
      run_spec runtime_dir (ok spec) = do
        outcome ← attempt (init_spec runtime_dir spec)
        report spec outcome
      run_spec runtime_dir (err e) = return (pos 3)

      -- `main`: its exit code, from what os.Getwd returns
      unfoldable pub init_main : (String → Result Spec) → Result String → M ℤ
      init_main decode (err e) = return (pos 2)
      init_main decode (ok runtime_dir) = do
        spec ← attempt (decode_json_file h decode (join_path (runtime_dir ∷ "config.json" ∷ [])))
        run_spec runtime_dir spec

-- The calls that write to the termination log that a spec names
abbrev termination_calls : Spec → String → List Call
termination_calls spec text =
    if termination_path spec == ""
    then []
    else open_existing (termination_path spec)
      ∷ write_text (termination_path spec) text
      ∷ close_file (termination_path spec)
      ∷ []

abbrev is_panic : Error → Bool
is_panic nil_dereference = true
is_panic _ = false

module _ (h : Host) (spec : Spec) (text : String) where
  -- The log is written where the host takes the calls for it.
  write_termination_log_lem :
      (w : History)
      → Accepted h w (termination_calls spec text)
      → write_termination_log h spec text w ≡ (ok tt, w ++ termination_calls spec text)
  unfolding write_termination_log
  write_termination_log_lem w = elim (Bool-cases (termination_path spec == "")) [
    | inl none_given ↦ rw (none_given, write_termination_log) (λ taken. rw (append-nil w) refl)
    | inr given ↦
        rw (given, write_termination_log)
          (λ (opened, (written, closed)). rw (opened, written) (simp append_assoc))
  ]

  logged_lem :
      (w : History)
      → Accepted h w (termination_calls spec text)
      → (attempt (write_termination_log h spec text) >>= (λ _. return (pos 4))) w
        ≡ (ok (pos 4), w ++ termination_calls spec text)
  logged_lem w taken = rw (write_termination_log_lem w taken) refl

module _ (h : Host) (look_path : History → String → Result String) (lookup : String → Option String)
    (decode_state : String → Result (Unit {0})) (error_text : Error → String) where
  abbrev pub failure : Error → String
  failure e = "init failed: " <> error_text e <> "\n"

  report_lem :
      (spec : Spec) (e : Error) (w : History)
      → is_panic e ≡ false
      → Accepted h w (termination_calls spec (failure e))
      → report h look_path lookup decode_state error_text spec (err e) w
        ≡ (ok (pos 4), w ++ termination_calls spec (failure e))
  unfolding report
  report_lem spec nil_dereference w panic taken = absurd cc
  report_lem spec e w panic taken = logged_lem h spec (failure e) w taken

  -- If the spec can be read and `doInit` returns an error for it, other than by a panic, then lxcri-init
  -- exits with 4, behind having written the text of the error to the termination log that the
  -- annotations of the spec name, if they name one and the host takes the calls for that.
  pub init_main_fails :
      (decode : String → Result Spec) (runtime_dir : String) (spec : Spec) (e : Error)
      (w u v : History)
      → decode_json_file h decode (join_path (runtime_dir ∷ "config.json" ∷ [])) w ≡ (ok spec, u)
      → init_spec h look_path lookup decode_state runtime_dir spec u ≡ (err e, v)
      → is_panic e ≡ false
      → Accepted h v (termination_calls spec (failure e))
      → init_main h look_path lookup decode_state error_text decode (ok runtime_dir) w
        ≡ (ok (pos 4), v ++ termination_calls spec (failure e))
  unfolding init_main
  init_main_fails decode runtime_dir spec e w u v read failing panic taken =
      rw (read, failing) (report_lem spec e v panic taken)
