-- ===== src/Cli/Exits.antt =====
-- The exit code of `exec`.
use lxcri.Base.{
  String, ◌≡◌, refl, sym, true, false, none, some, List, [], ◌∷◌, ◌++◌, is_empty, Result, ok, err,
  if◌then◌else◌, Bool-cases, inl, inr,
}
use lxcri.Base.Host.{Host, History, run_command}
use lxcri.Base.Int.{ℤ, pos, eq_ℤ, eq_ℤ_lem}
use lxcri.Oci.{Process, Linux}
use lxcri.Settings.{Runtime}
use lxcri.Container.{Container}
use lxcri.Container.Attach.{exec_process, attach_options}
use lxcri.Cli.Commands.{Decoder, ExecFlags, load_spec_process, app_load_container, exec_in, do_exec}
use lxcri.Cli.Main.{exit_code}

-- The exit status, or 1 for an error of the release behind a command that exited with 0
abbrev pub exit_status : ℤ → Result (Unit {0}) → ℤ
exit_status status (ok u) = status
exit_status status (err e) = if eq_ℤ status (pos 0) then pos 1 else status

done :
    (status : ℤ)
    → eq_ℤ status (pos 0) ≡ true
    → (released : Result (Unit {0})) → exit_code (ok tt) released ≡ exit_status status released
unfolding exit_code
done status zero (ok u) = sym (eq_ℤ_lem status (pos 0) zero)
done status zero (err e) = rw zero refl

failed_status :
    (status : ℤ)
    → eq_ℤ status (pos 0) ≡ false
    → (released : Result (Unit {0})) → status ≡ exit_status status released
failed_status status other (ok u) = refl
failed_status status other (err e) = rw other refl

module _ (h : Host) (released : Result (Unit {0})) where
  exec_in_lem :
      (c : Container) (p : Process) (linux : Linux) (flags : ExecFlags) (w : History)
      → is_empty p.args ≡ false
      → c.spec.linux ≡ some linux
      → flags.detach ≡ false
      → h.reply w (run_command p.args) ≡ none
      → exit_code (exec_in h c p flags w).0 released
        ≡ exit_status (h.command_status (w ++ (run_command p.args ∷ []))) released
  unfolding exec_in exec_process exit_code attach_options
  exec_in_lem c p linux flags w given has_linux waits taken =
      elim (Bool-cases (eq_ℤ (h.command_status (w ++ (run_command p.args ∷ []))) (pos 0))) [
        | inl zero ↦
            rw (given, has_linux, taken, waits, zero, exec_in, exec_process) (done _ zero released)
        | inr other ↦
            rw (given, has_linux, taken, waits, other, exec_in, exec_process)
              (failed_status _ other released)
      ]

  -- If the process of `exec` has arguments, the container can be loaded and liblxc runs the command, then
  -- without `--detach` the exit code of lxcri is the exit status of the command, whatever `Release`
  -- returns behind it; only where that status is 0 and `Release` fails, it is 1.
  pub exit_code-do_exec :
      (decode : Decoder) (decode_process : String → Result Process) (rt : Runtime)
      (container_id : String) (args : List String) (flags : ExecFlags) (p : Process) (c : Container)
      (linux : Linux) (w u v : History)
      → load_spec_process h decode_process flags.process args w ≡ (ok p, u)
      → app_load_container h decode rt container_id u ≡ (ok c, v)
      → is_empty p.args ≡ false
      → c.spec.linux ≡ some linux
      → flags.detach ≡ false
      → h.reply v (run_command p.args) ≡ none
      → exit_code (do_exec h decode decode_process rt container_id args flags w).0 released
        ≡ exit_status (h.command_status (v ++ (run_command p.args ∷ []))) released
  unfolding do_exec
  exit_code-do_exec decode decode_process rt container_id args flags p c linux w u v has_process
        loaded given has_linux waits taken =
      rw (has_process, loaded, do_exec) (exec_in_lem c p linux flags v given has_linux waits taken)
