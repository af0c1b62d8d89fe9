-- ===== src/Examples/Processes.antt =====
-- Runs of the init process and of the options to attach a process.
use lxcri.Base.{
  String, refl, ◌≡◌, [], ◌∷◌, ◌++◌, Option, none, some, Error, failed, wrapped, Result, ok, err,
}
use lxcri.Base.Int.{pos}
use lxcri.Base.FilePath.{join_path, clean, enter_all, unrooted}
use lxcri.Base.Host.{Host, History, Call, open_existing, write_text, close_file}
use lxcri.Oci.{Spec}
use lxcri.Specki.Json.{decode_json_file, close_decoded}
use lxcri.Init.Main.{init_spec, init_main, init_main_fails}
use lxcri.Specki.Env.{getenv}
use lxcri.Hooks.{run_hooks}
use lxcri.Init.{do_init, read_syncfifo, command_path, unmount_and_exec, HasExecuted, do_init_sound}
use lxcri.Examples.{sample, some_spec, some_process, no_hooks}

-- execve(2) is refused on this host.
abbrev not_executable : Host
not_executable = record sample { reply = λ w c. refuse c }
  where
    refuse : Call → Option Error
    refuse (Call.exec path args env) = some (Error.failed "permission denied")
    refuse _ = none

abbrev found : History → String → Result String
found w cmd = ok cmd

abbrev nobody : String → Option String
nobody name = none

do_init_sound_example :
    HasExecuted not_executable "/.lxcri" some_process
      (some no_hooks)
      (do_init not_executable found nobody (ok tt) "/.lxcri" some_process (some no_hooks) []).1
unfolding do_init read_syncfifo command_path unmount_and_exec run_hooks getenv
do_init_sound_example =
    do_init_sound not_executable found nobody (ok tt) "/.lxcri" some_process (some no_hooks) []
      (do_init not_executable found nobody (ok tt) "/.lxcri" some_process (some no_hooks) []).1 refl

abbrev missing : History → String → Result String
missing w cmd = err (failed "executable file not found in $PATH")

abbrev logging_spec : Spec
logging_spec = record (some_spec []) {
  annotations = ("io.kubernetes.container.terminationMessagePath", "/dev/termination-log") ∷ [];
}

abbrev decode_logging : String → Result Spec
decode_logging text = ok logging_spec

abbrev decode_fine : String → Result (Unit {0})
decode_fine text = ok tt

abbrev text_of : Error → String
text_of (wrapped m e) = m
text_of e = "error"

init_main_fails_example :
    let u = (decode_json_file sample decode_logging "/.lxcri/config.json" []).1 in
    let v = (init_spec sample missing nobody decode_fine "/.lxcri" logging_spec u).1 in
    init_main sample missing nobody decode_fine text_of decode_logging (ok "/.lxcri") [] ≡ (
      ok (pos 4),
      v
          ++ (open_existing "/dev/termination-log"
              ∷ write_text "/dev/termination-log" "init failed: lookup path for /bin/true failed\n"
              ∷ close_file "/dev/termination-log"
              ∷ []),
    )
unfolding init_spec do_init command_path getenv decode_json_file close_decoded join_path clean
    enter_all unrooted
init_main_fails_example =
    init_main_fails sample missing nobody decode_fine text_of decode_logging "/.lxcri" logging_spec
      (wrapped "lookup path for /bin/true failed" (failed "executable file not found in $PATH")) []
      _ _ refl refl refl (refl, (refl, (refl, tt)))
