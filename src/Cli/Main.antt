-- ===== src/Cli/Main.antt =====
-- `main` of cmd/lxcri/cli.go around a command: its set-up and the exit code, and `doList`, `doInspect`
-- and `doConfig`.
use lxcri.Base.{
  String, Bool, true, false, not, Option, none, some, List, [], ◌∷◌, ◌<>◌, ◌==◌, eqb, if◌then◌else◌,
  Error, failed, wrapped, container_not_exist, exit_status, Result, ok, err,
}
use lxcri.Base.Host.{
  Host, M, print, release, mkdir_all, create_file, write_text, perform, record_call, return,
  throw_if, lift, when, for_each, with_error, attempt, deferred, ◌>>=◌, ◌>>◌,
}
use lxcri.Base.Int.{ℤ, pos}
use lxcri.Base.FilePath.{dir}
use lxcri.Oci.{SpecState}
use lxcri.Settings.{Runtime}
use lxcri.Container.{Container}
use lxcri.Container.Status.{spec_state_of}
use lxcri.Runtime.Lifecycle.{list}
use lxcri.Runtime.Setup.{configure_logger, init, new_runtime, load_config_file, release_runtime}
use lxcri.Cli.Commands.{Decoder, app_load_container}

-- `errors.As(err, &errExec)`
abbrev as_exec_error : Error → Option ℤ
as_exec_error (exit_status status) = some status
as_exec_error (wrapped m e) = as_exec_error e
as_exec_error _ = none

-- The exit code of `main` behind the command, from its result and that of `Release`
unfoldable pub exit_code : Result (Unit {0}) → Result (Unit {0}) → ℤ
exit_code (ok u) (ok v) = pos 0
exit_code (ok u) (err e) = pos 1
exit_code (err e) released = elim (as_exec_error e) [ some status ↦ status | none ↦ pos 1 ]

-- What `inspectContainer` makes of a container: by a template, or as JSON without the spec and the
-- annotations
pub record Format : Type 0 where
  pub template : Option (Container → SpecState → Result String)
  pub of_json : Container → SpecState → Result String

without_spec : Container → Container
without_spec c = record c {
  spec = record {
    version = "";
    process = none;
    root = none;
    hostname = "";
    mounts = [];
    hooks = none;
    annotations = [];
    linux = none;
  };
}

unfoldable pub shown : Format → Container → SpecState → Result String
unfolding without_spec
shown format c state = elim format.template [
  | some execute ↦ execute c state
  | none ↦ format.of_json (without_spec c) (record state { annotations = [] })
]

module _ (h : Host) (decode : Decoder) (rt : Runtime) where
  -- `inspectContainer`
  unfoldable inspect_container : Format → String → M (Unit {0})
  inspect_container format container_id = do
    c ← app_load_container h decode rt container_id
    deferred release (do
      state ← with_error (wrapped "failed ot get container state") (spec_state_of h c)
      text ← lift (shown format c state)
      perform h (print text))

  -- `doInspect`
  unfoldable do_inspect : Format → List String → M (Unit {0})
  do_inspect format ids = for_each ids (inspect_container format)

  -- `errors.Is(err, lxcri.ErrNotExist)` looks through wrapping.
  abbrev is_container_not_exist : Error → Bool
  is_container_not_exist container_not_exist = true
  is_container_not_exist (wrapped m e) = is_container_not_exist e
  is_container_not_exist _ = false

  -- A container that is gone by now is passed over.
  abbrev judge_inspected : Result (Unit {0}) → M (Unit {0})
  judge_inspected (ok u) = return tt
  judge_inspected (err e) = throw_if (not (is_container_not_exist e)) e

  unfoldable list_container : Format → String → M (Unit {0})
  list_container format container_id = elim format.template [
    | none ↦ record_call (print (container_id <> "\n"))
    | some execute ↦ do
      outcome ← attempt (inspect_container format container_id)
      judge_inspected outcome
  ]

  -- `doList`
  unfoldable do_list : Format → M (Unit {0})
  do_list format = do all ← list h rt.root; for_each all (list_container format)

-- The flags of `config`
pub record ConfigFlags : Type 0 where
  pub out : String
  pub update : Bool
  pub default : Bool
  pub user : Bool
  pub quiet : Bool

-- `doConfig`; `encode` is what the YAML library makes of a runtime.
unfoldable do_config :
    Host → (Bool → Runtime) → (Runtime → Result String) → Runtime → ConfigFlags → M (Unit {0})
do_config h new_runtime encode rt flags = do
  data_text ← lift (encode (if flags.default then new_runtime flags.user else rt))
  when (not flags.quiet) (record_call (print ("---\n" <> data_text <> "---\n")))
  let out : String = if flags.update then rt.config_path else flags.out
  if out == "" then record_call (print "No output file defined.\n") else (do
    record_call (print ("Writing to file " <> out <> "\n"))
    with_error (wrapped "failed to create config file parent directory")
        (perform h (mkdir_all (dir out) 493))
    perform h (create_file out 420)
    perform h (write_text out data_text))

-- `app`, with the root of the cgroups, a global variable of the library
pub record App : Type 0 where
  pub runtime : Runtime
  pub command : String
  pub container_id : String
  pub cgroup_root : String

-- The container ID that `setupCmd` takes, with the log context
unfoldable pub with_container : App → String → App
with_container app container_id = record app {
  container_id = container_id;
  runtime = record app.runtime {
    log_config = record app.runtime.log_config {
      log_context = ("cmd", app.command) ∷ ("cid", container_id) ∷ [];
    };
  };
}

module _ (h : Host) (parse_level : String → Option Error) where
  abbrev setup_list : App → M App
  setup_list app = do
    cfg ← configure_logger h parse_level app.runtime.log_config
    return (record app { runtime = record app.runtime { log_config = cfg } })

  -- The log configuration is restored.
  abbrev setup_config : App → M App
  setup_config app = do cfg ← configure_logger h parse_level app.runtime.log_config; return app

  abbrev setup_container : App → String → M App
  setup_container app container_id = do
    throw_if (container_id == "") (failed "missing container ID")
    let named : App = with_container app container_id
    (rt, root) ← init h parse_level named.runtime
    return (record named { runtime = rt; cgroup_root = root })

  -- `setupCmd`, with the first argument of the command
  unfoldable pub setup_cmd : App → String → M App
  setup_cmd app container_id =
      if app.command == "list"
      then setup_list app
      else if app.command == "config"
      then setup_config app
      else setup_container app container_id

  -- What `main` does behind a command: the runtime is released, and its exit code is found.
  unfoldable pub finish : App → Result (Unit {0}) → M ℤ
  finish app outcome = do
    released ← attempt (release_runtime h app.runtime)
    return (exit_code outcome released)

  abbrev run_set_up : (App → M (Unit {0})) → Result App → M ℤ
  run_set_up action (ok app) = do outcome ← attempt (action app); finish app outcome
  run_set_up action (err e) = return (exit_code (err e) (ok tt))

  -- `main` with a command and its arguments. A configuration that cannot be loaded is a panic. Behind a
  -- set-up that failed the log file is not seen to be closed.
  unfoldable pub main :
      (String → Runtime → Result Runtime) → String → String → (App → M (Unit {0})) → M ℤ
  main decode command container_id action = do
    rt ← load_config_file h decode (new_runtime h (not (eqb h.uid 0))) ""
    app ← attempt (
        setup_cmd (record { runtime = rt; command = command; container_id = ""; cgroup_root = "" })
          container_id)
    run_set_up action app
