-- ===== src/Hooks.antt =====
-- OCI hooks: `RunHook` and `RunHooks` of pkg/specki/specki.go, `configureHooks` of create.go, and the
-- hook program cmd/lxcri-hook.
pub mod Run
pub mod Register
pub mod Program
pub mod Builtin
pub mod BuiltinRun
pub mod Environment
use lxcri.Base.{
  String, Bool, true, false, not, ◌||◌, ◌&&◌, Option, none, some, List, [], ◌∷◌, ◌++◌, is_empty,
  ◌==◌, ◌<>◌, if◌then◌else◌, Error, failed, Result, ok, err,
}
use lxcri.Base.Host.{
  Host, M, Call, start_command, write_stdin, wait_command, perform, return, throw, lift, when,
  attempt, ◌>>=◌, ◌>>◌,
}
use lxcri.Config.{set_item}
use lxcri.Oci.{Hook, Hooks, ContainerState, creating, stopped}

module _ (h : Host) where
  -- `RunHook`: the state goes to the standard input of the command, and the command is waited for. The
  -- call that starts it also makes the pipe for its standard input and bounds its context, and fails when
  -- either of the pipe and the start does.
  unfoldable pub run_hook : Hook → M (Unit {0})
  run_hook hook = do
    perform h (start_command hook.path hook.args hook.env hook.timeout)
    perform h (write_stdin hook.path)
    perform h (wait_command hook.path)

  -- What the loop of `RunHooks` does with the outcome of one hook.
  abbrev pub after_hook : Bool → Result (Unit {0}) → M (Unit {0}) → M (Unit {0})
  after_hook continue_on_error (ok _) rest w = rest w
  after_hook true (err e) rest w = rest w
  after_hook false (err e) rest w = (err e, w)

  unfoldable pub run_hooks : Bool → List Hook → M (Unit {0})
  run_hooks continue_on_error [] = return tt
  run_hooks continue_on_error (hook ∷ hooks) = do
    outcome ← attempt (run_hook hook)
    after_hook continue_on_error outcome (run_hooks continue_on_error hooks)

-- The hooks of the runtime with those of the container behind them.
unfoldable pub merge_hooks : Hooks → Option Hooks → Hooks
merge_hooks rt none = rt
merge_hooks rt (some c) = record {
  prestart = rt.prestart ++ c.prestart;
  create_runtime = rt.create_runtime ++ c.create_runtime;
  create_container = rt.create_container ++ c.create_container;
  start_container = rt.start_container ++ c.start_container;
  poststart = rt.poststart ++ c.poststart;
  poststop = rt.poststop ++ c.poststop;
}

-- The part of `configureHooks` behind the merge.
unfoldable pub register_hooks : Host → String → Hooks → M (Unit {0})
register_hooks h exec_hook hooks = do
  set_item h "lxc.hook.version" "1"
  when (not (is_empty hooks.prestart) || not (is_empty hooks.create_runtime))
      (set_item h "lxc.hook.pre-mount" exec_hook)
  when (not (is_empty hooks.create_container)) (set_item h "lxc.hook.mount" exec_hook)
  when (not (is_empty hooks.start_container)) (set_item h "lxc.hook.start" exec_hook)

-- `configureHooks` returns the hooks that it stores in the spec.
unfoldable pub configure_hooks : Host → String → Hooks → Option Hooks → M Hooks
configure_hooks h exec_hook rt spec_hooks = do
  register_hooks h exec_hook (merge_hooks rt spec_hooks)
  return (merge_hooks rt spec_hooks)

-- `ociHooksAndState` of cmd/lxcri-hook/main.go
unfoldable pub oci_hooks_and_state : String → Hooks → Result (List Hook × ContainerState)
oci_hooks_and_state type hooks =
    if type == "pre-mount"
    then if not (is_empty hooks.create_runtime)
      then ok (hooks.prestart ++ hooks.create_runtime, creating)
      else ok (hooks.prestart, creating)
    else if type == "mount"
    then ok (hooks.create_container, creating)
    else err (failed ("liblxc hook '" <> type <> "' is not mapped to OCI hooks"))
