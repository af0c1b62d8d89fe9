-- ===== src/Hooks/Program.antt =====
-- The hook program cmd/lxcri-hook/main.go, and what it does with the lxc hooks that `configureHooks`
-- registers. What JSON decodes to is a parameter; the flag for the timeout is left out.
use lxcri.Base.{
  String, ◌≡◌, refl, ◌∙◌, ap, false, not, Option, some, List, [], ◌∷◌, ◌++◌, append_assoc,
  append-nil, ◌<>◌, failed, Result, ok, err, is_empty, if◌then◌else◌,
}
use lxcri.Base.Int.{ℤ, pos}
use lxcri.Base.FilePath.{join_path, dir}
use lxcri.Base.Host.{
  IsCompliant, set_config_item, Host, M, History, return, throw, lift, when, attempt, ◌>>=◌, ◌>>◌,
}
use lxcri.Config.{item_if}
use lxcri.Oci.{Hooks, Hook, ContainerState, creating}
use lxcri.Specki.Json.{decode_json_file}
use lxcri.Hooks.{merge_hooks, oci_hooks_and_state, run_hooks, configure_hooks}
use lxcri.Hooks.Environment.{Env, env_of, load_env}
use lxcri.Hooks.Register.{configure_hooks_lem}

-- The program runs, for pre-mount, the prestart hooks and then the createRuntime hooks, and for mount
-- the createContainer hooks, in the state `creating`.
oci_hooks_and_state_mapped :
    (hooks : Hooks)
    → (oci_hooks_and_state "pre-mount" hooks
        ≡ ok (hooks.prestart ++ hooks.create_runtime, creating))
      × (oci_hooks_and_state "mount" hooks ≡ ok (hooks.create_container, creating))
unfolding oci_hooks_and_state
oci_hooks_and_state_mapped hooks = (go hooks.create_runtime, refl)
  where
    go :
        (l : List Hook)
        → ◌≡◌ {A = Result (List Hook × ContainerState)}
            (if not (is_empty l)
              then ok (hooks.prestart ++ l, creating)
              else ok (hooks.prestart, creating))
            (ok (hooks.prestart ++ l, creating))
    go [] = rw append-nil refl
    go (x ∷ xs) = refl

abbrev pub hooks_path : Env → String
hooks_path env = join_path (dir env.config_file ∷ "hooks.json" ∷ [])

module _ (h : Host) (decode_hooks : String → Result Hooks)
    (decode_state : String → Result (Unit {0})) where
  -- The state is decoded behind the choice of the hooks, which are given it with another status.
  unfoldable run_state : Env → M (Unit {0})
  run_state env =
      decode_json_file h decode_state (join_path (dir env.config_file ∷ "state.json" ∷ []))

  -- `run`
  unfoldable pub run : Env → M (Unit {0})
  unfolding run_state
  run env = do
    hooks ← decode_json_file h decode_hooks (hooks_path env)
    (to_run, status) ← lift (oci_hooks_and_state env.type hooks)
    when (is_empty to_run)
        (throw (failed ("no OCI hooks defined for lxc hook '" <> env.type <> "'")))
    run_state env
    run_hooks h false to_run

  abbrev ended_run : Result (Unit {0}) → M ℤ
  ended_run (ok u) = return (pos 0)
  ended_run (err e) = return (pos 3)

  abbrev run_in : Result Env → M ℤ
  run_in (ok env) = do outcome ← attempt (run env); ended_run outcome
  run_in (err e) = return (pos 2)

  -- `main`: its exit code
  unfoldable pub hook_main : M ℤ
  hook_main w = run_in (load_env h) w

  -- For pre-mount and for mount the program runs just the hooks of that stage, in order and up to the
  -- first failure, whenever there is one and its two files can be read.
  run_registered :
      (env : Env) (hooks : Hooks) (w u : History)
      → decode_json_file h decode_hooks (hooks_path env) w ≡ (ok hooks, u)
      → (is_empty (hooks.prestart ++ hooks.create_runtime) ≡ false
          → env.type ≡ "pre-mount"
          → run env w
            ≡ (run_state env >> run_hooks h false (hooks.prestart ++ hooks.create_runtime)) u)
        × (is_empty hooks.create_container ≡ false
            → env.type ≡ "mount"
            → run env w ≡ (run_state env >> run_hooks h false hooks.create_container) u)
  unfolding run
  run_registered env hooks w u read = (
    λ some_hook type. rw read (rw (type, (oci_hooks_and_state_mapped hooks).0) (rw some_hook refl)),
    λ some_hook type. rw read (rw (type, (oci_hooks_and_state_mapped hooks).1) (rw some_hook refl)),
  )

  start_fails :
      (hooks : Hooks) (w u : History)
      → h.lookup_env "LXC_HOOK_TYPE" ≡ some "start"
      → decode_json_file h decode_hooks (hooks_path (env_of h "start")) w ≡ (ok hooks, u)
      → hook_main w ≡ (ok (pos 3), u)
  unfolding hook_main load_env env_of run oci_hooks_and_state
  start_fails hooks w u type read = rw (type, load_env) (rw read refl)

abbrev before_start : String → Hooks → History → History
before_start exec hooks w =
    w
    ++ (set_config_item "lxc.hook.version" "1"
        ∷ (item_if (not (is_empty (hooks.prestart ++ hooks.create_runtime))) "lxc.hook.pre-mount"
              exec
            ++ item_if (not (is_empty hooks.create_container)) "lxc.hook.mount" exec))

-- For a startContainer hook, of the runtime or of the container, `configureHooks` ends by registering
-- the hook program for start, on a host that refuses no item; and the program, called for start with
-- the hooks in its file, exits with 3 and starts none of them.
pub start_hook_fails :
    (h : Host) (exec : String) (rt : Hooks) (spec : Option Hooks)
    (decode_hooks : String → Result Hooks) (decode_state : String → Result (Unit {0}))
    (w v u : History)
    → IsCompliant h
    → is_empty (merge_hooks rt spec).start_container ≡ false
    → h.lookup_env "LXC_HOOK_TYPE" ≡ some "start"
    → decode_json_file h decode_hooks (hooks_path (env_of h "start")) v
      ≡ (ok (merge_hooks rt spec), u)
    → ((before : History) × ((configure_hooks h exec rt spec w).1
          ≡ before ++ (set_config_item "lxc.hook.start" exec ∷ [])))
      × (hook_main h decode_hooks decode_state v ≡ (ok (pos 3), u))
start_hook_fails h exec rt spec decode_hooks decode_state w v u quiet some_hook type read = (
  (
    before_start exec hooks w,
    ap (λ r. r.1) (configure_hooks_lem h exec rt spec w quiet) ∙ (rw some_hook (simp append_assoc)),
  ),
  start_fails h decode_hooks decode_state hooks v u type read,
)
  where
    hooks : Hooks
    hooks = merge_hooks rt spec
