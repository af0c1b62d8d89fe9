-- ===== src/Init.antt =====
-- cmd/lxcri-init/main.go: the init process, from its state file to execve(2). What exec.LookPath and
-- user.Lookup find are parameters.
pub mod Main
use lxcri.Base.{
  String, ◌≡◌, sym, ◌∙◌, ap, Bool, false, ◌&&◌, Option, none, some, List, [], ◌∷◌, ◌++◌,
  append_assoc, ◌==◌, ◌<>◌, eqb, if◌then◌else◌, failed, wrapped, nil_dereference, Result, ok, err,
}
use lxcri.Base.Host.{
  Host, M, History, FileInfo, set_env, change_dir, open_read, close_file, unmount, exec, perform,
  return, lift, query, query_result, with_error, attempt, >>=-eq-ok, ◌>>=◌, ◌>>◌,
}
use lxcri.Base.FilePath.{join_path}
use lxcri.Oci.{Process, Hook, Hooks}
use lxcri.Specki.Env.{getenv}
use lxcri.Base.Calls.{Accepted, then-Does, perform-Does, wrapped-Does}
use lxcri.Hooks.{run_hooks}

-- The command of a process; an empty list of arguments is an index error in Go.
abbrev first_arg : List String → Result String
first_arg [] = err nil_dereference
first_arg (arg ∷ args) = ok arg

abbrev start_hooks : Option Hooks → Result (List Hook)
start_hooks none = err nil_dereference
start_hooks (some hooks) = ok hooks.start_container

module _ (h : Host) where
  abbrev is_directory : Result FileInfo → Bool
  is_directory (ok info) = info.is_dir
  is_directory (err e) = false

  -- `addEnvHome`, with the home directory that user.Lookup finds for a user name
  unfoldable pub home_of : (String → Option String) → Process → History → String
  home_of lookup p w = of_user (if p.user.username == "" then none else lookup p.user.username)
    where
      fallback : String
      fallback = if eqb p.user.uid 0 && is_directory (h.stat w "/root") then "/root" else p.cwd

      of_user : Option String → String
      of_user none = fallback
      of_user (some home) = if home == "" then fallback else home

  -- The environment with HOME
  unfoldable pub with_home : (String → Option String) → Process → History → List String
  with_home lookup p w = add (getenv p.env "HOME")
    where
      add : Option String → List String
      add (some home) = p.env
      add none = p.env ++ (("HOME=" <> home_of lookup p w) ∷ [])

  -- The command as it is executed: looked up if the environment has a PATH
  unfoldable pub command_path :
      (History → String → Result String) → Option String → String → M String
  command_path look_path none cmd = return cmd
  command_path look_path (some val) cmd = do
    with_error (λ e. failed "failed to set PATH environment variable")
        (perform h (set_env "PATH" val))
    with_error (wrapped ("lookup path for " <> cmd <> " failed"))
        (query_result (λ w. look_path w cmd))

  -- `readSyncfifo`
  unfoldable pub read_syncfifo : String → M (Unit {0})
  read_syncfifo filename = do
    with_error (wrapped ("failed to open " <> filename)) (perform h (open_read filename))
    perform h (close_file filename)

  -- The end of `doInit`. What execve(2) returns is dropped: the error tested is an older one.
  unfoldable pub unmount_and_exec : String → Process → List String → M (Unit {0})
  unmount_and_exec cmd_path p env = do
    init ← attempt (perform h (unmount "/.lxcri/lxcri-init"))
    dir ← attempt (perform h (unmount "/.lxcri"))
    executed ← attempt (perform h (exec cmd_path p.args env))
    return tt

  -- `doInit`, with the outcome of reading state.json
  unfoldable pub do_init :
      (History → String → Result String)
      → (String → Option String)
      → Result (Unit {0})
      → String
      → Process
      → Option Hooks
      → M (Unit {0})
  do_init look_path lookup state_json runtime_dir p hooks = do
    with_error (λ e. failed "failed to read spec") (lift state_json)
    cmd ← lift (first_arg p.args)
    cmd_path ← command_path look_path (getenv p.env "PATH") cmd
    env ← query (with_home lookup p)
    with_error (wrapped ("failed to change cwd to " <> p.cwd)) (perform h (change_dir p.cwd))
    read_syncfifo (join_path (runtime_dir ∷ "syncfifo" ∷ []))
    to_run ← lift (start_hooks hooks)
    run_hooks h false to_run
    unmount_and_exec cmd_path p env

unmount_and_exec_lem :
    (h : Host) (cmd_path : String) (p : Process) (env : List String) (w : History)
    → unmount_and_exec h cmd_path p env w ≡ (
      ok tt,
      w ++ (unmount "/.lxcri/lxcri-init" ∷ unmount "/.lxcri" ∷ exec cmd_path p.args env ∷ []),
    )
unfolding unmount_and_exec
unmount_and_exec_lem h cmd_path p env w = ap (λ v. (ok tt, v)) (simp append_assoc)

-- What `doInit` has done when it returns no error: the hooks `to_run` of the container ran one after
-- the other without an error, behind the sync fifo, which was opened and closed without an error; then the two
-- mounts were given up and the process was executed.
abbrev pub HasExecuted : Host → String → Process → Option Hooks → History → Type 0
HasExecuted h runtime_dir p hooks w' =
    let path = join_path (runtime_dir ∷ "syncfifo" ∷ []) in
    let fifo = open_read path ∷ (close_file path ∷ []) in
    (to_run : List Hook) × (cmd_path : String) × (env : List String) × (u v : History)
    × (start_hooks hooks ≡ ok to_run)
    × Accepted h u fifo
    × (run_hooks h false to_run (u ++ fifo) ≡ (ok tt, v))
    × (w' ≡ v ++ (unmount "/.lxcri/lxcri-init" ∷ unmount "/.lxcri" ∷ exec cmd_path p.args env ∷ []))

-- If `doInit` returns without an error, it has got as far as execve(2), by the way of `HasExecuted`.
-- Nothing is said of what execve(2) answered: an error of it is not returned.
pub do_init_sound :
    (h : Host) (look_path : History → String → Result String) (lookup : String → Option String)
    (state_json : Result (Unit {0})) (runtime_dir : String) (p : Process) (hooks : Option Hooks)
    (w w' : History)
    → do_init h look_path lookup state_json runtime_dir p hooks w ≡ (ok tt, w')
    → HasExecuted h runtime_dir p hooks w'
unfolding do_init read_syncfifo
do_init_sound h look_path lookup state_json runtime_dir p hooks w w' e =
    let fifo_path = join_path (runtime_dir ∷ "syncfifo" ∷ []) in
    let finish : String → List String → M (Unit {0}) =
      λ cmd_path env. unmount_and_exec h cmd_path p env in
    let hooked : String → List String → List Hook → M (Unit {0}) =
      λ cmd_path env to_run. run_hooks h false to_run >> finish cmd_path env in
    let listed : String → List String → M (Unit {0}) =
      λ cmd_path env. lift (start_hooks hooks) >>= hooked cmd_path env in
    let unblocked : String → List String → M (Unit {0}) =
      λ cmd_path env. read_syncfifo h fifo_path >> listed cmd_path env in
    let cwd =
      with_error (wrapped ("failed to change cwd to " <> p.cwd)) (perform h (change_dir p.cwd)) in
    let moved : String → List String → M (Unit {0}) =
      λ cmd_path env. cwd >> unblocked cmd_path env in
    let homed : String → M (Unit {0}) =
      λ cmd_path. query (with_home h lookup p) >>= moved cmd_path in
    let found : String → M (Unit {0}) =
      λ cmd. command_path h look_path (getenv p.env "PATH") cmd >>= homed in
    let read_state = with_error (λ e. failed "failed to read spec") (lift state_json) in
    let (_, w₁, _, e₁) = >>=-eq-ok read_state (λ _. lift (first_arg p.args) >>= found) w e in
    let (cmd, w₂, _, e₂) = >>=-eq-ok (lift (first_arg p.args)) found w₁ e₁ in
    let (cmd_path, w₃, _, e₃) =
      >>=-eq-ok (command_path h look_path (getenv p.env "PATH") cmd) homed w₂ e₂ in
    let (env, w₄, _, e₄) = >>=-eq-ok (query (with_home h lookup p)) (moved cmd_path) w₃ e₃ in
    let (_, w₅, _, e₅) = >>=-eq-ok cwd (λ _. unblocked cmd_path env) w₄ e₄ in
    let (_, w₆, opened, e₆) =
      >>=-eq-ok (read_syncfifo h fifo_path) (λ _. listed cmd_path env) w₅ e₅ in
    let (to_run, w₇, known, e₇) =
      >>=-eq-ok (lift (start_hooks hooks)) (hooked cmd_path env) w₆ e₆ in
    let (_, v, ran, e₈) = >>=-eq-ok (run_hooks h false to_run) (λ _. finish cmd_path env) w₇ e₇ in
    let opening : M (Unit {0}) =
      with_error (wrapped ("failed to open " <> fifo_path)) (perform h (open_read fifo_path)) in
    let close : M (Unit {0}) = perform h (close_file fifo_path) in
    let (_, u, open_done, closed) = >>=-eq-ok opening (λ _. close) w₅ opened in
    let (accepted, grown) =
      then-Does h w₅ u w₆ (open_read fifo_path ∷ []) (close_file fifo_path ∷ [])
        (wrapped-Does h (wrapped ("failed to open " <> fifo_path)) _ w₅ u open_done)
        (perform-Does h _ u w₆ closed) in
    let same : w₇ ≡ w₅ ++ (open_read fifo_path ∷ (close_file fifo_path ∷ [])) =
      ap (λ r. r.1) (sym known) ∙ grown in
    (
      to_run,
      cmd_path,
      env,
      w₅,
      v,
      ap (λ r. r.0) known,
      accepted,
      ap (run_hooks h false to_run) (sym same) ∙ ran,
      ap (λ r. r.1) (sym e₈ ∙ unmount_and_exec_lem h cmd_path p env v),
    )
