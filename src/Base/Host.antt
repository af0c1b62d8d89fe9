-- ===== src/Base/Host.antt =====
-- The host: the kernel, the file system, the clock and liblxc. A call that changes it is recorded,
-- oldest first, and what a call or a query answers may depend on all that was called before.
use Prim.Native.Nat.{ℕ}
use Prim.Native.String.{String}
use mathlib.Core.Path.{◌≡◌, refl, sym, ap}
use mathlib.Core.Logic.{inl, inr}
use mathlib.Core.Bool.{Bool, true, false}
use mathlib.Core.Option.{Option, none, some}
use mathlib.Core.List.{List, [], ◌∷◌, ◌++◌}
use lxcri.Base.Tests.{Option-cases}
use lxcri.Base.Int.{ℤ}
use lxcri.Base.Errors.{Errno, Error, out_of_fuel, Result, ok, err}

-- lxc.State of go-lxc
pub data LxcState : Type 0 where
  stopped starting running stopping aborting freezing frozen thawed : LxcState
  other_state : ℕ → LxcState

-- lxc.LogLevel of go-lxc
pub data LxcLogLevel : Type 0 where
  trace debug info notice warn error crit alert fatal : LxcLogLevel

-- lxc.Verbosity of go-lxc
pub data Verbosity : Type 0 where
  quiet verbose : Verbosity

-- exec.Cmd: the program, its arguments, its environment and directory, and whether it has the
-- standard streams of the runtime
pub record Command : Type 0 where
  pub path : String
  pub args : List String
  pub env : List String
  pub dir : String
  pub inherits_stdio : Bool

pub data Call : Type 0 where
  set_config_item : String → String → Call
  save_config : String → Call
  set_verbosity : Verbosity → Call
  set_log_level : LxcLogLevel → Call
  set_log_file : String → Call
  new_container : String → String → Call
  load_config : String → Call
  mkdir_all : String → ℕ → Call
  chmod : String → ℕ → Call
  mkfifo : String → ℕ → Call
  create_file : String → ℕ → Call
  create_new : String → ℕ → Call  -- with O_EXCL
  open_write : String → Call
  open_read : String → Call
  open_append : String → ℕ → Call
  open_existing : String → Call  -- to append, without O_CREATE
  close_file : String → Call
  write_text : String → String → Call
  sync_file : String → Call
  rename_file : String → String → Call
  remove_all : String → Call
  remove_dir : String → Call
  send_signal : ℤ → ℤ → Call
  start_monitor : Command → Call
  start_pty : Command → Call
  dial : String → Call
  set_deadline : Call
  connection_file : Call
  send_terminal : Call
  close_pty : Call
  close_connection : Call
  start_command : String → List String → List String → Option ℕ → Call
  write_stdin : String → Call
  wait_command : String → Call
  sethostname : String → String → Call
  set_env : String → String → Call
  change_dir : String → Call
  unmount : String → Call
  exec : String → List String → List String → Call
  run_command : List String → Call
  run_program : String → List String → Call
  print : String → Call
  mknod : String → ℕ → ℕ → Call
  chown : String → ℕ → ℕ → Call
  mount : String → String → String → ℕ → Call  -- the source, the target, the type and the flags
  load_capabilities : Call
  destroy : Call
  release : Call
  sleep : ℕ → Call

abbrev pub History : Type 0
History = List Call

-- What stat(2) says of a file.
pub record FileInfo : Type 0 where
  pub dev : ℕ
  pub ino : ℕ
  pub is_dir : Bool

-- wait4(2) with WNOHANG, for one PID
pub data WaitResult : Type 0 where
  reaped : WaitResult
  alive : WaitResult
  wait_error : Errno → WaitResult

pub record Host : Type 0 where
  -- The error that a call returns, if it does.
  pub reply : History → Call → Option Error
  pub uid : ℕ
  pub stat : History → String → Result FileInfo
  -- lstat(2): whether the file is a symbolic link
  pub is_symlink : History → String → Result Bool
  pub statfs : History → String → Result ℕ  -- the type of the file system
  pub read_link : History → String → Result String
  pub read_file : History → String → Result String
  -- the entries of a directory, with whether each is one
  pub read_dir : History → String → Result (List (String × Bool))
  pub config_item : History → String → List String
  -- lxc.VersionAtLeast(4, 0, 6) and lxc.IsSupportedConfigItem
  pub can_check_items : Bool
  pub supports_item : String → Bool
  pub lxc_state : History → LxcState
  -- the PID of the init process; 0 stands for every value below 1
  pub init_pid : History → ℕ
  pub wait4 : History → ℕ → WaitResult
  -- kill(pid, 0)
  pub probe : History → ℕ → Option Errno
  -- what filepath.Walk visits below a path, in its order: each path with its last element, or
  -- the error that is passed on
  pub walk : History → String → List (String × Result String)
  -- the PID of the command that was started last
  pub started_pid : History → ℕ
  -- what liblxc returns of the last command that it ran in a container
  pub command_pid : History → ℕ
  pub command_status : History → ℤ
  pub lookup_env : String → Option String
  -- access(2) with X_OK
  pub access : History → String → Option Error
  -- lxc.VersionAtLeast
  pub is_version_at_least : ℕ → ℕ → ℕ → Bool
  -- the context is done
  pub is_done : History → Bool

abbrev pub M : Type 0 → Type 0
M A = History → Result A × History

abbrev pub bind_step : {A B : Type 0} → Result A × History → (A → M B) → Result B × History
bind_step (ok a, w) f = f a w
bind_step (err e, w) f = (err e, w)

infixl 5 ◌>>=◌ ◌>>◌
abbrev pub ◌>>=◌ : {A B : Type 0} → M A → (A → M B) → M B
◌>>=◌ m f w = bind_step (m w) f

abbrev pub ◌>>◌ : {B : Type 0} → M (Unit {0}) → M B → M B
◌>>◌ m k w = bind_step (m w) (λ _. k)

abbrev pub return : {A : Type 0} → A → M A
return a w = (ok a, w)

abbrev pub throw : {A : Type 0} → Error → M A
throw e w = (err e, w)

abbrev pub lift : {A : Type 0} → Result A → M A
lift r w = (r, w)

-- The outcome of a step as a value: the step does not end the function.
abbrev pub attempt_step : {A : Type 0} → Result A × History → Result (Result A) × History
attempt_step (r, w) = (ok r, w)

abbrev pub attempt : {A : Type 0} → M A → M (Result A)
attempt m w = attempt_step (m w)

abbrev pub answer : Option Error → Result (Unit {0})
answer none = ok tt
answer (some e) = err e

-- Make a call, and record it whatever it answers.
abbrev pub perform : Host → Call → M (Unit {0})
perform h c w = (answer (h.reply w c), w ++ (c ∷ []))

-- `if err := m; err != nil { return wrap(err) }`
abbrev pub wrap_step : {A : Type 0} → (Error → Error) → Result A × History → Result A × History
wrap_step f (ok a, w) = (ok a, w)
wrap_step f (err e, w) = (err (f e), w)

abbrev pub with_error : {A : Type 0} → (Error → Error) → M A → M A
with_error f m w = wrap_step f (m w)

-- `for _, x := range xs { body }` with a body that may return an error.
abbrev pub for_each {ℓ} : {A : Type ℓ} → List A → (A → M (Unit {0})) → M (Unit {0})
for_each [] body w = (ok tt, w)
for_each (x ∷ xs) body w = bind_step (body x w) (λ _. for_each xs body)

-- Inversion of a successful step.
pub >>=-eq-ok :
    {A B : Type 0} (m : M A) (f : A → M B) (w : History) {b : B} {w' : History}
    → (m >>= f) w ≡ (ok b, w')
    → (a : A) × (w₁ : History) × (m w ≡ (ok a, w₁)) × (f a w₁ ≡ (ok b, w'))
>>=-eq-ok {A} {B} m f w {b} {w'} = go (m w) refl
  where
    go :
        (r : Result A × History)
        → m w ≡ r
        → bind_step r f ≡ (ok b, w')
        → (a : A) × (w₁ : History) × (m w ≡ (ok a, w₁)) × (f a w₁ ≡ (ok b, w'))
    go (ok a, w₁) e h = (a, w₁, e, h)
    go (err e', w₁) e h = cc

-- Queries change nothing.
abbrev pub query : {A : Type 0} → (History → A) → M A
query q w = (ok (q w), w)

abbrev pub query_result : {A : Type 0} → (History → Result A) → M A
query_result q w = (q w, w)

-- A call without a result.
abbrev pub record_call : Call → M (Unit {0})
record_call c w = (ok tt, w ++ (c ∷ []))

-- `if bad { return err }`
abbrev pub throw_if : Bool → Error → M (Unit {0})
throw_if true e w = (err e, w)
throw_if false e w = (ok tt, w)

-- `if b { if err := m; err != nil { return err } }`
abbrev pub when : Bool → M (Unit {0}) → M (Unit {0})
when true m w = m w
when false m w = (ok tt, w)

-- The host refuses no call, at any time.
abbrev pub IsCompliant : Host → Type 0
IsCompliant h = (w : History) (c : Call) → h.reply w c ≡ none

-- A call is recorded whatever it answers, and however its error is wrapped.
pub perform_history :
    (h : Host) (f : Error → Error) (c : Call) (w : History)
    → (with_error f (perform h c) w).1 ≡ w ++ (c ∷ [])
perform_history h f c w = go (h.reply w c)
  where
    go :
        (o : Option Error)
        → (wrap_step {A = Unit {0}} f (answer o, w ++ (c ∷ []))).1 ≡ w ++ (c ∷ [])
    go none = refl
    go (some e) = refl

-- `if err := m; err != nil { log(err) }`: the outcome as a value, so that the function goes on. A loop
-- that ran out of rounds has no outcome.
abbrev pub logged_step : {A : Type 0} → Result A × History → Result (Result A) × History
logged_step (ok a, w) = (ok (ok a), w)
logged_step (err out_of_fuel, w) = (err out_of_fuel, w)
logged_step (err e, w) = (ok (err e), w)

abbrev pub logged : {A : Type 0} → M A → M (Result A)
logged m w = logged_step (m w)

-- `defer release()`, with an error of the call logged.
abbrev pub deferred_step : {A : Type 0} → Call → Result A × History → Result A × History
deferred_step c (r, w) = (r, w ++ (c ∷ []))

abbrev pub deferred : {A : Type 0} → Call → M A → M A
deferred c m w = deferred_step c (m w)

-- A call without an error was taken, and is recorded.
pub perform-ok :
    (h : Host) (c : Call) (w w' : History)
    → perform h c w ≡ (ok tt, w')
    → (h.reply w c ≡ none) × (w' ≡ w ++ (c ∷ []))
perform-ok h c w w' e = elim (Option-cases (h.reply w c)) [
  | inl fine ↦ (fine, sym (ap (λ r. r.1) e))
  | inr (x, bad) ↦ let stuck : perform h c w ≡ (err x, w ++ (c ∷ [])) = rw bad refl in absurd cc
]

pub wrapped-ok :
    {A : Type 0} (f : Error → Error) (r : Result A × History) (a : A) (v : History)
    → wrap_step f r ≡ (ok a, v)
    → r ≡ (ok a, v)
wrapped-ok f (ok u, w) a v e = e
wrapped-ok f (err x, w) a v e = absurd cc
