-- ===== src/Runtime/Quiet.antt =====
-- Steps that do not signal the monitor process, put together.
use lxcri.Base.{
  ◌≡◌, refl, ◌∙◌, Bool, true, false, Option, none, some, List, [], ◌∷◌, Error, wrapped, Result, ok,
  err, arith,
}
use lxcri.Base.Host.{
  Host, M, Call, History, perform, with_error, wrap_step, attempt, attempt_step, logged,
  logged_step, deferred, deferred_step, when, throw_if, query_result, return, start_command,
  write_stdin, wait_command, ◌>>=◌, ◌>>◌,
}
use lxcri.Base.Int.{ℤ}
use lxcri.Oci.{Hook, Hooks}
use lxcri.Container.State.{container_state}
use lxcri.Hooks.{run_hook, after_hook, run_hooks}
use lxcri.Cgroup.Spared.{
  signals_to, signals_to-append, Spares, >>=-Spares, then-Spares, perform-Spares,
}
use lxcri.Runtime.Lifecycle.{spec_state, run_after}

module _ (h : Host) (monitor : ℤ) where
  pub attempt-Spares : {A : Type 0} (m : M A) → Spares h monitor m → Spares h monitor (attempt m)
  attempt-Spares {A} m s w = go (m w) (s w)
    where
      go :
          (r : Result A × History)
          → signals_to monitor r.1 ≡ signals_to monitor w
          → signals_to monitor (attempt_step r).1 ≡ signals_to monitor w
      go (r, v) e = e

  pub with_error-Spares :
      {A : Type 0} (f : Error → Error) (m : M A)
      → Spares h monitor m
      → Spares h monitor (with_error f m)
  with_error-Spares {A} f m s w = go (m w) (s w)
    where
      go :
          (r : Result A × History)
          → signals_to monitor r.1 ≡ signals_to monitor w
          → signals_to monitor (wrap_step f r).1 ≡ signals_to monitor w
      go (ok a, v) e = e
      go (err x, v) e = e

  pub logged-Spares : {A : Type 0} (m : M A) → Spares h monitor m → Spares h monitor (logged m)
  logged-Spares {A} m s w = go (m w) (s w)
    where
      go :
          (r : Result A × History)
          → signals_to monitor r.1 ≡ signals_to monitor w
          → signals_to monitor (logged_step r).1 ≡ signals_to monitor w
      go (ok a, v) e = e
      go (err x, v) e = ground arith

  pub deferred-Spares :
      {A : Type 0} (c : Call) (m : M A)
      → signals_to monitor (c ∷ []) ≡ 0
      → Spares h monitor m
      → Spares h monitor (deferred c m)
  deferred-Spares {A} c m other s w = go (m w) (s w)
    where
      go :
          (r : Result A × History)
          → signals_to monitor r.1 ≡ signals_to monitor w
          → signals_to monitor (deferred_step c r).1 ≡ signals_to monitor w
      go (r, v) e = signals_to-append monitor v (c ∷ []) ∙ ground (arith, e, other)

  pub when-Spares : (b : Bool) (m : M (Unit {0})) → Spares h monitor m → Spares h monitor (when b m)
  when-Spares true m s = s
  when-Spares false m s = λ w. refl

  pub throw_if-Spares : (b : Bool) (e : Error) → Spares h monitor (throw_if b e)
  throw_if-Spares true e w = refl
  throw_if-Spares false e w = refl

  run_hook-Spares : (hook : Hook) → Spares h monitor (run_hook h hook)
  unfolding run_hook
  run_hook-Spares hook =
      let wait = perform h (wait_command hook.path) in
      let feed = perform h (write_stdin hook.path) in
      let begin = perform h (start_command hook.path hook.args hook.env hook.timeout) in
      then-Spares h monitor begin (feed >> wait) (perform-Spares h monitor _ refl) (
        then-Spares h monitor feed wait (perform-Spares h monitor _ refl)
          (perform-Spares h monitor _ refl))

  after_hook-Spares :
      (continue_on_error : Bool) (r : Result (Unit {0})) (rest : M (Unit {0}))
      → Spares h monitor rest
      → Spares h monitor (after_hook h continue_on_error r rest)
  after_hook-Spares continue_on_error (ok u) rest s w = s w
  after_hook-Spares true (err e) rest s w = s w
  after_hook-Spares false (err e) rest s w = refl

  run_hooks-Spares :
      (continue_on_error : Bool) (hooks : List Hook)
      → Spares h monitor (run_hooks h continue_on_error hooks)
  unfolding run_hooks
  run_hooks-Spares continue_on_error [] = λ w. refl
  run_hooks-Spares continue_on_error (hook ∷ hooks) =
      >>=-Spares h monitor (attempt (run_hook h hook))
        (λ r. after_hook h continue_on_error r (run_hooks h continue_on_error hooks))
        (attempt-Spares (run_hook h hook) (run_hook-Spares hook))
        (λ r.
          after_hook-Spares continue_on_error r (run_hooks h continue_on_error hooks)
            (run_hooks-Spares continue_on_error hooks))

  pub run_after-Spares :
      (select : Hooks → List Hook) (hooks : Option Hooks)
      → Spares h monitor (run_after h select hooks)
  unfolding run_after spec_state
  run_after-Spares select none = λ w. refl
  run_after-Spares select (some hooks) =
      >>=-Spares h monitor (with_error (wrapped "failed to get container state") (spec_state h))
        (λ status. attempt (run_hooks h true (select hooks)) >>= (λ outcome. return tt))
        (with_error-Spares _ (spec_state h)
          (with_error-Spares _ (query_result (λ w. container_state h w)) (λ w. refl)))
        (λ status.
          >>=-Spares h monitor (attempt (run_hooks h true (select hooks))) (λ outcome. return tt)
            (attempt-Spares (run_hooks h true (select hooks))
              (run_hooks-Spares true (select hooks)))
            (λ outcome w. refl))
