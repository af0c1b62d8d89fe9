-- ===== src/Runtime/Started.antt =====
-- When `Start` succeeds, and what it has done then.
use lxcri.Base.{
  ℕ, ◌≡◌, ◌≢◌, refl, sym, ◌∙◌, ap, true, false, Option, none, some, List, [], ◌∷◌, ◌++◌, append-nil,
  wrapped, Result, ok, err, is_ok, arith, Result-cases, inl, inr,
}
use lxcri.Base.Host.{Host, M, History, Call, open_write, close_file, perform, >>=-eq-ok, ◌>>◌}
use lxcri.Base.Calls.{Accepted, then-Does, perform-Does}
use lxcri.Oci.{ContainerState, Hook, Hooks}
use lxcri.Container.{Container, sync_fifo_path}
use lxcri.Container.State.{container_state}
use lxcri.Container.Wait.{wait_started}
use lxcri.Hooks.{run_hooks}
use lxcri.Hooks.Run.{started, paths, run_hooks_continue}
use lxcri.Runtime.Lifecycle.{spec_state, run_after, unblock, start}

-- The hooks that `Start` and `Delete` run behind their work.
abbrev pub hooks_after : (Hooks → List Hook) → Option Hooks → List Hook
hooks_after select none = []
hooks_after select (some hooks) = select hooks

module _ (h : Host) (select : Hooks → List Hook) where
  run_after-started :
      (hooks : Option Hooks) (v w : History)
      → run_after h select hooks v ≡ (ok tt, w)
      → started w ≡ started v ++ paths (hooks_after select hooks)
  unfolding run_after spec_state
  run_after-started none v w e = ap (λ r. started r.1) (sym e) ∙ sym (append-nil (started v))
  run_after-started (some hooks) v w e = elim (Result-cases (container_state h v)) [
    | inl (s, q) ↦
        let all_run : run_after h select (some hooks) v
            ≡ (ok tt, (run_hooks h true (select hooks) v).1) =
          rw (q, run_after, spec_state) refl in
        ap (λ r. started r.1) (sym e ∙ all_run) ∙ (run_hooks_continue h (select hooks) v).1
    | inr (x, q) ↦
        let stuck : run_after h select (some hooks) v ≡ (
          err (
              wrapped "failed to get container state" (wrapped "failed go get container status" x)),
          v,
        ) =
          rw (q, run_after, spec_state) refl in
        absurd cc
  ]

-- `Start` refuses a container whose state is not `created`, or cannot be told: it returns an error and
-- has called nothing.
start_refuses :
    (h : Host) (c : Container) (fuel : ℕ) (w : History)
    → container_state h w ≢ ok ContainerState.created
    → (is_ok (start h c fuel w).0 ≡ false) × ((start h c fuel w).1 ≡ w)
unfolding start spec_state
start_refuses h c fuel w other = go (container_state h w) refl
  where
    go :
        (r : Result ContainerState)
        → container_state h w ≡ r
        → (is_ok (start h c fuel w).0 ≡ false) × ((start h c fuel w).1 ≡ w)
    go (ok ContainerState.created) q = absurd (other q)
    go (ok ContainerState.creating) q = rw (q, start, spec_state) (refl, refl)
    go (ok ContainerState.running) q = rw (q, start, spec_state) (refl, refl)
    go (ok ContainerState.stopped) q = rw (q, start, spec_state) (refl, refl)
    go (err x) q = rw (q, start, spec_state) (refl, refl)

-- The sync fifo is opened, which unblocks the init process, and closed.
abbrev pub fifo_calls : Container → List Call
fifo_calls c = open_write (sync_fifo_path c) ∷ close_file (sync_fifo_path c) ∷ []

-- If `Start` succeeds, the container was in state `created`, the sync fifo has been opened first and
-- closed, both without an error, the wait for the container process succeeded behind that, and then every poststart
-- hook was started once, in order.
pub start_sound :
    (h : Host) (c : Container) (fuel : ℕ) (w w' : History)
    → start h c fuel w ≡ (ok tt, w')
    → (container_state h w ≡ ok ContainerState.created)
      × Accepted h w (fifo_calls c)
      × (v : History) × (wait_started h c.pid fuel (w ++ fifo_calls c) ≡ (ok tt, v))
      × (started w' ≡ started v ++ paths (hooks_after (λ hooks. hooks.poststart) c.spec.hooks))
unfolding start spec_state unblock
start_sound h c fuel w w' e = go (container_state h w) refl
  where
    refused : ¬ (container_state h w ≢ ok ContainerState.created)
    refused other = ground (arith, (start_refuses h c fuel w other).0, ap (λ r. is_ok r.0) e)

    go :
        (r : Result ContainerState)
        → container_state h w ≡ r
        → (container_state h w ≡ ok ContainerState.created)
          × Accepted h w (fifo_calls c)
          × (v : History) × (wait_started h c.pid fuel (w ++ fifo_calls c) ≡ (ok tt, v))
          × (started w' ≡ started v ++ paths (hooks_after (λ hooks. hooks.poststart) c.spec.hooks))
    go (ok ContainerState.created) q =
        let after = run_after h (λ hooks. hooks.poststart) c.spec.hooks in
        let step : start h c fuel w ≡ (unblock h c fuel >> after) w =
          rw (q, start, spec_state) refl in
        let (_, v, unblocked, ran) = >>=-eq-ok (unblock h c fuel) (λ _. after) w (sym step ∙ e) in
        let opening : M (Unit {0}) = perform h (open_write (sync_fifo_path c)) in
        let close : M (Unit {0}) = perform h (close_file (sync_fifo_path c)) in
        let wait : M (Unit {0}) = wait_started h c.pid fuel in
        let (_, u, opened, rest) = >>=-eq-ok opening (λ _. close >> wait) w unblocked in
        let (_, x, closed, waited) = >>=-eq-ok close (λ _. wait) u rest in
        let (fine, grown) =
          then-Does h w u x (open_write (sync_fifo_path c) ∷ [])
            (close_file (sync_fifo_path c) ∷ []) (perform-Does h _ w u opened)
            (perform-Does h _ u x closed) in
        (
          q,
          fine,
          v,
          ap (wait_started h c.pid fuel) (sym grown) ∙ waited,
          run_after-started h (λ hooks. hooks.poststart) c.spec.hooks v w' ran,
        )
    go (ok ContainerState.creating) q = absurd (refused (λ p. cc))
    go (ok ContainerState.running) q = absurd (refused (λ p. cc))
    go (ok ContainerState.stopped) q = absurd (refused (λ p. cc))
    go (err x) q = absurd (refused (λ p. cc))
