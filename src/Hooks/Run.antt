-- ===== src/Hooks/Run.antt =====
-- Which hooks `RunHooks` starts, and what it returns.
use lxcri.Base.{
  String, ◌≡◌, refl, sym, ◌∙◌, ap, true, false, List, [], ◌∷◌, ◌++◌, append_assoc, append-nil,
  arith, ◌⊎◌, inl, inr, Error, Result, ok, err,
}
use lxcri.Base.Host.{Host, History, start_command, write_stdin, wait_command}
use lxcri.Oci.{Hook}
use lxcri.Hooks.{run_hook, run_hooks}

-- The paths of the commands that were started, oldest first.
abbrev pub started : History → List String
started [] = []
started (start_command path args env timeout ∷ w) = path ∷ started w
started (c ∷ w) = started w

started-append : (v w : History) → started (v ++ w) ≡ started v ++ started w
started-append [] w = refl
started-append (start_command path args env timeout ∷ v) w = ap (λ l. path ∷ l) (started-append v w)
started-append (c ∷ v) w = started-append v w

-- The commands that a hook list stands for, in order.
abbrev pub paths : List Hook → List String
paths [] = []
paths (hook ∷ hooks) = hook.path ∷ paths hooks

paths-append : (xs ys : List Hook) → paths (xs ++ ys) ≡ paths xs ++ paths ys
paths-append [] ys = refl
paths-append (x ∷ xs) ys = ap (λ l. x.path ∷ l) (paths-append xs ys)

-- What the last two calls of `RunHook` add is not a start.
started_quiet :
    (w : History) (path : String)
    → (started (w ++ (write_stdin path ∷ [])) ≡ started w)
      × (started (w ++ (wait_command path ∷ [])) ≡ started w)
started_quiet w path =
    (started-append w _ ∙ append-nil (started w), started-append w _ ∙ append-nil (started w))

module _ (h : Host) where
  -- A hook is started once, whatever becomes of it.
  started-run_hook :
      (hook : Hook) (w : History) → started (run_hook h hook w).1 ≡ started w ++ (hook.path ∷ [])
  unfolding run_hook
  started-run_hook hook w =
      let w₁ : History = w ++ (start_command hook.path hook.args hook.env hook.timeout ∷ []) in
      let w₂ : History = w₁ ++ (write_stdin hook.path ∷ []) in
      ground (
        arith,
        started-append w (start_command hook.path hook.args hook.env hook.timeout ∷ []),
        started_quiet w₁ hook.path,
        started_quiet w₂ hook.path,
      )

  begun :
      (hook : Hook) (hooks : List Hook) (w : History)
      → started (run_hook h hook w).1 ++ paths hooks ≡ started w ++ paths (hook ∷ hooks)
  begun hook hooks w = rw (started-run_hook hook w) (append_assoc (started w) _ _)

  run_hooks-cons_continue :
      (hook : Hook) (hooks : List Hook) (w : History)
      → run_hooks h true (hook ∷ hooks) w ≡ run_hooks h true hooks (run_hook h hook w).1
  unfolding run_hooks
  run_hooks-cons_continue hook hooks w = go (run_hook h hook w) refl
    where
      go :
          (r : Result (Unit {0}) × History)
          → run_hook h hook w ≡ r
          → run_hooks h true (hook ∷ hooks) w ≡ run_hooks h true hooks (run_hook h hook w).1
      go (ok u, v) e = rw (e, run_hooks) refl
      go (err x, v) e = rw (e, run_hooks) refl

  -- With `continueOnError` every hook is started once, in order, and no error is returned, whatever
  -- the hooks do.
  pub run_hooks_continue :
      (hooks : List Hook) (w : History)
      → ((run_hooks h true hooks w).0 ≡ ok tt)
        × (started (run_hooks h true hooks w).1 ≡ started w ++ paths hooks)
  unfolding run_hooks
  run_hooks_continue [] w = (refl, sym (append-nil (started w)))
  run_hooks_continue (hook ∷ hooks) w =
      let (fine, all_started) = run_hooks_continue hooks (run_hook h hook w).1 in
      rw (run_hooks-cons_continue hook hooks w) (fine, all_started ∙ begun hook hooks w)

  -- The first failing hook, and what was started by then.
  abbrev StoppedAt : List Hook → History → Result (Unit {0}) × History → Type 0
  StoppedAt hooks w r =
      (before : List Hook) × (hook : Hook) × (after : List Hook) × (v : History) × (e : Error)
      × (hooks ≡ before ++ (hook ∷ after))
      × ((run_hook h hook v).0 ≡ err e)
      × (r.0 ≡ err e)
      × (started r.1 ≡ started w ++ paths (before ++ (hook ∷ [])))

  abbrev pub Verdict : List Hook → History → Result (Unit {0}) × History → Type 0
  Verdict hooks w r =
      ((r.0 ≡ ok tt) × (started r.1 ≡ started w ++ paths hooks)) ⊎ StoppedAt hooks w r

  Verdict-cons :
      (hook : Hook) (hooks : List Hook) (w : History) (r : Result (Unit {0}) × History)
      → Verdict hooks (run_hook h hook w).1 r
      → Verdict (hook ∷ hooks) w r
  Verdict-cons hook hooks w r (inl (fine, s)) = inl (fine, s ∙ begun hook hooks w)
  Verdict-cons hook hooks w r (inr (before, bad, after, v, e, split, failed_at, result, s)) = inr (
    hook ∷ before,
    bad,
    after,
    v,
    e,
    ap (λ l. hook ∷ l) split,
    failed_at,
    result,
    s ∙ begun hook (before ++ (bad ∷ [])) w,
  )

  -- Without `continueOnError` either all hooks are started in order and succeed, or the list stops at
  -- a hook that failed: the ones before it and it itself were started, the ones behind it were not,
  -- and its error is returned.
  pub run_hooks_stop :
      (hooks : List Hook) (w : History) → Verdict hooks w (run_hooks h false hooks w)
  unfolding run_hooks
  run_hooks_stop [] w = inl (refl, sym (append-nil (started w)))
  run_hooks_stop (hook ∷ hooks) w = go (run_hook h hook w) refl (run_hooks_stop hooks)
    where
      go :
          (r : Result (Unit {0}) × History)
          → run_hook h hook w ≡ r
          → ((w : History) → Verdict hooks w (run_hooks h false hooks w))
          → Verdict (hook ∷ hooks) w (run_hooks h false (hook ∷ hooks) w)
      go (ok u, v) e ih =
          let same : run_hooks h false (hook ∷ hooks) w
              ≡ run_hooks h false hooks (run_hook h hook w).1 =
            rw (e, run_hooks) refl in
          rw same (
            Verdict-cons hook hooks w (run_hooks h false hooks (run_hook h hook w).1)
              (ih (run_hook h hook w).1))
      go (err x, v) e ih = inr (
        [],
        hook,
        hooks,
        w,
        x,
        refl,
        rw e refl,
        rw (e, run_hooks) refl,
        rw (e, run_hooks) (ap (λ r. started r.1) (sym e) ∙ started-run_hook hook w),
      )
