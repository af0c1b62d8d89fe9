-- ===== src/Base/Calls.antt =====
-- Sequences of calls that the host takes.
use mathlib.Core.Path.{◌≡◌, refl, sym, ap, ◌∙◌, subst}
use mathlib.Core.Option.{none}
use mathlib.Core.List.{List, [], ◌∷◌, ◌++◌, append-nil, append_assoc}
use lxcri.Base.Errors.{Error, Result, ok, err}
use mathlib.Core.Bool.{Bool, true, false}
use lxcri.Base.Tests.{if◌then◌else◌}
use lxcri.Base.Host.{
  M, attempt, attempt_step, return, when, deferred, deferred_step, Host, History, Call, perform,
  with_error, perform-ok, wrapped-ok,
}

module _ (h : Host) where
  -- Made one behind the other, none of the calls returns an error.
  abbrev pub Accepted : History → List Call → Type 0
  Accepted w [] = Unit
  Accepted w (c ∷ cs) = (h.reply w c ≡ none) × Accepted (w ++ (c ∷ [])) cs

  -- From one history to another these calls are made, and none returns an error.
  abbrev pub Does : History → List Call → History → Type 0
  Does w cs w' = Accepted w cs × (w' ≡ w ++ cs)

  pub then-Does :
      (w v w' : History) (cs ds : List Call) → Does w cs v → Does v ds w' → Does w (cs ++ ds) w'
  then-Does w v w' [] ds (_, e) (fine, grown) =
      let same = e ∙ append-nil w in
      (subst (λ x. Accepted x ds) same fine, grown ∙ ap (λ x. x ++ ds) same)
  then-Does w v w' (c ∷ cs) ds ((taken, fine), e) next =
      let (rest, grown) =
        then-Does (w ++ (c ∷ [])) v w' cs ds (fine, e ∙ sym (append_assoc w (c ∷ []) cs)) next in
      ((taken, rest), grown ∙ append_assoc w (c ∷ []) (cs ++ ds))

  pub perform-Does : (c : Call) (w w' : History) → perform h c w ≡ (ok tt, w') → Does w (c ∷ []) w'
  perform-Does c w w' e = let (taken, grown) = perform-ok h c w w' e in ((taken, tt), grown)

  pub wrapped-Does :
      (f : Error → Error) (c : Call) (w w' : History)
      → with_error f (perform h c) w ≡ (ok tt, w')
      → Does w (c ∷ []) w'
  wrapped-Does f c w w' e = perform-Does c w w' (wrapped-ok f (perform h c w) tt w' e)

  pub when-Does :
      (b : Bool) (f : Error → Error) (c : Call) (w w' : History)
      → when b (with_error f (perform h c)) w ≡ (ok tt, w')
      → Does w (if b then c ∷ [] else []) w'
  when-Does true f c w w' e = wrapped-Does f c w w' e
  when-Does false f c w w' e = (tt, sym (ap (λ r. r.1) e) ∙ sym (append-nil w))

-- A function with a deferred call that succeeds
pub deferred-ok :
    {A : Type 0} (c : Call) (m : M A) (w v : History) (a : A)
    → deferred c m w ≡ (ok a, v)
    → (x : History) × (m w ≡ (ok a, x)) × (v ≡ x ++ (c ∷ []))
deferred-ok {A} c m w v a e = go (m w) refl
  where
    go :
        (r : Result A × History) → m w ≡ r → (x : History) × (m w ≡ (ok a, x)) × (v ≡ x ++ (c ∷ []))
    go (r, x) q =
        let e' : deferred_step c (r, x) ≡ (ok a, v) = ap (deferred_step c) (sym q) ∙ e in
        let same : r ≡ ok a = ap (λ p. p.0) e' in
        (x, q ∙ ap (λ y. (y, x)) same, sym (ap (λ p. p.1) e'))

value_or : {A : Type 0} → A → Result A → A
value_or a (ok b) = b
value_or a (err e) = a

pub return-ok : {A : Type 0} (a b : A) (w v : History) → return a w ≡ (ok b, v) → (a ≡ b) × (w ≡ v)
unfolding value_or
return-ok a b w v e = (ap (λ r. value_or a r.0) e, ap (λ r. r.1) e)

pub attempt-ok :
    {A : Type 0} (m : M A) (r : Result A) (w v : History) → attempt m w ≡ (ok r, v) → m w ≡ (r, v)
unfolding value_or
attempt-ok {A} m r w v e = go (m w) refl
  where
    go : (p : Result A × History) → m w ≡ p → m w ≡ (r, v)
    go (r', x) q =
        let e' : attempt_step (r', x) ≡ (ok r, v) = ap attempt_step (sym q) ∙ e in
        q ∙ ap (λ p. (value_or r p.0, p.1)) e'
