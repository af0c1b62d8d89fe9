-- ===== src/Base/Poll.antt =====
-- The polling loops of the source: `for { select { case <-ctx.Done(): return ctx.Err(); default: … } }`
-- with a body that returns or sleeps. What one round looks at is a function of the history.
use Prim.Native.Nat.{ℕ, zero, suc, ◌<◌}
use mathlib.Core.Path.{◌≡◌, refl}
use mathlib.Core.Logic.{inl, inr}
use mathlib.Core.Bool.{true, false}
use mathlib.Core.Option.{Option, none, some}
use mathlib.Core.List.{[], ◌∷◌, ◌++◌}
use native.Mathlib.Omega.{arith}
use lxcri.Base.Tests.{Bool-cases, Option-cases}
use lxcri.Base.Errors.{deadline_exceeded, out_of_fuel, Result, ok, err}
use lxcri.Base.Host.{Host, M, History, sleep}

module _ (h : Host) (ms : ℕ) (look : History → Option (Result (Unit {0}))) where
  unfoldable pub poll : ℕ → M (Unit {0})
  poll zero w = (err out_of_fuel, w)
  poll (suc fuel) w = elim (h.is_done w) [
    | true ↦ (err deadline_exceeded, w)
    | false ↦ elim (look w) [ some r ↦ (r, w) | none ↦ poll fuel (w ++ (sleep ms ∷ [])) ]
  ]

-- The history after `k` rounds that slept.
abbrev pub slept : ℕ → ℕ → History → History
slept ms zero w = w
slept ms (suc k) w = slept ms k (w ++ (sleep ms ∷ []))

module _ (h : Host) (ms : ℕ) (look : History → Option (Result (Unit {0}))) where
  -- How a loop ended that did not run out of rounds.
  pub data Ended (r : Result (Unit {0})) (w : History) : Type 0 where
    decided : h.is_done w ≡ false → look w ≡ some r → Ended r w
    expired : h.is_done w ≡ true → r ≡ err deadline_exceeded → Ended r w

  -- A loop with a round to spare before the context is done ends by a decision or by the deadline.
  pub poll-Ended :
      (fuel k : ℕ) (w : History)
      → k < fuel
      → h.is_done (slept ms k w) ≡ true
      → Ended (poll h ms look fuel w).0 (poll h ms look fuel w).1
  unfolding poll
  poll-Ended zero k w lt d = elim lt [ ]
  poll-Ended (suc fuel) k w lt d = elim (Bool-cases (h.is_done w)) [
    | inl now ↦ rw (now, poll) (expired now refl)
    | inr going ↦ elim (Option-cases (look w)) [
      | inr (r, seen) ↦ rw (going, seen, poll) (decided going seen)
      | inl nothing ↦ rw (going, nothing, poll) (later k lt d going (poll-Ended fuel))
    ]
  ]
    where
      later :
          (k : ℕ)
          → k < suc fuel
          → h.is_done (slept ms k w) ≡ true
          → h.is_done w ≡ false
          → ((k : ℕ) (w : History)
              → k < fuel
              → h.is_done (slept ms k w) ≡ true
              → Ended (poll h ms look fuel w).0 (poll h ms look fuel w).1)
          → let w₁ : History = w ++ (sleep ms ∷ []) in
            Ended (poll h ms look fuel w₁).0 (poll h ms look fuel w₁).1
      later zero lt d going ih = cc
      later (suc k) lt d going ih = ih k (w ++ (sleep ms ∷ [])) (omega arith) d

  -- A loop that returns no error has decided so.
  pub poll_ok :
      (fuel : ℕ) (w w' : History)
      → poll h ms look fuel w ≡ (ok tt, w')
      → (look w' ≡ some (ok tt)) × (h.is_done w' ≡ false)
  unfolding poll
  poll_ok zero w w' e = cc
  poll_ok (suc fuel) w w' e = elim (Bool-cases (h.is_done w)) [
    | inl now ↦ absurd (ground arith)
    | inr going ↦ elim (Option-cases (look w)) [
      | inr (r, seen) ↦ (ground arith, ground arith)
      | inl nothing ↦ poll_ok fuel (w ++ (sleep ms ∷ [])) w' (ground arith)
    ]
  ]

  -- A decision after `k` rounds is reached, if the context is not done until then.
  pub poll_reaches :
      (k fuel : ℕ) (w : History) (r : Result (Unit {0}))
      → k < fuel
      → ((j : ℕ) → j < suc k → h.is_done (slept ms j w) ≡ false)
      → ((j : ℕ) → j < k → look (slept ms j w) ≡ none)
      → look (slept ms k w) ≡ some r
      → poll h ms look fuel w ≡ (r, slept ms k w)
  unfolding poll
  poll_reaches k zero w r lt going nothing seen = elim lt [ ]
  poll_reaches zero (suc fuel) w r lt going nothing seen =
      rw (going 0 (omega arith), seen, poll) refl
  poll_reaches (suc k) (suc fuel) w r lt going nothing seen =
      rw (going 0 (omega arith), nothing 0 (omega arith), poll)
        (poll_reaches k fuel (w ++ (sleep ms ∷ [])) r (omega arith)
          (λ j lt'. going (suc j) (omega arith)) (λ j lt'. nothing (suc j) (omega arith)) seen)

  -- The history grows by sleeps only.
  pub poll-slept : (fuel : ℕ) (w : History) → (k : ℕ) × ((poll h ms look fuel w).1 ≡ slept ms k w)
  unfolding poll
  poll-slept zero w = (0, refl)
  poll-slept (suc fuel) w = elim (Bool-cases (h.is_done w)) [
    | inl now ↦ (0, rw (now, poll) refl)
    | inr going ↦ elim (Option-cases (look w)) [
      | inr (r, seen) ↦ (0, rw (going, seen, poll) refl)
      | inl nothing ↦
          let (k, e) = poll-slept fuel (w ++ (sleep ms ∷ [])) in
          (suc k, rw (going, nothing, poll) e)
    ]
  ]
