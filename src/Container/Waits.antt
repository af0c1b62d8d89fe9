-- ===== src/Container/Waits.antt =====
-- What the waiting loops establish. Their rounds are given as fuel; a context that expires within them
-- is enough for each loop to end.
use lxcri.Base.{
  ℕ, suc, ◌<◌, ◌≡◌, ◌≢◌, sym, ◌∙◌, ap, true, false, Option, some, Result, ok, err, arith,
  out_of_fuel, ◌⊎◌, inl, inr, Bool-cases,
}
use lxcri.Base.Host.{Host, History, LxcState}
use lxcri.Base.Poll.{poll, poll_ok, poll-Ended, Ended, decided, expired, slept, poll_reaches}
use lxcri.Oci.{ContainerState}
use lxcri.Container.State.{state, get_container_init_state, container_state}
use lxcri.Container.Wait.{
  is_monitor_running, look_stopped, wait_monitor_stopped, look_created, wait_created, is_running,
  is_created, look_started, wait_started,
}

running_state :
    (h : Host) (w : History)
    → is_running (h.lxc_state w) ≡ true
    → container_state h w ≡ ok (get_container_init_state h w)
unfolding container_state state
running_state h w e = ground arith

created_lem : (s : ContainerState) → is_created s ≡ true → s ≡ ContainerState.created
created_lem s e = ground arith

created_facts :
    (h : Host) (pid : ℕ) (w : History)
    → look_created h pid w ≡ some (ok tt)
    → (is_monitor_running h pid w ≡ true) × (container_state h w ≡ ok ContainerState.created)
unfolding look_created
created_facts h pid w e = (
  ground arith,
  running_state h w (ground arith)
      ∙ ap ok (created_lem (get_container_init_state h w) (ground arith)),
)

-- `waitCreated` succeeds only when the monitor runs and the container is in the state `created`.
pub wait_created_sound :
    (h : Host) (pid fuel : ℕ) (w w' : History)
    → wait_created h pid fuel w ≡ (ok tt, w')
    → (is_monitor_running h pid w' ≡ true) × (container_state h w' ≡ ok ContainerState.created)
unfolding wait_created
wait_created_sound h pid fuel w w' e =
    created_facts h pid w' (poll_ok h 100 (look_created h pid) fuel w w' e).0

-- `waitCreated` succeeds after k sleeps if by then the container runs and its init process waits, the
-- monitor has lived all the time, the context was not done, and liblxc did not report the container
-- as running before.
pub wait_created_reaches :
    (h : Host) (pid k fuel : ℕ) (w : History)
    → k < fuel
    → ((j : ℕ) → j < suc k → h.is_done (slept 100 j w) ≡ false)
    → ((j : ℕ) → j < suc k → is_monitor_running h pid (slept 100 j w) ≡ true)
    → ((j : ℕ) → j < k → is_running (h.lxc_state (slept 100 j w)) ≡ false)
    → h.lxc_state (slept 100 k w) ≡ LxcState.running
    → container_state h (slept 100 k w) ≡ ok ContainerState.created
    → wait_created h pid fuel w ≡ (ok tt, slept 100 k w)
unfolding wait_created look_created container_state state
wait_created_reaches h pid k fuel w lt going lives waiting runs created =
    poll_reaches h 100 (look_created h pid) k fuel w (ok tt) lt going
      (λ j lt'. ground (arith, lives j (omega arith), waiting j lt'))
      (ground (arith, lives k (omega arith)))

-- `waitStarted` succeeds only when the monitor is gone or the init process is no longer lxcri-init.
wait_started_sound :
    (h : Host) (pid fuel : ℕ) (w w' : History)
    → wait_started h pid fuel w ≡ (ok tt, w')
    → (is_monitor_running h pid w' ≡ false)
      ⊎ (get_container_init_state h w' ≢ ContainerState.created)
unfolding wait_started
wait_started_sound h pid fuel w w' e = facts (poll_ok h 10 (look_started h pid) fuel w w' e).0
  where
    facts :
        look_started h pid w' ≡ some (ok tt)
        → (is_monitor_running h pid w' ≡ false)
          ⊎ (get_container_init_state h w' ≢ ContainerState.created)
    facts seen = elim (Bool-cases (is_monitor_running h pid w')) [
      | inr gone ↦ inl gone
      | inl lives ↦ inr (λ p. ground arith)
    ]

-- `waitMonitorStopped` succeeds only when the monitor does not run.
wait_monitor_stopped_sound :
    (h : Host) (pid fuel : ℕ) (w w' : History)
    → wait_monitor_stopped h pid fuel w ≡ (ok tt, w')
    → is_monitor_running h pid w' ≡ false
unfolding wait_monitor_stopped
wait_monitor_stopped_sound h pid fuel w w' e =
    facts (poll_ok h 100 (look_stopped h pid) fuel w w' e).0
  where
    facts : look_stopped h pid w' ≡ some (ok tt) → is_monitor_running h pid w' ≡ false
    facts seen = ground arith

ended_in_time :
    (h : Host) (ms : ℕ) (look : History → Option (Result (Unit {0}))) (fuel k : ℕ) (w : History)
    → ((v : History) → look v ≢ some (err out_of_fuel))
    → k < fuel
    → h.is_done (slept ms k w) ≡ true
    → (poll h ms look fuel w).0 ≢ err out_of_fuel
ended_in_time h ms look fuel k w never lt d =
    go (poll h ms look fuel w).0 (poll h ms look fuel w).1 (poll-Ended h ms look fuel k w lt d)
  where
    go : (r : Result (Unit {0})) (v : History) → Ended h ms look r v → r ≢ err out_of_fuel
    go r v (decided going seen) e = never v (seen ∙ ap some e)
    go r v (expired now late) e = let f = sym late ∙ e in cc

-- Each of the three loops ends: if the context is done after k sleeps, then k + 1 rounds suffice, from
-- any history and whatever the host shows.
waits_end :
    (h : Host) (pid fuel k : ℕ) (w : History)
    → k < fuel
    → (h.is_done (slept 100 k w) ≡ true → (wait_created h pid fuel w).0 ≢ err out_of_fuel)
      × (h.is_done (slept 10 k w) ≡ true → (wait_started h pid fuel w).0 ≢ err out_of_fuel)
      × (h.is_done (slept 100 k w) ≡ true → (wait_monitor_stopped h pid fuel w).0 ≢ err out_of_fuel)
unfolding wait_created wait_started wait_monitor_stopped
waits_end h pid fuel k w lt = (
  ended_in_time h 100 (look_created h pid) fuel k w (λ v e. ground arith) lt,
  ended_in_time h 10 (look_started h pid) fuel k w (λ v e. ground arith) lt,
  ended_in_time h 100 (look_stopped h pid) fuel k w (λ v e. ground arith) lt,
)
