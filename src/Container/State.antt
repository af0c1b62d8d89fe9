-- ===== src/Container/State.antt =====
-- The OCI state of a container: `state` and `getContainerInitState` of container.go.
use Prim.Native.Char.{nul}
use lxcri.Base.{
  ℕ, String, ◌≡◌, refl, ◌<>◌, ◌==◌, ltb, decimal, if◌then◌else◌, Error, failed, Result, ok, err,
  arith, ◌∙◌, ap, sym, eq_iff, eq_refl, Bool-cases, inl, inr, ◌≤◌, ◌<◌, ◌≢◌,
}
use mathlib.Core.Path.{subst}
use lxcri.Base.Host.{Host, History, LxcState}
use lxcri.Oci.{ContainerState}

-- The command line of `lxcri-init` before it executes the container process.
abbrev pub init_cmdline : String
init_cmdline = "/.lxcri/lxcri-init" <> String.◌∷◌ nul ""

unfoldable pub cmdline_path : ℕ → String
cmdline_path pid = "/proc/" <> decimal pid <> "/cmdline"

-- What the contents of the file, or the failure to read it, say of the init process.
abbrev of_cmdline : Result String → ContainerState
of_cmdline (ok cmdline) =
    if cmdline == init_cmdline then ContainerState.created else ContainerState.running
of_cmdline (err e) = ContainerState.stopped

-- `getContainerInitState`, which returns no error
unfoldable pub get_container_init_state : Host → History → ContainerState
get_container_init_state h w =
    if ltb (h.init_pid w) 1
    then ContainerState.stopped
    else of_cmdline (h.read_file w (cmdline_path (h.init_pid w)))

-- `state`
unfoldable pub state : Host → LxcState → History → Result ContainerState
state h LxcState.stopped w = ok ContainerState.stopped
state h LxcState.starting w = ok ContainerState.creating
state h LxcState.running w = ok (get_container_init_state h w)
state h LxcState.stopping w = ok (get_container_init_state h w)
state h LxcState.aborting w = ok (get_container_init_state h w)
state h LxcState.freezing w = ok (get_container_init_state h w)
state h LxcState.frozen w = ok (get_container_init_state h w)
state h LxcState.thawed w = ok (get_container_init_state h w)
state h (LxcState.other_state s) w = err (failed ("unsupported lxc container state " <> decimal s))

-- `ContainerState`
unfoldable pub container_state : Host → History → Result ContainerState
container_state h w = state h (h.lxc_state w) w

-- The lxc states in which the init process decides.
abbrev IsActive : LxcState → Type 0
IsActive LxcState.stopped = ⊥
IsActive LxcState.starting = ⊥
IsActive (LxcState.other_state s) = ⊥
IsActive _ = Unit

-- The state as the host shows it, by cases.
pub data Shows (h : Host) (w : History) : ContainerState → Type 0 where
  lxc_stopped : h.lxc_state w ≡ LxcState.stopped → Shows h w ContainerState.stopped
  lxc_starting : h.lxc_state w ≡ LxcState.starting → Shows h w ContainerState.creating
  no_init : IsActive (h.lxc_state w) → h.init_pid w < 1 → Shows h w ContainerState.stopped
  unreadable :
      {e : Error}
      → IsActive (h.lxc_state w)
      → 1 ≤ h.init_pid w
      → h.read_file w (cmdline_path (h.init_pid w)) ≡ err e
      → Shows h w ContainerState.stopped
  waits :
      IsActive (h.lxc_state w)
      → 1 ≤ h.init_pid w
      → h.read_file w (cmdline_path (h.init_pid w)) ≡ ok init_cmdline
      → Shows h w ContainerState.created
  executes :
      {cmdline : String}
      → IsActive (h.lxc_state w)
      → 1 ≤ h.init_pid w
      → h.read_file w (cmdline_path (h.init_pid w)) ≡ ok cmdline
      → cmdline ≢ init_cmdline
      → Shows h w ContainerState.running

active_state :
    (h : Host) (s : LxcState) (w : History)
    → IsActive s
    → state h s w ≡ ok (get_container_init_state h w)
unfolding state
active_state h LxcState.stopped w a = absurd a
active_state h LxcState.starting w a = absurd a
active_state h (LxcState.other_state s) w a = absurd a
active_state h _ w a = refl

init_state-Shows :
    (h : Host) (w : History) → IsActive (h.lxc_state w) → Shows h w (get_container_init_state h w)
unfolding get_container_init_state
init_state-Shows h w a = elim (Bool-cases (ltb (h.init_pid w) 1)) [
  | inl none_lives ↦ rw (none_lives, get_container_init_state) (no_init a (ground arith))
  | inr lives ↦
      rw (lives, get_container_init_state)
        (read_shows (ground arith) (h.read_file w (cmdline_path (h.init_pid w))) refl)
]
  where
    read_shows :
        1 ≤ h.init_pid w
        → (r : Result String) → h.read_file w (cmdline_path (h.init_pid w)) ≡ r
        → Shows h w (of_cmdline (h.read_file w (cmdline_path (h.init_pid w))))
    read_shows lives (err x) e = rw (e, of_cmdline) (unreadable a lives e)
    read_shows lives (ok cmdline) e = elim (Bool-cases (cmdline == init_cmdline)) [
      | inl same ↦
          rw (e, of_cmdline)
            (rw same (waits a lives (e ∙ ap ok ((eq_iff cmdline init_cmdline).0 same))))
      | inr differ ↦
          rw (e, of_cmdline)
            (rw differ (executes a lives e (λ p. ground (arith, eq_iff cmdline init_cmdline))))
    ]

state-Shows :
    (h : Host) (s : LxcState) (w : History) {t : ContainerState}
    → h.lxc_state w ≡ s
    → state h s w ≡ ok t
    → Shows h w t
unfolding state
state-Shows h LxcState.stopped w p e = subst (Shows h w) (cc) (lxc_stopped p)
state-Shows h LxcState.starting w p e = subst (Shows h w) (cc) (lxc_starting p)
state-Shows h (LxcState.other_state s) w p e = cc
state-Shows h _ w p e = subst (Shows h w) (cc) (init_state-Shows h w (subst IsActive (sym p) tt))

Shows-state :
    (h : Host) (w : History) {t : ContainerState} → Shows h w t → state h (h.lxc_state w) w ≡ ok t
unfolding get_container_init_state
Shows-state h w (lxc_stopped p) = rw p (unfold state in refl)
Shows-state h w (lxc_starting p) = rw p (unfold state in refl)
Shows-state h w (no_init a dead) = active_state h _ w a ∙ ap ok (ground arith)
Shows-state h w (unreadable a lives e) = active_state h _ w a ∙ ap ok (ground arith)
Shows-state h w (waits a lives e) =
    active_state h _ w a ∙ ap ok (ground (arith, eq_refl init_cmdline))
Shows-state h w (executes {cmdline} a lives e differ) =
    active_state h _ w a ∙ ap ok (ground (arith, eq_iff cmdline init_cmdline))

-- `ContainerState` returns a state exactly if the host shows it: stopped or creating by the word of
-- liblxc; in every other known lxc state, stopped if there is no init process or its command line
-- cannot be read, created if that is the one of lxcri-init, and running if it is another.
pub container_state_iff :
    (h : Host) (w : History) (t : ContainerState)
    → (container_state h w ≡ ok t → Shows h w t) × (Shows h w t → container_state h w ≡ ok t)
unfolding container_state
container_state_iff h w t = (state-Shows h (h.lxc_state w) w refl, Shows-state h w)
