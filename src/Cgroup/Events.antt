-- ===== src/Cgroup/Events.antt =====
-- `parseCgroupEvents`, `pollCgroupEvents`, `cgroupFreeze`, `checkCgroup` and `getProcessCgroup` of
-- cgroup.go.
use lxcri.Base.{
  ℕ, String, ◌≡◌, refl, Bool, true, false, not, Option, none, some, List, [], ◌∷◌, ◌==◌, ◌<>◌,
  split, if◌then◌else◌, failed, wrapped, Result, ok, err, is_not_exist, arith,
}
use lxcri.Base.Host.{
  Host, M, History, open_write, write_text, perform, query_result, throw_if, ◌>>=◌, ◌>>◌, attempt,
}
use lxcri.Base.FilePath.{join_path}
use lxcri.Base.Poll.{poll}

pub record CgroupEvents : Type 0 where
  pub frozen : Bool
  pub populated : Bool

abbrev read_line : CgroupEvents → String → CgroupEvents
read_line ev line =
    if line == "populated 0"
    then record ev { populated = false }
    else if line == "populated 1"
    then record ev { populated = true }
    else if line == "frozen 0"
    then record ev { frozen = false }
    else if line == "frozen 1"
    then record ev { frozen = true }
    else ev

unfoldable pub read_lines : CgroupEvents → List String → CgroupEvents
read_lines ev [] = ev
read_lines ev (line ∷ lines) = read_lines (read_line ev line) lines

-- The text of a cgroup.events file
unfoldable pub events_of : String → CgroupEvents
unfolding read_lines
events_of text = read_lines (record { frozen = false; populated = false }) (split 10 text)

abbrev pub map_events : Result String → Result CgroupEvents
map_events (ok text) = ok (events_of text)
map_events (err e) = err e

-- `parseCgroupEvents`
unfoldable pub parse_cgroup_events : Host → String → History → Result CgroupEvents
parse_cgroup_events h filename w = map_events (h.read_file w filename)

-- One round of `pollCgroupEvents`
unfoldable pub look_events :
    Host → String → (CgroupEvents → Bool) → History → Option (Result (Unit {0}))
look_events h filename test w = elim (parse_cgroup_events h filename w) [
  | err e ↦ some (err e)
  | ok ev ↦ if test ev then some (ok tt) else none
]

-- `pollCgroupEvents`
unfoldable pub poll_cgroup_events : Host → String → (CgroupEvents → Bool) → ℕ → M (Unit {0})
poll_cgroup_events h filename test = poll h 5 (look_events h filename test)

-- `cgroupFreeze`
unfoldable pub cgroup_freeze : Host → String → Bool → M (Unit {0})
cgroup_freeze h filename freeze = do
  perform h (open_write filename)
  perform h (write_text filename (if freeze then "1" else "0"))

unfoldable pub judge : String → Result CgroupEvents → M (Unit {0})
judge cgroup_dir (err e) =
    throw_if (not (is_not_exist e)) (wrapped "failed to parse cgroup events" e)
judge cgroup_dir (ok ev) =
    throw_if ev.populated (failed ("container cgroup " <> cgroup_dir <> " is not empty"))

-- `checkCgroup`
unfoldable pub check_cgroup : Host → String → String → M (Unit {0})
unfolding judge
check_cgroup h cgroup_root cgroup_dir = do
  ev ← attempt (
      query_result
        (parse_cgroup_events h (join_path (cgroup_root ∷ cgroup_dir ∷ "cgroup.events" ∷ []))))
  judge cgroup_dir ev

events_test : events_of "populated 1\nfrozen 0\n" ≡ record { frozen = false; populated = true }
unfolding events_of
events_test = refl

-- The events file does not exist, or it does not say that the cgroup is populated.
abbrev pub IsVacant : Result CgroupEvents → Type 0
IsVacant (err e) = is_not_exist e ≡ true
IsVacant (ok ev) = ev.populated ≡ false

judge-IsVacant :
    (cgroup_dir : String) (r : Result CgroupEvents) (w : History)
    → ((judge cgroup_dir r w).1 ≡ w)
      × ((judge cgroup_dir r w).0 ≡ ok tt → IsVacant r)
      × (IsVacant r → (judge cgroup_dir r w).0 ≡ ok tt)
unfolding judge
judge-IsVacant cgroup_dir (err e) w = (ground arith, λ p. ground arith, λ q. ground arith)
judge-IsVacant cgroup_dir (ok ev) w = (ground arith, λ p. ground arith, λ q. ground arith)

-- `checkCgroup` changes nothing, and succeeds exactly if the events file of the cgroup does not exist,
-- or can be read and does not say that the cgroup is populated.
pub check_cgroup_iff :
    (h : Host) (root cgroup_dir : String) (w : History)
    → let events = parse_cgroup_events h (join_path (root ∷ cgroup_dir ∷ "cgroup.events" ∷ [])) w in
      ((check_cgroup h root cgroup_dir w).1 ≡ w)
      × ((check_cgroup h root cgroup_dir w).0 ≡ ok tt → IsVacant events)
      × (IsVacant events → (check_cgroup h root cgroup_dir w).0 ≡ ok tt)
unfolding check_cgroup
check_cgroup_iff h root cgroup_dir w =
    judge-IsVacant cgroup_dir
      (parse_cgroup_events h (join_path (root ∷ cgroup_dir ∷ "cgroup.events" ∷ [])) w) w
