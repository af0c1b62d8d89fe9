-- ===== src/Cgroup/Kill.antt =====
-- `killCgroup` of cgroup.go. A log line for a failed signal or a PID that cannot be read is left out.
use lxcri.Base.{
  ℕ, String, true, false, none, some, List, [], ◌∷◌, ◌==◌, split, trim_space, if◌then◌else◌, Result,
  ok, err,
}
use lxcri.Base.Host.{
  Host, M, send_signal, query_result, query, throw, return, ◌>>=◌, ◌>>◌, record_call,
}
use lxcri.Base.Int.{ℤ, atoi, eq_ℤ}
use lxcri.Base.FilePath.{join_path}
use lxcri.Cgroup.Events.{parse_cgroup_events, cgroup_freeze, poll_cgroup_events}

module _ (h : Host) (monitor : ℤ) (sig : ℤ) where
  -- The loop over the lines of one cgroup.procs file. The outcome of kill(2) is only logged.
  unfoldable pub kill_pids : List String → M (Unit {0})
  kill_pids [] = return tt
  kill_pids (line ∷ lines) = elim (atoi line) [
    | none ↦ kill_pids lines
    | some pid ↦ elim (eq_ℤ pid monitor) [
      | true ↦ kill_pids lines
      | false ↦ do record_call (send_signal pid sig); kill_pids lines
    ]
  ]

  -- The text of a cgroup.procs file
  unfoldable pub kill_text : String → M (Unit {0})
  kill_text text = if text == "" then return tt else kill_pids (split 10 text)

  -- What the callback of filepath.Walk does at one path
  unfoldable pub visit : String → Result String → M (Unit {0})
  visit path (err e) = throw e
  visit path (ok name) = elim (name == "cgroup.procs") [
    | false ↦ return tt
    | true ↦ do text ← query_result (λ w. h.read_file w path); kill_text (trim_space text)
  ]

  unfoldable pub visit_all : List (String × Result String) → M (Unit {0})
  visit_all [] = return tt
  visit_all ((path, info) ∷ visits) = do visit path info; visit_all visits

-- The part of `killCgroup` behind the test for a populated cgroup
unfoldable pub kill_frozen : Host → ℤ → ℤ → String → ℕ → M (Unit {0})
kill_frozen h monitor sig root_dir fuel = do
  let freezer = join_path (root_dir ∷ "cgroup.freeze" ∷ [])
  cgroup_freeze h freezer true
  poll_cgroup_events h (join_path (root_dir ∷ "cgroup.events" ∷ [])) (λ ev. ev.frozen) fuel
  visits ← query (λ w. h.walk w root_dir)
  visit_all h monitor sig visits
  cgroup_freeze h freezer false

-- `killCgroup`, for the cgroup directory and the PID of the monitor of a container
unfoldable pub kill_cgroup : Host → String → String → ℤ → ℤ → ℕ → M (Unit {0})
kill_cgroup h cgroup_root cgroup_dir monitor sig fuel = elim (cgroup_dir == "") [
  | true ↦ return tt
  | false ↦ do
    let root_dir = join_path (cgroup_root ∷ cgroup_dir ∷ [])
    ev ← query_result (parse_cgroup_events h (join_path (root_dir ∷ "cgroup.events" ∷ [])))
    elim ev.populated [ false ↦ return tt | true ↦ kill_frozen h monitor sig root_dir fuel ]
]
