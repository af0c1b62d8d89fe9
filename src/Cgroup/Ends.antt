-- ===== src/Cgroup/Ends.antt =====
-- The kinds of errors of `killCgroup`, `pollCgroupEvents` and `deleteCgroup`.
use lxcri.Base.{
  ℕ, zero, suc, String, ◌≡◌, refl, sym, ◌∙◌, ap, Bool, true, false, not, ◌&&◌, ◌||◌, Option, none,
  some, List, [], ◌∷◌, ◌==◌, split, trim_space, if◌then◌else◌, Error, Result, ok, err, All,
  Bool-cases, inl, inr,
}
use lxcri.Base.Host.{
  Host, M, History, open_write, write_text, remove_dir, perform, query_result, query, when, return,
  ◌>>=◌, ◌>>◌,
}
use lxcri.Base.Free.{bad_of, IsForeign, Free, >>=-Free, then-Free, when-Free, perform-Free}
use lxcri.Base.Int.{ℤ}
use lxcri.Base.FilePath.{join_path}
use lxcri.Cgroup.Events.{
  CgroupEvents, map_events, parse_cgroup_events, look_events, poll_cgroup_events, cgroup_freeze,
}
use lxcri.Cgroup.Kill.{kill_text, visit, visit_all, kill_frozen, kill_cgroup}
use lxcri.Cgroup.Killed.{kill_pids_lem}
use lxcri.Cgroup.Delete.{delete_entries, delete_cgroup_recursive}

module _ {h : Host} {bad : Error → Bool} {fuel : ℕ} (f : IsForeign h bad fuel) where
  pub parsed-good :
      (filename : String) (w : History) → bad_of bad (parse_cgroup_events h filename w) ≡ false
  unfolding parse_cgroup_events
  parsed-good filename w = go (h.read_file w filename) (f.read_file w filename)
    where
      go : (r : Result String) → bad_of bad r ≡ false → bad_of bad (map_events r) ≡ false
      go (ok text) e = refl
      go (err x) e = e

  look_events-good :
      (filename : String) (test : CgroupEvents → Bool) (v : History) (r : Result (Unit {0}))
      → look_events h filename test v ≡ some r
      → bad_of bad r ≡ false
  unfolding look_events
  look_events-good filename test v r e =
      go (parse_cgroup_events h filename v) refl (parsed-good filename v)
    where
      of_some : Result (Unit {0}) → Option (Result (Unit {0})) → Result (Unit {0})
      of_some d none = d
      of_some d (some x) = x

      go :
          (p : Result CgroupEvents)
          → parse_cgroup_events h filename v ≡ p
          → bad_of bad p ≡ false
          → bad_of bad r ≡ false
      go (err x) q g =
          let seen : look_events h filename test v ≡ some (err x) = rw (q, look_events) refl in
          ap (λ o. bad_of bad (of_some r o)) (sym e ∙ seen) ∙ g
      go (ok ev) q g = elim (Bool-cases (test ev)) [
        | inl true_now ↦
            let seen : look_events h filename test v ≡ some (ok tt) =
              rw (q, true_now, look_events) refl in
            ap (λ o. bad_of bad (of_some r o)) (sym e ∙ seen)
        | inr not_yet ↦
            let seen : look_events h filename test v ≡ none = rw (q, not_yet, look_events) refl in
            absurd cc
      ]

  pub poll_cgroup_events-Free :
      (filename : String) (test : CgroupEvents → Bool)
      → Free bad (poll_cgroup_events h filename test fuel)
  unfolding poll_cgroup_events
  poll_cgroup_events-Free filename test w =
      f.poll 5 (look_events h filename test) w (look_events-good filename test)

  cgroup_freeze-Free :
      (filename : String) (freeze : Bool) → Free bad (cgroup_freeze h filename freeze)
  unfolding cgroup_freeze
  cgroup_freeze-Free filename freeze =
      let fill = perform h (write_text filename (if freeze then "1" else "0")) in
      then-Free bad (perform h (open_write filename)) fill (perform-Free f _) (perform-Free f _)

  module _ (monitor sig : ℤ) where
    kill_text-Free : (text : String) → Free bad (kill_text h monitor sig text)
    unfolding kill_text
    kill_text-Free text w = elim (Bool-cases (text == "")) [
      | inl empty ↦ rw (empty, kill_text) refl
      | inr given ↦
          rw (given, kill_text)
            (ap (λ r. bad_of bad r.0) (kill_pids_lem h monitor sig (split 10 text) w))
    ]

    visit-Free :
        (path : String) (info : Result String)
        → bad_of bad info ≡ false
        → Free bad (visit h monitor sig path info)
    unfolding visit
    visit-Free path (err e) q = λ w. q
    visit-Free path (ok name) q = elim (Bool-cases (name == "cgroup.procs")) [
      | inr other ↦ λ w. rw (other, visit) refl
      | inl procs ↦ λ w.
          rw (procs, visit)
            (>>=-Free bad (query_result (λ v. h.read_file v path))
              (λ text. kill_text h monitor sig (trim_space text)) (λ v. f.read_file v path)
              (λ text. kill_text-Free (trim_space text)) w)
    ]

    visit_all-Free :
        (visits : List (String × Result String))
        → All (λ visit. bad_of bad visit.1 ≡ false) visits
        → Free bad (visit_all h monitor sig visits)
    unfolding visit_all
    visit_all-Free [] a = λ w. refl
    visit_all-Free ((path, info) ∷ visits) (q, a) =
        then-Free bad (visit h monitor sig path info) (visit_all h monitor sig visits)
          (visit-Free path info q) (visit_all-Free visits a)

    kill_frozen-Free : (root_dir : String) → Free bad (kill_frozen h monitor sig root_dir fuel)
    unfolding kill_frozen
    kill_frozen-Free root_dir =
        let freezer = join_path (root_dir ∷ "cgroup.freeze" ∷ []) in
        let thaw = cgroup_freeze h freezer false in
        let wait_frozen =
          poll_cgroup_events h (join_path (root_dir ∷ "cgroup.events" ∷ [])) (λ ev. ev.frozen)
            fuel in
        let walk_all =
          query (λ w. h.walk w root_dir) >>= (λ visits. visit_all h monitor sig visits >> thaw) in
        then-Free bad (cgroup_freeze h freezer true) (wait_frozen >> walk_all)
          (cgroup_freeze-Free freezer true)
          (then-Free bad wait_frozen walk_all (poll_cgroup_events-Free _ (λ ev. ev.frozen)) (λ w.
            then-Free bad (visit_all h monitor sig (h.walk w root_dir)) thaw
              (visit_all-Free (h.walk w root_dir) (f.walk w root_dir))
              (cgroup_freeze-Free freezer false) w))

    pub kill_cgroup-Free :
        (cgroup_root cgroup_dir : String)
        → Free bad (kill_cgroup h cgroup_root cgroup_dir monitor sig fuel)
    unfolding kill_cgroup
    kill_cgroup-Free cgroup_root cgroup_dir w = elim (Bool-cases (cgroup_dir == "")) [
      | inl unset ↦ rw (unset, kill_cgroup) refl
      | inr set ↦
          let root_dir = join_path (cgroup_root ∷ cgroup_dir ∷ []) in
          let kill_all : CgroupEvents → M (Unit {0}) = λ ev. elim ev.populated [
            | false ↦ return tt
            | true ↦ kill_frozen h monitor sig root_dir fuel
          ] in
          rw (set, kill_cgroup)
            (>>=-Free bad
              (query_result (parse_cgroup_events h (join_path (root_dir ∷ "cgroup.events" ∷ []))))
              kill_all (parsed-good (join_path (root_dir ∷ "cgroup.events" ∷ [])))
              (λ ev v. kill_if ev.populated root_dir v) w)
    ]
      where
        kill_if :
            (b : Bool) (root_dir : String)
            → Free bad
                (elim b [ false ↦ return tt | true ↦ kill_frozen h monitor sig root_dir fuel ])
        kill_if true root_dir = kill_frozen-Free root_dir
        kill_if false root_dir = λ v. refl

  module _ (cgroup_root : String) where
    delete_entries-Free :
        (delete_child : String → M (Unit {0})) (cgroup_name : String)
        (entries : List (String × Bool))
        → ((name : String) → Free bad (delete_child name))
        → Free bad (delete_entries h cgroup_root delete_child cgroup_name entries)
    delete_entries-Free delete_child cgroup_name [] s = λ w. refl
    delete_entries-Free delete_child cgroup_name ((name, is_dir) ∷ entries) s =
        let child = delete_child (join_path (cgroup_name ∷ name ∷ [])) in
        then-Free bad (when (is_dir && not (name == "." || name == "..")) child)
          (delete_entries h cgroup_root delete_child cgroup_name entries)
          (when-Free bad _ child (s (join_path (cgroup_name ∷ name ∷ []))))
          (delete_entries-Free delete_child cgroup_name entries s)

    pub delete_cgroup-Free :
        (left : ℕ) (cgroup_name : String)
        → Free bad (delete_cgroup_recursive h cgroup_root left cgroup_name)
    unfolding delete_cgroup_recursive
    delete_cgroup-Free zero cgroup_name = λ w. f.message "reached max recursion of 10"
    delete_cgroup-Free (suc left) cgroup_name =
        let path = join_path (cgroup_root ∷ cgroup_name ∷ []) in
        let children = delete_cgroup_recursive h cgroup_root left in
        let clear : List (String × Bool) → M (Unit {0}) = λ entries.
          delete_entries h cgroup_root children cgroup_name entries
          >> perform h (remove_dir path) in
        >>=-Free bad (query_result (λ w. h.read_dir w path)) clear (λ w. f.read_dir w path)
          (λ entries.
            then-Free bad (delete_entries h cgroup_root children cgroup_name entries)
              (perform h (remove_dir path))
              (delete_entries-Free children cgroup_name entries (delete_cgroup-Free left))
              (perform-Free f (remove_dir path)))
