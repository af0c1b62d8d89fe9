-- ===== src/Cgroup/Deleted.antt =====
-- `deleteCgroup` on a tree of cgroups: what is removed, in which order, and up to which depth.
use lxcri.Base.{
  ℕ, max, zero, suc, ◌≤◌, ◌<◌, String, ◌≡◌, refl, ◌∙◌, Bool, true, false, ◌||◌, List, [], ◌∷◌, ◌++◌,
  append_assoc, append-nil, ◌==◌, Result, ok, err, is_ok, leb, Bool-cases, inl, inr, arith,
}
use lxcri.Base.Host.{Host, M, Call, History, remove_dir, IsCompliant, bind_step}
use lxcri.Base.FilePath.{join_path}
use lxcri.Cgroup.Delete.{delete_entries, delete_cgroup_recursive, delete_cgroup}

-- A cgroup with its entries: control files, and child groups by their names.
mutual
  pub data Group : Type 0 where
    group : Entries → Group

  pub data Entries : Type 0 where
    end : Entries
    file : String → Entries → Entries
    child : String → Group → Entries → Entries

-- The listing that the kernel gives for the entries.
abbrev pub listing : Entries → List (String × Bool)
listing end = []
listing (file name es) = (name, false) ∷ listing es
listing (child name g es) = (name, true) ∷ listing es

abbrev child_name : String → String → String
child_name parent name = join_path (parent ∷ name ∷ [])

mutual
  -- The number of levels.
  pub height : Group → ℕ
  height (group es) = suc (height_below es)

  height_below : Entries → ℕ
  height_below end = 0
  height_below (file name es) = height_below es
  height_below (child name g es) = max (height g) (height_below es)

module _ (h : Host) (root : String) where
  abbrev pub directory : String → String
  directory name = join_path (root ∷ name ∷ [])

  mutual
    -- The removals of a group and all below it, each child before its parent.
    pub removals : String → Group → List Call
    removals name (group es) = removals_below name es ++ (remove_dir (directory name) ∷ [])

    removals_below : String → Entries → List Call
    removals_below name end = []
    removals_below name (file _ es) = removals_below name es
    removals_below name (child n g es) = removals (child_name name n) g ++ removals_below name es

  unfoldable mutual
    -- The host lists the group and all below it as they are, at all times.
    pub Mirrors : String → Group → Type 0
    Mirrors name (group es) =
        ((w : History) → h.read_dir w (directory name) ≡ ok (listing es)) × MirrorsBelow name es

    pub MirrorsBelow : String → Entries → Type 0
    MirrorsBelow name end = Unit
    MirrorsBelow name (file _ es) = MirrorsBelow name es
    MirrorsBelow name (child n g es) =
        ((n == "." || n == "..") ≡ false) × Mirrors (child_name name n) g × MirrorsBelow name es

  group_step :
      (es : Entries) (left : ℕ) (name : String) (w w₁ : History)
      → IsCompliant h
      → h.read_dir w (directory name) ≡ ok (listing es)
      → delete_entries h root (delete_cgroup_recursive h root left) name (listing es) w
        ≡ (ok tt, w₁)
      → delete_cgroup_recursive h root (suc left) name w
        ≡ (ok tt, w₁ ++ (remove_dir (directory name) ∷ []))
  unfolding delete_cgroup_recursive
  group_step es left name w w₁ quiet listed below =
      rw (listed, below, quiet w₁ _, delete_cgroup_recursive) refl

  child_step :
      (f : String → M (Unit {0})) (name n : String) (es : List (String × Bool)) (w : History)
      → (n == "." || n == "..") ≡ false
      → delete_entries h root f name ((n, true) ∷ es) w
        ≡ bind_step (f (child_name name n) w) (λ _. delete_entries h root f name es)
  child_step f name n es w proper = rw proper refl

  mutual
    unfolding height removals Mirrors

    delete_removes :
        (g : Group) (left : ℕ) (name : String) (w : History)
        → IsCompliant h
        → height g ≤ left
        → Mirrors name g
        → delete_cgroup_recursive h root left name w ≡ (ok tt, w ++ removals name g)
    delete_removes (group es) zero name w quiet fits m = absurd (omega arith)
    delete_removes (group es) (suc left) name w quiet fits (listed, below) =
        group_step es left name w _ quiet (listed w)
          (delete_removes_below es left name w quiet (omega arith) below)
        ∙ simp append_assoc

    delete_removes_below :
        (es : Entries) (left : ℕ) (name : String) (w : History)
        → IsCompliant h
        → height_below es ≤ left
        → MirrorsBelow name es
        → delete_entries h root (delete_cgroup_recursive h root left) name (listing es) w
          ≡ (ok tt, w ++ removals_below name es)
    delete_removes_below end left name w quiet fits m = rw append-nil refl
    delete_removes_below (file _ es) left name w quiet fits m =
        delete_removes_below es left name w quiet fits m
    delete_removes_below (child n g es) left name w quiet fits (proper, mg, mes) =
        child_step (delete_cgroup_recursive h root left) name n (listing es) w proper
        ∙ rw (delete_removes g left (child_name name n) w quiet (omega arith) mg)
            (delete_removes_below es left name _ quiet (omega arith) mes ∙ simp append_assoc)

  bind_fails :
      (r : Result (Unit {0}) × History) (f : Unit {0} → M (Unit {0}))
      → is_ok r.0 ≡ false
      → is_ok (bind_step r f).0 ≡ false
  bind_fails (ok u, v) f e = cc
  bind_fails (err x, v) f e = refl

  group_fails :
      (es : Entries) (left : ℕ) (name : String) (w : History)
      → h.read_dir w (directory name) ≡ ok (listing es)
      → is_ok (delete_entries h root (delete_cgroup_recursive h root left) name (listing es) w).0
        ≡ false
      → is_ok (delete_cgroup_recursive h root (suc left) name w).0 ≡ false
  unfolding delete_cgroup_recursive
  group_fails es left name w listed below =
      rw (listed, delete_cgroup_recursive)
        (bind_fails
          (delete_entries h root (delete_cgroup_recursive h root left) name (listing es) w) _ below)

  mutual
    unfolding height removals Mirrors delete_cgroup_recursive

    too_deep_fails :
        (g : Group) (left : ℕ) (name : String) (w : History)
        → IsCompliant h
        → left < height g
        → Mirrors name g
        → is_ok (delete_cgroup_recursive h root left name w).0 ≡ false
    too_deep_fails (group es) zero name w quiet deep m = refl
    too_deep_fails (group es) (suc left) name w quiet deep (listed, below) =
        group_fails es left name w (listed w)
          (too_deep_below es left name w quiet (omega arith) below)

    too_deep_below :
        (es : Entries) (left : ℕ) (name : String) (w : History)
        → IsCompliant h
        → left < height_below es
        → MirrorsBelow name es
        → is_ok (delete_entries h root (delete_cgroup_recursive h root left) name (listing es) w).0
          ≡ false
    too_deep_below end left name w quiet deep m = absurd (omega arith)
    too_deep_below (file _ es) left name w quiet deep m = too_deep_below es left name w quiet deep m
    too_deep_below (child n g es) left name w quiet deep (proper, mg, mes) =
        elim (Bool-cases (leb (height g) left)) [
          | inl fits ↦
              rw
                (
                  child_step (delete_cgroup_recursive h root left) name n (listing es) w proper,
                  delete_removes g left (child_name name n) w quiet (ground arith) mg,
                )
                (too_deep_below es left name _ quiet (ground arith) mes)
          | inr high ↦
              rw (child_step (delete_cgroup_recursive h root left) name n (listing es) w proper) (
                bind_fails (delete_cgroup_recursive h root left (child_name name n) w) _
                  (too_deep_fails g left (child_name name n) w quiet (ground arith) mg))
        ]

  -- On a host that lists a tree of cgroups as it is and refuses no removal, `deleteCgroup` removes
  -- exactly the groups of the tree, each below before the one above, if the tree has at most ten levels.
  -- If it has more, it returns an error.
  pub delete_cgroup_tree :
      (g : Group) (name : String) (w : History)
      → IsCompliant h
      → Mirrors name g
      → (height g ≤ 10 → delete_cgroup h root name w ≡ (ok tt, w ++ removals name g))
        × (10 < height g → is_ok (delete_cgroup h root name w).0 ≡ false)
  unfolding delete_cgroup
  delete_cgroup_tree g name w quiet m = (
    λ fits. delete_removes g 10 name w quiet fits m,
    λ deep. too_deep_fails g 10 name w quiet deep m,
  )
