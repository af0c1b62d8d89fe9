-- ===== src/Cgroup/Delete.antt =====
-- `deleteCgroup` and `deleteCgroupRecursive` of cgroup.go. The levels left below the limit are counted
-- down.
use lxcri.Base.{ℕ, zero, suc, String, Bool, ◌||◌, ◌&&◌, not, List, [], ◌∷◌, ◌==◌, failed}
use lxcri.Base.Host.{Host, M, remove_dir, perform, query_result, throw, return, when, ◌>>=◌, ◌>>◌}
use lxcri.Base.FilePath.{join_path}

module _ (h : Host) (cgroup_root : String) where
  -- The loop over the entries of one directory.
  abbrev pub delete_entries : (String → M (Unit {0})) → String → List (String × Bool) → M (Unit {0})
  delete_entries delete_child cgroup_name [] = return tt
  delete_entries delete_child cgroup_name ((name, is_dir) ∷ entries) = do
    when (is_dir && not (name == "." || name == ".."))
        (delete_child (join_path (cgroup_name ∷ name ∷ [])))
    delete_entries delete_child cgroup_name entries

  -- `deleteCgroupRecursive`, with `max - level` as its first argument
  unfoldable pub delete_cgroup_recursive : ℕ → String → M (Unit {0})
  delete_cgroup_recursive zero cgroup_name = throw (failed "reached max recursion of 10")
  delete_cgroup_recursive (suc left) cgroup_name = do
    entries ← query_result (λ w. h.read_dir w (join_path (cgroup_root ∷ cgroup_name ∷ [])))
    delete_entries (delete_cgroup_recursive left) cgroup_name entries
    perform h (remove_dir (join_path (cgroup_root ∷ cgroup_name ∷ [])))

  -- `deleteCgroup`
  unfoldable pub delete_cgroup : String → M (Unit {0})
  delete_cgroup = delete_cgroup_recursive 10
