-- ===== src/Tree/Balanced.antt =====
-- fs/hepunion/cow.c, `find_path`: the buffers that are given back.
use hepunion.Base.{ℕ, List, [], ◌∷◌}
use hepunion.Kernel.{Kernel}
use hepunion.Exec.Balanced.{IsBalanced, IsBalanced-pure, balanced_rules}
use hepunion.SpecialPath.{Branches}
use hepunion.Create.Balanced.{dbg_mkdir-IsBalanced}
use hepunion.Find.Balanced.{find_file_with-IsBalanced}
use hepunion.Lookup.Balanced.{get_path_dentry-IsBalanced, lstat-IsBalanced}
use hepunion.Tree.{find_path_null, find_path_worker, make_directory, make_tree}
use hepunion.Tree.{make_directory, tree_loop, find_present, make_tree, find_path_worker}

module _ ⦃K : Kernel⦄ (b : Branches) where
  pub find_present-IsBalanced :
      (path real_path : List ℕ) (flags : ℕ) → IsBalanced (find_present b path real_path flags)
  unfolding find_present
  find_present-IsBalanced path real_path flags =
      search (balanced_rules, find_file_with-IsBalanced) depth 12

  make_directory-IsBalanced :
      (read_only real_path : List ℕ) → IsBalanced (make_directory b read_only real_path)
  unfolding make_directory
  make_directory-IsBalanced read_only real_path =
      search (balanced_rules, lstat-IsBalanced, dbg_mkdir-IsBalanced, get_path_dentry-IsBalanced)
        depth 24

  tree_loop-IsBalanced :
      (read_only real_path segment path : List ℕ)
      → IsBalanced (tree_loop b read_only real_path segment path)
  unfolding tree_loop
  tree_loop-IsBalanced read_only real_path segment [] = IsBalanced-pure _
  tree_loop-IsBalanced read_only real_path segment (c ∷ rest) =
      let ih : (p q s : List ℕ) → IsBalanced (tree_loop b p q s rest) =
        λ p q s. tree_loop-IsBalanced p q s rest in
      search (balanced_rules, make_directory-IsBalanced, ih) depth 12

  make_tree-IsBalanced :
      (path : List ℕ) (last : ℕ) (real_path : List ℕ) → IsBalanced (make_tree b path last real_path)
  unfolding make_tree
  make_tree-IsBalanced path last real_path = search (balanced_rules, tree_loop-IsBalanced) depth 24

  pub find_path_worker-IsBalanced :
      (path real_path : List ℕ) → IsBalanced (find_path_worker b path real_path)
  unfolding find_path_worker
  find_path_worker-IsBalanced path real_path =
      search (balanced_rules, find_present-IsBalanced, make_tree-IsBalanced) depth 24

  pub find_path_null-IsBalanced : (path : List ℕ) → IsBalanced (find_path_null b path)
  unfolding find_path_null
  find_path_null-IsBalanced path = search (balanced_rules, find_path_worker-IsBalanced) depth 24
