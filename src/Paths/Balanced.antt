-- ===== src/Paths/Balanced.antt =====
-- fs/hepunion/helpers.c, paths of dentries and inodes: the buffers that are given back.
use hepunion.Base.{ℕ, ℤ, pos, negsuc, Bool, List, [], ◌∷◌}
use hepunion.Kernel.{Kernel}
use hepunion.Exec.Balanced.{IsBalanced, IsBalanced-pure, balanced_rules}
use hepunion.SpecialPath.{Branches}
use hepunion.Paths.{get_dentry_path, get_full_path_d, get_inode_path, skip_branch}
use hepunion.Paths.{get_full_path_d, alias_loop, relative, get_relative_path_for_file}
use hepunion.Paths.{get_full_path_i}

module _ ⦃K : Kernel⦄ where
  get_full_path_d-IsBalanced :
      (dentry : K.Dentry) (real_path : List ℕ) → IsBalanced (get_full_path_d dentry real_path)
  unfolding get_full_path_d
  get_full_path_d-IsBalanced dentry real_path = search (balanced_rules) depth 24

  alias_loop-IsBalanced :
      (dentries : List K.Dentry) (ino : ℕ) (len : ℤ) (real_path : List ℕ)
      → IsBalanced (alias_loop dentries ino len real_path)
  unfolding alias_loop
  alias_loop-IsBalanced [] ino len real_path = IsBalanced-pure _
  alias_loop-IsBalanced (dentry ∷ dentries) ino len real_path =
      let ih = alias_loop-IsBalanced dentries ino in
      search (balanced_rules, get_full_path_d-IsBalanced, ih) depth 12

  get_full_path_i-IsBalanced :
      (inode : K.Inode) (real_path : List ℕ) → IsBalanced (get_full_path_i inode real_path)
  unfolding get_full_path_i
  get_full_path_i-IsBalanced inode real_path =
      search (balanced_rules, alias_loop-IsBalanced) depth 12

  skip_branch-IsBalanced :
      (branch_len len : ℕ) (real_path path : List ℕ)
      → IsBalanced (skip_branch branch_len len real_path path)
  unfolding skip_branch
  skip_branch-IsBalanced branch_len len real_path path = search (balanced_rules) depth 24

module _ ⦃K : Kernel⦄ (b : Branches) where
  relative-IsBalanced :
      (len : ℤ) (real_path path : List ℕ) (is_ours : Bool)
      → IsBalanced (relative b len real_path path is_ours)
  unfolding relative
  relative-IsBalanced (negsuc e) real_path path is_ours = IsBalanced-pure _
  relative-IsBalanced (pos n) real_path path is_ours =
      search (balanced_rules, skip_branch-IsBalanced) depth 12

  pub get_dentry_path-IsBalanced :
      (dentry : K.Dentry) (path : List ℕ) (is_ours : Bool)
      → IsBalanced (get_dentry_path b dentry path is_ours)
  unfolding get_dentry_path
  get_dentry_path-IsBalanced dentry path is_ours =
      search (balanced_rules, get_full_path_d-IsBalanced, relative-IsBalanced) depth 24

  pub get_inode_path-IsBalanced :
      (inode : K.Inode) (path : List ℕ) (is_ours : Bool)
      → IsBalanced (get_inode_path b inode path is_ours)
  unfolding get_inode_path
  get_inode_path-IsBalanced inode path is_ours =
      search (balanced_rules, get_full_path_i-IsBalanced, relative-IsBalanced) depth 24

  pub get_relative_path_for_file-IsBalanced :
      (dir : K.Inode) (dentry : K.Dentry) (path : List ℕ) (is_ours : Bool)
      → IsBalanced (get_relative_path_for_file b dir dentry path is_ours)
  unfolding get_relative_path_for_file
  get_relative_path_for_file-IsBalanced dir dentry path is_ours =
      search (balanced_rules, get_inode_path-IsBalanced) depth 24
