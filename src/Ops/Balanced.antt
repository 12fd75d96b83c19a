-- ===== src/Ops/Balanced.antt =====
-- fs/hepunion/opts.c, the parts of the handlers that make an entry: the buffers that are given back.
use hepunion.Base.{ℕ, ℤ, Bool, true, false, List}
use hepunion.Kernel.{Kernel}
use hepunion.Exec.{M}
use hepunion.Exec.Balanced.{IsBalanced, balanced_rules}
use hepunion.SpecialPath.{Branches}
use hepunion.Create.Balanced.{
  dbg_creat-IsBalanced, dbg_link-IsBalanced, dbg_mkdir-IsBalanced, dbg_mkfifo-IsBalanced,
  dbg_mknod-IsBalanced, dbg_symlink-IsBalanced,
}
use hepunion.Hiding.Balanced.{hide_directory_contents-IsBalanced}
use hepunion.Lookup.Balanced.{can_remove-IsBalanced, rmdir-IsBalanced, unlink-IsBalanced}
use hepunion.Ops.{fill_inode, validate_both, validate_dentry, validate_inode}
use hepunion.Ops.Make.{link_to, make_link, make_node, make_symlink}
use hepunion.Paths.Balanced.{get_relative_path_for_file-IsBalanced}
use hepunion.Tree.Balanced.{find_path_worker-IsBalanced, find_present-IsBalanced}
use hepunion.Whiteout.Balanced.{unlink_whiteout-IsBalanced}
use hepunion.Ops.Make.{for_new_name, add_inode, on_rw, create_file, make_dir}
use hepunion.Lookup.{unlink, rmdir}

module _ ⦃K : Kernel⦄ where
  pub validate_inode-IsBalanced : (inode : K.Inode) → IsBalanced (validate_inode inode)
  unfolding validate_inode
  validate_inode-IsBalanced inode = search (balanced_rules) depth 24

  pub validate_dentry-IsBalanced : (dentry : K.Dentry) → IsBalanced (validate_dentry dentry)
  unfolding validate_dentry
  validate_dentry-IsBalanced dentry = search (balanced_rules) depth 24

  pub validate_both-IsBalanced :
      (dir : K.Inode) (dentry : K.Dentry) → IsBalanced (validate_both dir dentry)
  unfolding validate_both
  validate_both-IsBalanced dir dentry =
      search (balanced_rules, validate_inode-IsBalanced, validate_dentry-IsBalanced) depth 24

  fill_inode-IsBalanced :
      (dir : K.Inode) (dentry : K.Dentry) (inode : K.Inode) (path : List ℕ) (mode : ℕ)
      (is_dir : Bool)
      → IsBalanced (fill_inode dir dentry inode path mode is_dir)
  unfolding fill_inode
  fill_inode-IsBalanced dir dentry inode path mode is_dir = search (balanced_rules) depth 24

module _ ⦃K : Kernel⦄ (b : Branches) where
  pub for_new_name-IsBalanced :
      (dir : K.Inode) (dentry : K.Dentry) (rest : List ℕ → List ℕ → M ℤ)
      → ((p q : List ℕ) → IsBalanced (rest p q))
      → IsBalanced (for_new_name b dir dentry rest)
  unfolding for_new_name
  for_new_name-IsBalanced dir dentry rest br =
      search (balanced_rules, br, get_relative_path_for_file-IsBalanced, find_present-IsBalanced)
        depth 24

  add_inode-IsBalanced :
      (dir : K.Inode) (dentry : K.Dentry) (path : List ℕ) (mode : ℕ) (is_dir : Bool)
      (operation : List ℕ → M ℤ) (real_path : List ℕ)
      → ((p : List ℕ) → IsBalanced (operation p))
      → IsBalanced (add_inode b dir dentry path mode is_dir (operation real_path))
  unfolding add_inode
  add_inode-IsBalanced dir dentry path mode is_dir operation real_path bo =
      search (balanced_rules, bo, fill_inode-IsBalanced, unlink_whiteout-IsBalanced) depth 24

  pub create_file-IsBalanced :
      (dir : K.Inode) (dentry : K.Dentry) (mode : ℕ) (path real_path : List ℕ)
      → IsBalanced (create_file b dir dentry mode path real_path)
  unfolding create_file
  create_file-IsBalanced dir dentry mode path real_path =
      let made = λ (p : List ℕ).
        add_inode-IsBalanced dir dentry path mode false unlink p unlink-IsBalanced in
      search
        (
          balanced_rules, made, unlink-IsBalanced, find_path_worker-IsBalanced,
          can_remove-IsBalanced, dbg_creat-IsBalanced,
        )
        depth 30

  pub on_rw-IsBalanced :
      (path : List ℕ) (rest : List ℕ → M ℤ)
      → ((p : List ℕ) → IsBalanced (rest p))
      → IsBalanced (on_rw b path rest)
  unfolding on_rw
  on_rw-IsBalanced path rest br =
      search (balanced_rules, br, can_remove-IsBalanced, find_path_worker-IsBalanced) depth 24

  pub make_dir-IsBalanced :
      (dir : K.Inode) (dentry : K.Dentry) (mode : ℕ) (path real_path : List ℕ)
      → IsBalanced (make_dir b dir dentry mode path real_path)
  unfolding make_dir
  make_dir-IsBalanced dir dentry mode path real_path =
      let made =
        λ (p : List ℕ). add_inode-IsBalanced dir dentry path mode true rmdir p rmdir-IsBalanced in
      search
        (
          balanced_rules, made, rmdir-IsBalanced, dbg_mkdir-IsBalanced,
          hide_directory_contents-IsBalanced,
        )
        depth 30

  pub make_node-IsBalanced :
      (mode rdev : ℕ) (path real_path : List ℕ) → IsBalanced (make_node b mode rdev path real_path)
  unfolding make_node
  make_node-IsBalanced mode rdev path real_path =
      search
        (
          balanced_rules, find_path_worker-IsBalanced, dbg_mkfifo-IsBalanced, dbg_mknod-IsBalanced,
          unlink_whiteout-IsBalanced,
        )
        depth 24

  pub make_symlink-IsBalanced :
      (symname to real_to : List ℕ) → IsBalanced (make_symlink b symname to real_to)
  unfolding make_symlink
  make_symlink-IsBalanced symname to real_to =
      search (balanced_rules, dbg_symlink-IsBalanced, unlink_whiteout-IsBalanced) depth 24

  link_to-IsBalanced :
      (origin : ℤ) (real_from to real_to : List ℕ)
      → IsBalanced (link_to b origin real_from to real_to)
  unfolding link_to
  link_to-IsBalanced origin real_from to real_to =
      search (balanced_rules, dbg_symlink-IsBalanced, dbg_link-IsBalanced) depth 24

  pub make_link-IsBalanced :
      (origin : ℤ) (real_from to real_to : List ℕ)
      → IsBalanced (make_link b origin real_from to real_to)
  unfolding make_link
  make_link-IsBalanced origin real_from to real_to =
      search
        (
          balanced_rules, can_remove-IsBalanced, find_path_worker-IsBalanced, link_to-IsBalanced,
          unlink_whiteout-IsBalanced,
        )
        depth 24
