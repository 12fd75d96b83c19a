-- ===== src/Ops/Served.antt =====
-- fs/hepunion/opts.c, the parts of the other handlers: the buffers that are given back.
use hepunion.Base.{ℕ, zero, suc, ℤ, pos, negsuc, Option, none, some, Bool, false, List}
use hepunion.Base.{arith}
use hepunion.Kernel.{Kernel, Iattr}
use hepunion.Exec.{pure, ◌>>=◌}
use hepunion.Exec.Balanced.{IsBalanced, IsBalanced-pure, balanced_rules}
use hepunion.SpecialPath.{Branches}
use hepunion.Copyup.Balanced.{unlink_copyup-IsBalanced}
use hepunion.Create.Balanced.{dbg_open_2-IsBalanced}
use hepunion.Hiding.Balanced.{create_whiteout-IsBalanced, unlink_rw_file-IsBalanced}
use hepunion.Lookup.Balanced.{
  can_remove-IsBalanced, find_me-IsBalanced, get_path_dentry-IsBalanced, rmdir-IsBalanced,
  unlink-IsBalanced,
}
use hepunion.Metadata.Balanced.{set_me_worker-IsBalanced}
use hepunion.Ops.Attr.{set_real_attr}
use hepunion.Ops.Open.{dir_on_branch, get_inode, open_found, path_to_open}
use hepunion.Ops.Remove.{cover, rmdir_ro, unlink_ro_file}
use hepunion.Paths.Balanced.{get_dentry_path-IsBalanced}
use hepunion.Tree.Balanced.{find_present-IsBalanced}
use hepunion.Whiteout.Balanced.{create_me-IsBalanced, is_empty_dir-IsBalanced}
use hepunion.Ops.Remove.{rmdir_rw, unlink_by_branch, rmdir_by_branch}
use hepunion.Ops.Attr.{set_attr_by_branch}
use hepunion.Ops.Open.{add_found, open_found}
use hepunion.Exec.{kmalloc, oops, kfree}

module _ ⦃K : Kernel⦄ (b : Branches) where
  cover-IsBalanced : (path : List ℕ) → IsBalanced (cover b path)
  unfolding cover
  cover-IsBalanced path =
      search
        (
          balanced_rules, find_me-IsBalanced, create_whiteout-IsBalanced, unlink-IsBalanced,
          create_me-IsBalanced,
        )
        depth 24

  unlink_ro_file-IsBalanced :
      (path real_path : List ℕ) → IsBalanced (unlink_ro_file b path real_path)
  unfolding unlink_ro_file
  unlink_ro_file-IsBalanced path real_path =
      search (balanced_rules, can_remove-IsBalanced, cover-IsBalanced) depth 24

  pub unlink_by_branch-IsBalanced :
      (path : List ℕ) (found : ℤ × List ℕ) → IsBalanced (unlink_by_branch b path found)
  unfolding unlink_by_branch
  unlink_by_branch-IsBalanced path (negsuc e, real_path) = IsBalanced-pure _
  unlink_by_branch-IsBalanced path (pos zero, real_path) = unlink_ro_file-IsBalanced path real_path
  unlink_by_branch-IsBalanced path (pos (suc n), real_path) =
      unlink_rw_file-IsBalanced b path real_path false

  rmdir_rw-IsBalanced :
      (path real_path wh_path : List ℕ) (ro_path : Option (List ℕ))
      → IsBalanced (rmdir_rw b path real_path wh_path ro_path)
  unfolding rmdir_rw
  rmdir_rw-IsBalanced path real_path wh_path none =
      search
        (
          balanced_rules, can_remove-IsBalanced, is_empty_dir-IsBalanced, rmdir-IsBalanced,
          unlink-IsBalanced,
        )
        depth 24
  rmdir_rw-IsBalanced path real_path wh_path (some ro) =
      search
        (
          balanced_rules, can_remove-IsBalanced, is_empty_dir-IsBalanced, rmdir-IsBalanced,
          unlink-IsBalanced, create_whiteout-IsBalanced,
        )
        depth 24

  rmdir_ro-IsBalanced : (path real_path : List ℕ) → IsBalanced (rmdir_ro b path real_path)
  unfolding rmdir_ro
  rmdir_ro-IsBalanced path real_path =
      search (balanced_rules, can_remove-IsBalanced, is_empty_dir-IsBalanced, cover-IsBalanced)
        depth 24

  pub rmdir_by_branch-IsBalanced :
      (path : List ℕ) (found : ℤ × List ℕ) → IsBalanced (rmdir_by_branch b path found)
  unfolding rmdir_by_branch
  rmdir_by_branch-IsBalanced path (negsuc e, real_path) = IsBalanced-pure _
  rmdir_by_branch-IsBalanced path (pos zero, real_path) = rmdir_ro-IsBalanced path real_path
  rmdir_by_branch-IsBalanced path (pos (suc n), real_path) =
      search (balanced_rules, find_present-IsBalanced, rmdir_rw-IsBalanced) depth 24

  set_real_attr-IsBalanced :
      (real_path : List ℕ) (attr : Iattr) → IsBalanced (set_real_attr b real_path attr)
  unfolding set_real_attr
  set_real_attr-IsBalanced real_path attr =
      search (balanced_rules, get_path_dentry-IsBalanced) depth 24

  pub set_attr_by_branch-IsBalanced :
      (path : List ℕ) (attr : Iattr) (found : ℤ × List ℕ)
      → IsBalanced (set_attr_by_branch b path attr found)
  unfolding set_attr_by_branch
  set_attr_by_branch-IsBalanced path attr (negsuc e, real_path) = IsBalanced-pure _
  set_attr_by_branch-IsBalanced path attr (pos zero, real_path) =
      set_me_worker-IsBalanced b path real_path attr
  set_attr_by_branch-IsBalanced path attr (pos (suc n), real_path) =
      set_real_attr-IsBalanced real_path attr

  get_inode-IsBalanced : (dentry : K.Dentry) (path : List ℕ) → IsBalanced (get_inode b dentry path)
  unfolding get_inode
  get_inode-IsBalanced dentry path = search (balanced_rules) depth 24

  pub add_found-IsBalanced :
      (dentry : K.Dentry) (path : List ℕ) → IsBalanced (add_found b dentry path)
  unfolding add_found ◌>>=◌ pure kmalloc kfree oops
  add_found-IsBalanced dentry path = record {
    at = λ w. let kept = get_inode-IsBalanced dentry path in ground (arith, kept.at (kmalloc w).1);
  }

  pub path_to_open-IsBalanced : (dentry : K.Dentry) → IsBalanced (path_to_open b dentry)
  unfolding path_to_open
  path_to_open-IsBalanced dentry = search (balanced_rules, get_dentry_path-IsBalanced) depth 24

  pub dir_on_branch-IsBalanced : (path : List ℕ) (flag : ℕ) → IsBalanced (dir_on_branch b path flag)
  unfolding dir_on_branch
  dir_on_branch-IsBalanced path flag = search (balanced_rules, find_present-IsBalanced) depth 24

module _ ⦃K : Kernel⦄ (b : Branches) (rounds : ℕ) where
  pub open_found-IsBalanced :
      (path real_path : List ℕ) (copied : Bool) (flags mode : ℕ)
      → IsBalanced (open_found b rounds path real_path copied flags mode)
  unfolding open_found
  open_found-IsBalanced path real_path copied flags mode =
      search
        (balanced_rules, can_remove-IsBalanced, unlink_copyup-IsBalanced, dbg_open_2-IsBalanced)
        depth 24
