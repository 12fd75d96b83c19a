-- ===== src/Hiding/Balanced.antt =====
-- fs/hepunion/wh.c: whiteouts that are made: the buffers that are given back.
use hepunion.Base.{ℕ, Bool, true, false, List}
use hepunion.Kernel.{Kernel, Dirent}
use hepunion.Exec.Balanced.{IsBalanced, IsBalanced-pure, balanced_rules}
use hepunion.SpecialPath.{Branches}
use hepunion.Create.Balanced.{dbg_open-IsBalanced}
use hepunion.Hiding.{
  create_whiteout, hide_directory_contents, hide_entries, hide_entry_wild, remove_rw,
  unlink_rw_file,
}
use hepunion.Lookup.Balanced.{can_remove-IsBalanced, check_exist-IsBalanced, unlink-IsBalanced}
use hepunion.Tree.Balanced.{find_path_null-IsBalanced, find_present-IsBalanced}
use hepunion.Whiteout.Balanced.{create_whiteout_worker-IsBalanced, vfs_readdir-IsBalanced}
use hepunion.Hiding.{has_ro}

module _ ⦃K : Kernel⦄ (b : Branches) where
  pub create_whiteout-IsBalanced :
      (path wh_path : List ℕ) → IsBalanced (create_whiteout b path wh_path)
  unfolding create_whiteout
  create_whiteout-IsBalanced path wh_path =
      search (balanced_rules, find_path_null-IsBalanced, create_whiteout_worker-IsBalanced) depth 24

  hide_entry_wild-IsBalanced : (e : Dirent) → IsBalanced (hide_entry_wild b e)
  unfolding hide_entry_wild
  hide_entry_wild-IsBalanced e = search (balanced_rules) depth 24

  hide_entries-IsBalanced : (path ro_path : List ℕ) → IsBalanced (hide_entries b path ro_path)
  unfolding hide_entries
  hide_entries-IsBalanced path ro_path =
      search
        (balanced_rules, dbg_open-IsBalanced, vfs_readdir-IsBalanced, hide_entry_wild-IsBalanced)
        depth 24

  pub hide_directory_contents-IsBalanced :
      (path : List ℕ) → IsBalanced (hide_directory_contents b path)
  unfolding hide_directory_contents
  hide_directory_contents-IsBalanced path =
      search (balanced_rules, check_exist-IsBalanced, hide_entries-IsBalanced) depth 24

  has_ro-IsBalanced : (path : List ℕ) (sure : Bool) → IsBalanced (has_ro b path sure)
  unfolding has_ro
  has_ro-IsBalanced path true = IsBalanced-pure true
  has_ro-IsBalanced path false = search (balanced_rules, find_present-IsBalanced) depth 12

  remove_rw-IsBalanced :
      (path rw_path : List ℕ) (hidden : Bool) → IsBalanced (remove_rw b path rw_path hidden)
  unfolding remove_rw
  remove_rw-IsBalanced path rw_path hidden =
      search (balanced_rules, can_remove-IsBalanced, unlink-IsBalanced, create_whiteout-IsBalanced)
        depth 24

  pub unlink_rw_file-IsBalanced :
      (path rw_path : List ℕ) (has_ro_sure : Bool)
      → IsBalanced (unlink_rw_file b path rw_path has_ro_sure)
  unfolding unlink_rw_file
  unlink_rw_file-IsBalanced path rw_path has_ro_sure =
      search (balanced_rules, has_ro-IsBalanced, remove_rw-IsBalanced) depth 24
