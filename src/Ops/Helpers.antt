-- ===== src/Ops/Helpers.antt =====
-- fs/hepunion/helpers.c, me.c and wh.c: the helpers that the handlers call, and what they leave of
-- the process and of the memory.
use hepunion.Base.{ℕ, List}
use hepunion.Kernel.{Kernel, Kstat, Dirent}
use hepunion.Exec.Tidy.{IsTidy}
use hepunion.SpecialPath.{Branches}
use hepunion.Lookup.{check_exist, get_path_dentry, lstat, unlink, rmdir}
use hepunion.Lookup.Tidy.{
  check_exist-IsTidy, get_path_dentry-IsTidy, lstat-IsTidy, unlink-IsTidy, rmdir-IsTidy,
}
use hepunion.Create.{mkdir, link}
use hepunion.Create.Tidy.{mkdir-IsTidy, link-IsTidy}
use hepunion.Attributes.{find_me, find_whiteout, get_file_attr_worker}
use hepunion.Attributes.Tidy.{find_me-IsTidy, find_whiteout-IsTidy, get_file_attr_worker-IsTidy}
use hepunion.Access.{can_access, can_traverse}
use hepunion.Access.Tidy.{can_access-IsTidy, can_traverse-IsTidy}
use hepunion.Whiteout.{check_whiteout, delete_whiteout, unlink_whiteout, create_me}
use hepunion.Whiteout.Tidy.{
  check_whiteout-IsTidy, delete_whiteout-IsTidy, unlink_whiteout-IsTidy, create_me-IsTidy,
}

module _ ⦃K : Kernel⦄ (b : Branches) where
  -- Each of the helpers gives back all that it takes.
  pub record AllTidy : Type 0 where
    pub exists : (path : List ℕ) (flag : ℕ) → IsTidy (check_exist path flag)
    pub path_dentry : (path : List ℕ) (flag : ℕ) → IsTidy (get_path_dentry path flag)
    pub attributes : (path : List ℕ) (st : Kstat) → IsTidy (lstat path st)
    pub file_unlinked : (path : List ℕ) → IsTidy (unlink path)
    pub dir_removed : (path : List ℕ) → IsTidy (rmdir path)
    pub dir_made : (path : List ℕ) (mode : ℕ) → IsTidy (mkdir path mode)
    pub file_linked : (oldname newname : List ℕ) → IsTidy (link oldname newname)
    pub me_found : (path me_path : List ℕ) (st : Kstat) → IsTidy (find_me b path me_path st)
    pub whiteout_found : (path wh_path : List ℕ) → IsTidy (find_whiteout b path wh_path)
    pub attributes_merged :
        (path real_path : List ℕ) (st : Kstat) → IsTidy (get_file_attr_worker b path real_path st)
    pub accessed : (path real_path : List ℕ) (mode : ℕ) → IsTidy (can_access b path real_path mode)
    pub traversed : (path : List ℕ) → IsTidy (can_traverse b path)
    pub whiteout_checked : (dir : List ℕ) (e : Dirent) → IsTidy (check_whiteout b dir e)
    pub whiteout_deleted : (dir : List ℕ) (e : Dirent) → IsTidy (delete_whiteout dir e)
    pub whiteout_unlinked : (path : List ℕ) → IsTidy (unlink_whiteout b path)
    pub me_made : (me_path : List ℕ) (st : Kstat) → IsTidy (create_me b me_path st)

  -- On every path through them, retries included, check_exist, get_path_dentry, lstat, unlink, rmdir,
  -- mkdir, link, find_me, find_whiteout, get_file_attr_worker, can_access, can_traverse,
  -- check_whiteout, delete_whiteout, unlink_whiteout and create_me give the caller's `fsuid` and
  -- `fsgid` back, and leave the count of `id_lock`, the flag of the shared buffers, the number of live
  -- allocations and the record of failed assertions as they were.
  pub helpers_tidy : AllTidy
  helpers_tidy = record {
    exists = check_exist-IsTidy;
    path_dentry = get_path_dentry-IsTidy;
    attributes = lstat-IsTidy;
    file_unlinked = unlink-IsTidy;
    dir_removed = rmdir-IsTidy;
    dir_made = mkdir-IsTidy;
    file_linked = link-IsTidy;
    me_found = find_me-IsTidy b;
    whiteout_found = find_whiteout-IsTidy b;
    attributes_merged = get_file_attr_worker-IsTidy b;
    accessed = can_access-IsTidy b;
    traversed = can_traverse-IsTidy b;
    whiteout_checked = check_whiteout-IsTidy b;
    whiteout_deleted = delete_whiteout-IsTidy;
    whiteout_unlinked = unlink_whiteout-IsTidy b;
    me_made = create_me-IsTidy b;
  }
