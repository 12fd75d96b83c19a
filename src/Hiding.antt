-- ===== src/Hiding.antt =====
-- fs/hepunion/wh.c: whiteouts that are made, and files that are removed from under the union.
pub mod Balanced
use hepunion.Base.{
  ℕ, ℤ, pos, is_neg, Bool, true, false, List, [], ◌++◌, ltb, if◌then◌else◌, path_max,
}
use hepunion.Base.{ptr, err_ptr, Option, none, some, ◌==◌, negsuc}
use hepunion.Base.Errno.{enomem, enametoolong, enoent}
use hepunion.CString.{snprintf}
use hepunion.Kernel.{Kernel, Dirent}
use hepunion.Exec.{
  M, pure, ◌>>=◌, ◌>>◌, call, push_root, pop_root, oops, with_buffer, on_ptr, on_option,
}
use hepunion.Names.{Special, must_read_only}
use hepunion.SpecialPath.{Branches, path_to_special}
use hepunion.Lookup.{check_exist, unlink}
use hepunion.Access.{can_remove}
use hepunion.Find.{make_ro_path, make_rw_path}
use hepunion.Workers.{dbg_open, o_rdonly}
use hepunion.Whiteout.{vfs_readdir, create_whiteout_worker}
use hepunion.Tree.{find_present, find_path_null}

-- Whether a status is `-ENOENT`.
abbrev pub is_enoent : ℤ → Bool
is_enoent (ℤ.pos n) = false
is_enoent (ℤ.negsuc n) = n == 1

module _ ⦃K : Kernel⦄ (b : Branches) where
  -- The status and what is left in `wh_path`.
  unfoldable pub create_whiteout : List ℕ → List ℕ → M (ℤ × List ℕ)
  create_whiteout path wh_path =
      let (err, out) = path_to_special path Special.wh b wh_path in
      if is_neg err then pure (err, out) else do
        found ← find_path_null b path
        if is_neg found
            then pure (found, out)
            else do made ← create_whiteout_worker b out; pure (made, out)

  -- `hide_entry` with a string in place of its context: it follows a wild pointer.
  unfoldable pub hide_entry_wild : Dirent → M ℤ
  hide_entry_wild e = with_buffer enomem (oops (pos 0))

  -- The part of `hide_directory_contents` for an RO directory that exists.
  unfoldable pub hide_entries : List ℕ → List ℕ → M ℤ
  unfolding make_rw_path vfs_readdir hide_entry_wild
  hide_entries path ro_path = if ltb path_max (make_rw_path b path).0 then pure enametoolong else do
    opened ← dbg_open b ro_path o_rdonly
    on_ptr opened
        (λ ro_fd. do
          push_root
          err ← vfs_readdir ro_fd hide_entry_wild
          call (λ c. K.filp_close ro_fd)
          pop_root
          pure err)
        pure

  unfoldable pub hide_directory_contents : List ℕ → M ℤ
  unfolding make_ro_path hide_entries
  hide_directory_contents path = with_buffer enomem (
      with_buffer enomem (
        let (n, ro_path) = make_ro_path b path in
        if ltb path_max n then pure enametoolong else do
          err ← check_exist ro_path 0
          if is_neg err
              then pure (if is_enoent err then pos 0 else err)
              else hide_entries path ro_path))

  -- Whether the file is on the RO branch, which `sure` says already.
  unfoldable pub has_ro : List ℕ → Bool → M Bool
  has_ro path true = pure true
  has_ro path false = do
    found ← find_present b path [] must_read_only
    pure (if is_neg found.0 then false else true)

  -- The part of `unlink_rw_file` behind the look at the RO branch, with the buffer of `wh_path`.
  unfoldable pub remove_rw : List ℕ → List ℕ → Bool → M ℤ
  unfolding create_whiteout
  remove_rw path rw_path hidden = do
    allowed ← can_remove b path rw_path
    if is_neg allowed then pure allowed else do
      err ← unlink rw_path
      if is_neg err
          then pure err
          else if hidden
          then (do create_whiteout path []; pure (pos 0))
          else pure (pos 0)

  unfoldable pub unlink_rw_file : List ℕ → List ℕ → Bool → M ℤ
  unfolding has_ro remove_rw
  unlink_rw_file path rw_path has_ro_sure = do
    looked ← with_buffer none (do found ← has_ro path has_ro_sure; pure (some found))
    on_option looked (pure enomem) (λ found. with_buffer enomem (remove_rw path rw_path found))
