-- ===== src/Whiteout.antt =====
-- fs/hepunion/wh.c: whiteouts, and the test whether a directory of the union is empty; and
-- `create_me` of fs/hepunion/me.c, which makes its file in the same way.
pub mod Balanced
pub mod Tidy
pub mod Nested
pub mod Empty
use hepunion.Base.{
  ℕ, ℤ, pos, is_neg, is_zero, Option, none, some, List, [], ◌∷◌, ◌++◌, ltb, path_max,
}
use hepunion.Base.{if◌then◌else◌}
use hepunion.Base.Errno.{enomem, enametoolong, enotempty}
use hepunion.CString.{snprintf}
use hepunion.Kernel.{Kernel, Kstat, Iattr, Dirent}
use hepunion.Exec.{
  M, pure, ◌>>=◌, ◌>>◌, call, call_, ask, as_root, push_root, pop_root, with_buffer,
}
use hepunion.Exec.{on_ptr, on_option, oops}
use hepunion.Names.{Special, slash, mark, is_special, is_whiteout}
use hepunion.SpecialPath.{Branches, path_to_special}
use hepunion.Lookup.{unlink}
use hepunion.Attributes.{clear_mode_flags, find_whiteout}
use hepunion.Workers.{dbg_open, dbg_creat, o_rdonly}

-- `ATTR_UID | ATTR_GID`
abbrev owner_attributes : ℕ
owner_attributes = 0x6

-- `ATTR_MODE | ATTR_UID | ATTR_GID | ATTR_ATIME | ATTR_MTIME`
abbrev me_attributes : ℕ
me_attributes = 0x37

-- The attributes of a whiteout; the fields that `ia_valid` does not name are not read.
abbrev pub root_owned : Iattr
root_owned = record {
  ia_valid = owner_attributes;
  ia_mode = 0;
  ia_uid = 0;
  ia_gid = 0;
  ia_size = 0;
  ia_atime = 0;
  ia_mtime = 0;
  ia_ctime = 0;
}

unfoldable pub check_writable : Dirent → ℤ
check_writable e =
    if is_whiteout e.name then pos 0 else if is_special e.name then pos 0 else enotempty

module _ ⦃K : Kernel⦄ where
  -- The calls of a `filldir` callback, until one does not return 0.
  unfoldable pub each : (Dirent → M ℤ) → List Dirent → M ℤ
  each callback [] = pure (pos 0)
  each callback (e ∷ es) = do
    answer ← callback e
    if is_zero answer then each callback es else pure answer

  unfoldable pub vfs_readdir : K.File → (Dirent → M ℤ) → M ℤ
  unfolding each
  vfs_readdir file callback = do
    entries ← call (K.dir_entries file)
    answer ← each callback entries
    ask (K.vfs_readdir_result file answer)

  -- `dir` is the path in the context of the callback.
  unfoldable pub delete_whiteout : List ℕ → Dirent → M ℤ
  unfolding snprintf
  delete_whiteout dir e = with_buffer enomem (
      let (n, wh_path) = snprintf (dir ++ e.name) in
      if ltb path_max n then pure enametoolong else unlink wh_path)

module _ ⦃K : Kernel⦄ (b : Branches) where
  unfoldable pub check_whiteout : List ℕ → Dirent → M ℤ
  unfolding snprintf
  check_whiteout dir e =
      if is_special e.name
      then pure (pos 0)
      else with_buffer enomem (
          with_buffer enomem (
            let (n, file_path) = snprintf (dir ++ e.name) in
            if ltb path_max n
            then pure enametoolong
            else (do found ← find_whiteout b file_path []; pure found.0)))

  -- The file stays open where its owner could be set.
  unfoldable pub create_whiteout_worker : List ℕ → M ℤ
  create_whiteout_worker wh_path = do
    opened ← dbg_creat b wh_path 0o400
    on_ptr opened
        (λ fd. do
          err ← as_root (call (K.notify_change (K.f_dentry fd) root_owned))
          if is_zero err then pure err else do
            call_ (K.dget (K.f_dentry fd))
            push_root
            call (λ c. K.filp_close fd)
            parent ← ask (K.parent_inode (K.f_dentry fd))
            on_option parent (oops (pos 0)) (λ dir. call (K.vfs_unlink dir (K.f_dentry fd)))
            pop_root
            call_ (K.dput (K.f_dentry fd))
            pure err)
        pure

  unfoldable pub hide_entry : List ℕ → Dirent → M ℤ
  unfolding snprintf create_whiteout_worker
  hide_entry dir e = with_buffer enomem (
      let (n, wh_path) = snprintf (dir ++ slash ∷ mark Special.wh ++ e.name) in
      if ltb path_max n then pure enametoolong else create_whiteout_worker wh_path)

  -- The part of `is_empty_dir` for the RW branch, behind a status of `err`.
  unfoldable pub is_empty_upper : Option (List ℕ) → ℤ → M ℤ
  unfolding vfs_readdir check_writable delete_whiteout
  is_empty_upper none err = pure err
  is_empty_upper (some rw_path) err = do
    opened ← dbg_open b rw_path o_rdonly
    on_ptr opened
        (λ rw_fd. do
          push_root
          answer ← vfs_readdir rw_fd (λ e. pure (check_writable e))
          if is_neg answer then (do call (λ c. K.filp_close rw_fd); pop_root; pure answer) else do
            vfs_readdir rw_fd (delete_whiteout rw_path)
            call (λ c. K.filp_close rw_fd)
            pop_root
            pure answer)
        pure

  unfoldable pub is_empty_dir : List ℕ → Option (List ℕ) → Option (List ℕ) → M ℤ
  unfolding vfs_readdir check_whiteout is_empty_upper
  is_empty_dir path none rw_path = is_empty_upper rw_path (pos 0)
  is_empty_dir path (some ro_path) rw_path = do
    opened ← dbg_open b ro_path o_rdonly
    on_ptr opened
        (λ ro_fd. do
          push_root
          answer ← vfs_readdir ro_fd (check_whiteout path)
          call (λ c. K.filp_close ro_fd)
          pop_root
          if is_neg answer then pure answer else is_empty_upper rw_path answer)
        pure

  unfoldable pub unlink_whiteout : List ℕ → M ℤ
  unlink_whiteout path = with_buffer enomem (
      let (err, wh_path) = path_to_special path Special.wh b [] in
      if is_neg err then pure err else unlink wh_path)

  unfoldable pub create_me : List ℕ → Kstat → M ℤ
  create_me me_path kstbuf = do
    opened ← dbg_creat b me_path (clear_mode_flags kstbuf.mode)
    on_ptr opened
        (λ fd. as_root (do
          err ← call (
              K.notify_change (K.f_dentry fd) (record {
                ia_valid = me_attributes;
                ia_mode = kstbuf.mode;
                ia_uid = kstbuf.uid;
                ia_gid = kstbuf.gid;
                ia_size = 0;
                ia_atime = kstbuf.atime;
                ia_mtime = kstbuf.mtime;
                ia_ctime = kstbuf.ctime;
              }))
          call (λ c. K.filp_close fd)
          pure err))
        pure
