-- ===== src/Copyup.antt =====
-- fs/hepunion/cow.c: `create_copyup`, which copies a file or a tree of directories from the RO
-- branch to the RW branch, and `unlink_copyup`.
pub mod Balanced
pub mod Depth
pub mod Placed
pub mod Found
pub mod Rounds
use hepunion.Base.{
  ℕ, zero, suc, ℤ, pos, is_neg, is_zero, Bool, ptr, err_ptr, true, false, Option, none, some,
}
use hepunion.Base.{List, [], ◌∷◌, ◌++◌, ◌==◌, ◌||◌, ltb, if◌then◌else◌, take, path_max, negsuc}
use hepunion.Base.Errno.{enomem, enametoolong, enoent, einval}
use hepunion.CString.{snprintf}
use hepunion.Kernel.{Kernel, Kstat, Dirent}
use hepunion.Exec.{
  M, pure, ◌>>=◌, ◌>>◌, call, call_, ask, as_root, push_root, pop_root, oops, with_buffer,
}
use hepunion.Exec.{on_ptr, on_option}
use hepunion.Names.{slash, is_special, owner_flag, mode_flag, time_flag}
use hepunion.SpecialPath.{Branches}
use hepunion.Lookup.{lstat, unlink, get_path_dentry, lookup_reval}
use hepunion.Attributes.{unset, find_me, get_file_attr_worker}
use hepunion.Create.{s_ifmt, s_ififo, s_ifchr, s_ifblk, s_ifreg, s_ifsock}
use hepunion.Workers.{dbg_open, dbg_open_2, dbg_mkdir, dbg_mknod, dbg_mkfifo, dbg_symlink, o_rdonly}
use hepunion.Whiteout.{vfs_readdir}
use hepunion.Tree.{find_present, find_path_worker, attributes_of}
use hepunion.Metadata.{set_me, attr_known}
use hepunion.Readlink.{readlink}
use hepunion.Find.{find_file_with}
use Prim.Native.Nat.{bit_and}

abbrev pub s_ifdir : ℕ
s_ifdir = 0o040000

abbrev s_iflnk : ℕ
s_iflnk = 0o120000

-- `MAXSIZE`
abbrev pub maxsize : ℕ
maxsize = 4096

-- `sizeof(tmp) - 1` of a pointer of eight bytes.
abbrev link_size : ℕ
link_size = 7

-- `O_CREAT | O_WRONLY | O_EXCL`
abbrev create_exclusive : ℕ
create_exclusive = 0o301

-- `MODE | TIME | OWNER`
abbrev all_flags : ℕ
all_flags = 0x7

module _ ⦃K : Kernel⦄ where
  -- The loop that copies the contents, with a bound on its rounds: `none` is a bound that was too
  -- small, and `some err` the end of the loop, with 0 or an error.
  unfoldable pub copy_data : ℕ → K.File → K.File → M (Option ℤ)
  copy_data zero ro_fd rw_fd = pure none
  copy_data (suc rounds) ro_fd rw_fd = do
    got ← as_root (call (K.vfs_read ro_fd maxsize))
    if is_neg got.0 then pure (some got.0) else if is_zero got.0 then pure (some (pos 0)) else do
      put ← as_root (call (K.vfs_write rw_fd got.1))
      let rest = copy_data rounds ro_fd rw_fd
      if is_neg put then pure (some put) else rest

  unfoldable pub close_both : K.File → K.File → M ℤ
  close_both ro_fd rw_fd =
      as_root (do call (λ c. K.filp_close ro_fd); call (λ c. K.filp_close rw_fd))

module _ ⦃K : Kernel⦄ (b : Branches) (rounds : ℕ) where
  -- The branches of the `switch`: `some err` goes to `cleanup` with that error.
  abbrev failed : ℤ → Option ℤ
  failed err = if is_neg err then some err else none

  unfoldable pub copy_link : List ℕ → List ℕ → M (Option ℤ)
  copy_link ro_path rw_path = do
    target ← readlink ro_path link_size
    if is_neg target.0
        then pure (some target.0)
        else do err ← dbg_symlink b target.1 rw_path; pure (failed err)

  unfoldable pub copy_regular : List ℕ → List ℕ → Kstat → M (Option ℤ)
  unfolding copy_data close_both
  copy_regular ro_path rw_path st = do
    opened ← dbg_open b ro_path o_rdonly
    on_ptr opened
        (λ ro_fd. do
          made ← dbg_open_2 b rw_path create_exclusive st.mode
          on_ptr made
              (λ rw_fd. do
                copied ←
                    (if st.size == 0 then pure (some (pos 0)) else copy_data rounds ro_fd rw_fd)
                close_both ro_fd rw_fd
                on_option copied (oops (some einval))
                    (λ err. if is_neg err then (do unlink rw_path; pure (some err)) else pure none))
              (λ err. do call (λ c. K.filp_close ro_fd); pure (some err)))
        (λ err. pure (some err))

  -- `children` reads the RO directory and copies each entry of it.
  unfoldable pub copy_directory : (K.File → M ℤ) → List ℕ → List ℕ → Kstat → M (Option ℤ)
  copy_directory children ro_path rw_path st = do
    made ← dbg_mkdir b rw_path st.mode
    if is_neg made then pure (some made) else do
      opened ← dbg_open b ro_path o_rdonly
      on_ptr opened
          (λ ro_fd. do
            push_root
            err ← children ro_fd
            call (λ c. K.filp_close ro_fd)
            pop_root
            if is_neg err then (do unlink rw_path; pure (some err)) else pure none)
          (λ err. do unlink rw_path; pure (some err))

  unfoldable pub copy_by_type : (K.File → M ℤ) → List ℕ → List ℕ → Kstat → M (Option ℤ)
  unfolding copy_link copy_regular copy_directory
  copy_by_type children ro_path rw_path st =
      let type = bit_and st.mode s_ifmt in
      if type == s_iflnk
      then copy_link ro_path rw_path
      else if type == s_ifreg
      then copy_regular ro_path rw_path st
      else if (type == s_ifsock) || ((type == s_ifblk) || (type == s_ifchr))
      then (do err ← dbg_mknod b rw_path st.mode st.rdev; pure (failed err))
      else if type == s_ifdir
      then copy_directory children ro_path rw_path st
      else if type == s_ififo
      then (do err ← dbg_mkfifo b rw_path st.mode; pure (failed err))
      else pure none

  -- The part behind the `switch`: the attributes of the copy, and the metadata file.
  unfoldable pub finish_copy : List ℕ → List ℕ → Kstat → M ℤ
  finish_copy path rw_path st = do
    found ← get_path_dentry rw_path lookup_reval
    on_ptr found
        (λ dentry. do
          err ← as_root (call (K.notify_change dentry (attributes_of st attr_known)))
          if is_neg err
              then (do
                push_root
                parent ← ask (K.parent_inode dentry)
                on_option parent (oops (pos 0)) (λ dir. call (K.vfs_unlink dir dentry))
                pop_root
                call_ (K.dput dentry)
                pure err)
              else (do
                call_ (K.dput dentry)
                old ← find_me b path [] st
                if is_neg old.0 then pure (pos 0) else (do unlink old.1; pure (pos 0))))
        pure

  -- `create_copyup` over the way in which it copies the entries of a directory. The status and
  -- what is left in `rw_path`.
  unfoldable pub copyup_with : (K.File → M ℤ) → List ℕ → List ℕ → List ℕ → M (ℤ × List ℕ)
  unfolding copy_by_type finish_copy
  copyup_with children path ro_path rw_path =
      with_buffer (enomem, rw_path)
        (with_buffer (enomem, rw_path)
          (with_buffer (enomem, rw_path)
            (do
              attr ← get_file_attr_worker b path ro_path unset
              if is_neg attr.0 then pure (attr.0, rw_path) else do
                found ← find_path_worker b path rw_path
                if is_neg found.0 then pure found else do
                  left ← copy_by_type children ro_path found.1 attr.1
                  on_option left (do err ← finish_copy path found.1 attr.1; pure (err, found.1))
                      (λ err. pure (err, found.1)))))

  -- `copy_child` over the call of `create_copyup`.
  unfoldable pub copy_child :
      (List ℕ → List ℕ → List ℕ → M (ℤ × List ℕ)) → List ℕ → List ℕ → Dirent → M ℤ
  unfolding snprintf
  copy_child create_copyup path ro_path e =
      if is_special e.name
      then pure (pos 0)
      else with_buffer enomem (
          with_buffer enomem (
            with_buffer enomem (
              let (n, tmp_ro_path) = snprintf (ro_path ++ slash ∷ e.name) in
              let (m, tmp_path) = snprintf (path ++ slash ∷ e.name) in
              if ltb path_max n
              then pure enametoolong
              else if ltb path_max m
              then pure enametoolong
              else (do copied ← create_copyup tmp_path tmp_ro_path []; pure copied.0))))

  -- With a bound on the depth of directories, at which a directory is not entered. A path has no
  -- place for more than `path_max` of them.
  unfoldable pub create_copyup_at : ℕ → List ℕ → List ℕ → List ℕ → M (ℤ × List ℕ)
  unfolding copyup_with copy_child
  create_copyup_at zero path ro_path rw_path = oops (einval, rw_path)
  create_copyup_at (suc depth) path ro_path rw_path =
      copyup_with (λ fd. vfs_readdir fd (copy_child (create_copyup_at depth) path ro_path)) path
        ro_path rw_path

  unfoldable pub create_copyup : List ℕ → List ℕ → List ℕ → M (ℤ × List ℕ)
  unfolding create_copyup_at
  create_copyup = create_copyup_at (suc (suc path_max))

  -- `find_file` with each of its flags.
  unfoldable pub find_file : List ℕ → List ℕ → ℕ → M (ℤ × List ℕ)
  unfolding find_file_with create_copyup
  find_file = find_file_with b create_copyup

-- Whether a status is `-ENOENT`.
abbrev not_found : ℤ → Bool
not_found (pos n) = false
not_found (negsuc n) = n == 1

module _ ⦃K : Kernel⦄ (b : Branches) where
  unfoldable pub unlink_copyup : List ℕ → List ℕ → M ℤ
  unfolding find_present
  unlink_copyup path copyup_path = do
    st ← lstat copyup_path unset
    if is_neg st.0 then pure st.0 else do
      gone ← unlink copyup_path
      if is_neg gone
          then pure gone
          else with_buffer enomem (do
            found ← find_present b path [] 0
            if not_found found.0 then pure (pos 0) else set_me b path found.1 st.1 all_flags)
