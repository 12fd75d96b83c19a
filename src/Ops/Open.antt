-- ===== src/Ops/Open.antt =====
-- fs/hepunion/opts.c: the handlers that look up and open (`hepunion_lookup`, `hepunion_open`,
-- `hepunion_opendir`), and those of an open file, which go to the file of the branch.
use hepunion.Base.{ℕ, ℤ, pos, negsuc, is_neg, Bool, true, false}
use hepunion.Base.{Option, none, some, List, [], ◌==◌, if◌then◌else◌, length}
use hepunion.Base.Errno.{enomem}
use hepunion.Kernel.{Kernel}
use hepunion.Exec.{
  M, pure, ◌>>=◌, ◌>>◌, call, call_, ask, oops, kmalloc, kfree, with_buffer, on_ptr,
}
use hepunion.Exec.{on_option}
use hepunion.Names.{must_read_only, must_read_write, create_copyup_flag}
use hepunion.Hash.{name_to_ino}
use hepunion.SpecialPath.{Branches}
use hepunion.SpecialPath.Bytes.{c_string}
use hepunion.Access.{can_remove}
use hepunion.Workers.{dbg_open_2}
use hepunion.Tree.{find_present}
use hepunion.Hiding.{is_enoent}
use hepunion.Copyup.{find_file, unlink_copyup}
use hepunion.Paths.{get_dentry_path, get_relative_path_for_file}
use hepunion.Readdir.{OpendirContext}
use hepunion.Ops.{in_buffers, validate_inode}
use Prim.Native.Nat.{bit_and}

-- `O_WRONLY | O_RDWR`
abbrev open_for_writing : ℕ
open_for_writing = 0o3

-- Whether a status of `find_file` is READ_WRITE_COPYUP.
abbrev is_copyup : ℤ → Bool
is_copyup (pos n) = n == 2
is_copyup (negsuc n) = false

module _ ⦃K : Kernel⦄ (b : Branches) where
  unfoldable pub get_inode : K.Dentry → List ℕ → M (Unit {0})
  unfolding name_to_ino
  get_inode dentry path = do
    inode ← call (λ c. K.iget_locked (name_to_ino path))
    on_option inode (pure tt) (λ i. call_ (K.d_add dentry (some i)))

  -- The part of `hepunion_lookup` for a file that was found. Nothing tests whether there is memory
  -- for the context that is written.
  unfoldable pub add_found : K.Dentry → List ℕ → M ℤ
  unfolding get_inode
  add_found dentry path = do
    got ← kmalloc
    if got then (do get_inode dentry path; kfree; pure (pos 0)) else oops (pos 0)

  -- 0 stands for the null pointer, and an error for an error pointer.
  unfoldable pub hepunion_lookup : K.Inode → K.Dentry → M ℤ
  unfolding get_relative_path_for_file add_found
  hepunion_lookup dir dentry = in_buffers (do
    validate_inode dir
    call_ (K.mark_dentry dentry)
    old ← ask K.left_over
    target ← get_relative_path_for_file b dir dentry old true
    if is_neg target.0 then pure target.0 else do
      call_ (K.set_operations dentry)
      found ← find_present b target.1 [] 0
      if is_neg found.0
          then (if is_enoent found.0
              then (do call_ (K.d_add dentry none); pure (pos 0))
              else pure found.0)
          else add_found dentry target.1)

  -- The path of a file that is opened: no error is looked at.
  unfoldable pub path_to_open : K.Dentry → M (List ℕ)
  unfolding get_dentry_path c_string
  path_to_open dentry = do
    old ← ask K.left_over
    path ← get_dentry_path b dentry old true
    pure (c_string path.1)

  -- The size of a directory's path on one branch and that path, or 0.
  unfoldable pub dir_on_branch : List ℕ → ℕ → M (ℕ × List ℕ)
  dir_on_branch path flag = do
    found ← find_present b path [] flag
    pure (if is_neg found.0 then (0, []) else (length found.1, found.1))

  unfoldable pub opendir_context : List ℕ → M (ℤ × Option OpendirContext)
  unfolding dir_on_branch
  opendir_context path =
      with_buffer (enomem, none)
        (with_buffer (enomem, none)
          (do
            rw ← dir_on_branch path must_read_write
            ro ← dir_on_branch path must_read_only
            got ← kmalloc
            pure (
                if got
                then (
                  pos 0,
                  some (record {
                    files = [];
                    whiteouts = [];
                    ro_len = ro.0;
                    ro_path = ro.1;
                    rw_len = rw.0;
                    rw_path = rw.1;
                  }),
                )
                else (enomem, none))))

  -- The status and `file->private_data`.
  unfoldable pub hepunion_opendir : K.Inode → K.File → M (ℤ × Option OpendirContext)
  unfolding path_to_open opendir_context
  hepunion_opendir inode file = in_buffers (do
    validate_inode inode
    path ← path_to_open (K.f_dentry file)
    found ← find_present b path [] 0
    if is_neg found.0 then pure (found.0, none) else opendir_context path)

module _ ⦃K : Kernel⦄ (b : Branches) (rounds : ℕ) where
  -- The part of `hepunion_open` behind `find_file`, for the mode of the file. A copy that cannot be
  -- used is removed.
  unfoldable pub open_found : List ℕ → List ℕ → Bool → ℕ → ℕ → M (ℤ × Option K.File)
  open_found path real_path copied flags mode = do
    allowed ← (if copied then can_remove b path real_path else pure (pos 0))
    if is_neg allowed then (do unlink_copyup b path real_path; pure (allowed, none)) else do
      opened ← dbg_open_2 b real_path flags mode
      on_ptr opened (λ real_file. pure (pos 0, some real_file))
          (λ err. do
            (if copied then unlink_copyup b path real_path else pure (pos 0))
            pure (err, none))

  -- The status and `file->private_data`. `flags` and `mode` are `f_flags` and `f_mode`.
  unfoldable pub hepunion_open : K.Inode → K.File → ℕ → ℕ → M (ℤ × Option K.File)
  unfolding path_to_open open_found
  hepunion_open inode file flags mode = in_buffers (do
    validate_inode inode
    path ← path_to_open b (K.f_dentry file)
    origin ←
        find_file b rounds path []
          (if bit_and flags open_for_writing == 0 then 0 else create_copyup_flag)
    if is_neg origin.0
        then pure (origin.0, none)
        else open_found path origin.1 (is_copyup origin.0) flags mode)

module _ ⦃K : Kernel⦄ where
  unfoldable hepunion_close : K.Inode → K.File → M ℤ
  hepunion_close inode real_file = do validate_inode inode; call (λ c. K.filp_close real_file)

  -- The answer of the file of the branch, and the new position.
  unfoldable hepunion_llseek : K.File → ℤ → ℕ → M (ℤ × ℤ)
  hepunion_llseek real_file offset origin = do
    ret ← call (λ c. K.vfs_llseek real_file offset origin)
    f_pos ← ask (K.f_pos real_file)
    pure (ret, f_pos)

  -- The answer of the file of the branch with the bytes read, the new offset, and the new position.
  unfoldable hepunion_read : K.File → ℕ → ℤ → M ((ℤ × List ℕ × ℤ) × ℤ)
  hepunion_read real_file count offset = do
    ret ← call (K.vfs_read_at real_file count offset)
    f_pos ← ask (K.f_pos real_file)
    pure (ret, f_pos)

  unfoldable hepunion_write : K.File → List ℕ → ℤ → M ((ℤ × ℤ) × ℤ)
  hepunion_write real_file buf offset = do
    ret ← call (K.vfs_write_at real_file buf offset)
    f_pos ← ask (K.f_pos real_file)
    pure (ret, f_pos)
