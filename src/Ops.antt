-- ===== src/Ops.antt =====
-- fs/hepunion/opts.c: what the handlers of the VFS share. A handler works in the two buffers of the
-- super block, which it takes first and gives back on every way out.
pub mod Statfs
pub mod Balanced
pub mod Served
pub mod Make
pub mod Remove
pub mod Attr
pub mod Open
pub mod Buffers
pub mod Helpers
pub mod Rmdir
pub mod Readers
pub mod Opendir
use hepunion.Base.{ℕ, ℤ, Bool, true, false, not, ◌&&◌, List, if◌then◌else◌}
use hepunion.Kernel.{Kernel, InodeInit}
use hepunion.Exec.{M, pure, ◌>>=◌, ◌>>◌, ask, oops, call_, will_use_buffers, release_buffers}
use hepunion.Exec.{current_fsuid, current_fsgid}
use hepunion.Hash.{name_to_ino}

module _ ⦃K : Kernel⦄ where
  -- `validate_inode(i)` and `validate_dentry(d)`
  unfoldable pub validate_inode : K.Inode → M (Unit {0})
  validate_inode inode = do magic ← ask (K.inode_magic inode); if magic then pure tt else oops tt

  unfoldable pub validate_dentry : K.Dentry → M (Unit {0})
  validate_dentry dentry = do
    magic ← ask (K.dentry_magic dentry)
    if magic then pure tt else oops tt

  -- `will_use_buffers(context)` first, and `release_buffers(context)` on each way out.
  unfoldable pub in_buffers : {A : Type 0} → M A → M A
  in_buffers m = do will_use_buffers; answer ← m; release_buffers; pure answer

  -- The two checks of a handler for a name in a directory.
  unfoldable pub validate_both : K.Inode → K.Dentry → M (Unit {0})
  unfolding validate_inode validate_dentry
  validate_both dir dentry = do validate_inode dir; validate_dentry dentry

  -- The end of `hepunion_create` and `hepunion_mkdir` for an inode that could be had.
  unfoldable pub fill_inode : K.Inode → K.Dentry → K.Inode → List ℕ → ℕ → Bool → M (Unit {0})
  unfolding name_to_ino
  fill_inode dir dentry inode path mode is_dir = do
    uid ← current_fsuid
    gid ← current_fsgid
    call_ (
        K.add_inode dir dentry inode (record {
          i_uid = uid;
          i_gid = gid;
          i_mode = mode;
          i_number = name_to_ino path;
          is_dir = is_dir;
        }))
