-- ===== src/Kernel.antt =====
-- What the driver takes from the Linux kernel (3.8, the branches for versions other than 2.6.18):
-- the VFS, the allocator and the credentials' effect, as an interface. Each operation gets the
-- file system identity under which it runs, where the kernel looks at it, and the kernel's state.
use hepunion.Base.{ℕ, ℤ, Ptr, Bool, Option, List}

-- `struct kstat`
pub record Kstat : Type 0 where
  pub mode : ℕ
  pub uid : ℕ
  pub gid : ℕ
  pub size : ℕ
  pub rdev : ℕ
  pub ino : ℕ
  pub atime : ℕ
  pub mtime : ℕ
  pub ctime : ℕ

-- `struct iattr`
pub record Iattr : Type 0 where
  pub ia_valid : ℕ
  pub ia_mode : ℕ
  pub ia_uid : ℕ
  pub ia_gid : ℕ
  pub ia_size : ℕ
  pub ia_atime : ℕ
  pub ia_mtime : ℕ
  pub ia_ctime : ℕ

-- An entry as a `filldir` callback gets it.
pub record Dirent : Type 0 where
  pub name : List ℕ
  pub d_type : ℕ

-- `fsuid` and `fsgid` of the calling process.
pub record Creds : Type 0 where
  pub fsuid : ℕ
  pub fsgid : ℕ

-- What the driver writes into a new inode beside the times and the tables of operations.
pub record InodeInit : Type 0 where
  pub i_uid : ℕ
  pub i_gid : ℕ
  pub i_mode : ℕ
  pub i_number : ℕ
  pub is_dir : Bool

-- What `get_branches` reads of the super block under a branch, with the times of its root.
pub record BranchSuper : Type 0 where
  pub s_blocksize : ℕ
  pub s_blocksize_bits : ℕ
  pub atime : ℕ
  pub mtime : ℕ
  pub ctime : ℕ

-- What it writes into the inode of the root beside the tables of operations.
pub record RootInit : Type 0 where
  pub i_number : ℕ
  pub i_mode : ℕ
  pub i_atime : ℕ
  pub i_mtime : ℕ
  pub i_ctime : ℕ
  pub nlink : ℕ

-- `struct kstatfs`
pub record Kstatfs : Type 0 where
  pub f_type : ℕ
  pub f_bsize : ℕ
  pub f_blocks : ℕ
  pub f_bfree : ℕ
  pub f_bavail : ℕ
  pub f_files : ℕ
  pub f_ffree : ℕ
  pub f_fsid : ℕ × ℕ
  pub f_namelen : ℕ

pub record Kernel : Type 1 where
  pub State : Type 0
  pub Dentry : Type 0
  pub File : Type 0
  pub Inode : Type 0
  -- whether the allocation succeeds
  pub kmalloc : State → Bool × State
  pub kern_path : List ℕ → ℕ → Creds → State → Ptr Dentry × State
  pub path_put : Dentry → State → State
  pub dget : Dentry → State → State
  pub dput : Dentry → State → State
  pub vfs_getattr : Dentry → Creds → State → (ℤ × Kstat) × State
  pub retry_estale : ℤ → ℕ → Bool
  -- `dentry->d_parent->d_inode`, which may be null, and `dentry->d_inode`
  pub parent_inode : Dentry → State → Option Inode
  pub d_inode : Dentry → State → Inode
  pub inode_lock : Inode → State → State
  pub inode_unlock : Inode → State → State
  pub vfs_unlink : Inode → Dentry → Creds → State → ℤ × State
  pub vfs_rmdir : Inode → Dentry → Creds → State → ℤ × State
  pub notify_change : Dentry → Iattr → Creds → State → ℤ × State
  pub filp_open : List ℕ → ℕ → ℕ → Creds → State → Ptr File × State
  pub filp_close : File → State → ℤ × State
  pub f_dentry : File → Dentry
  -- the entries that `vfs_readdir` hands to its callback, and what it returns when the last call
  -- of the callback returned the given value, an error of its own or a 0 among it
  pub dir_entries : File → Creds → State → List Dirent × State
  pub vfs_readdir_result : File → ℤ → State → ℤ
  -- the parent directory, locked, and a new entry in it
  pub kern_path_create : List ℕ → ℕ → Creds → State → Ptr (Dentry × Dentry) × State
  pub done_path_create : Dentry → Dentry → State → State
  pub is_posixacl : Inode → Bool
  pub current_umask : State → ℕ
  pub security_path_mkdir : Dentry → Dentry → ℕ → Creds → State → ℤ × State
  pub security_path_mknod : Dentry → Dentry → ℕ → ℕ → Creds → State → ℤ × State
  pub security_path_symlink : Dentry → Dentry → List ℕ → Creds → State → ℤ × State
  pub security_path_link : Dentry → Dentry → Dentry → Creds → State → ℤ × State
  pub vfs_mkdir : Inode → Dentry → ℕ → Creds → State → ℤ × State
  pub vfs_create : Inode → Dentry → ℕ → Creds → State → ℤ × State
  pub vfs_mknod : Inode → Dentry → ℕ → ℕ → Creds → State → ℤ × State
  pub vfs_symlink : Inode → Dentry → List ℕ → Creds → State → ℤ × State
  pub vfs_link : Dentry → Inode → Dentry → Creds → State → ℤ × State
  pub new_decode_dev : ℕ → ℕ
  -- whether two lookups ended on one mount
  pub same_mount : Dentry → Dentry → Bool
  -- `vfs_read` of so many bytes and `vfs_write` at the position of the file, and that position
  pub vfs_read : File → ℕ → Creds → State → (ℤ × List ℕ) × State
  pub vfs_write : File → List ℕ → Creds → State → ℤ × State
  pub vfs_llseek : File → ℤ → ℕ → State → ℤ × State
  pub f_pos : File → State → ℤ
  -- `inode->i_op->readlink` with a size, if there is one, and what goes before it
  pub has_readlink : Inode → State → Bool
  pub security_inode_readlink : Dentry → Creds → State → ℤ × State
  pub touch_atime : Dentry → State → State
  pub readlink : Dentry → ℕ → Creds → State → (ℤ × List ℕ) × State
  -- the names from a dentry up to the one below the root, its own first, and its own name
  pub d_names : Dentry → State → List (List ℕ)
  pub d_name : Dentry → State → List ℕ
  -- the dentries of an inode, and its number
  pub i_dentry : Inode → State → List Dentry
  pub i_ino : Inode → State → ℕ
  -- whether `i_private` and `d_fsdata` hold the driver's magic number
  pub inode_magic : Inode → State → Bool
  pub dentry_magic : Dentry → State → Bool
  -- bytes that the driver does not control: behind an allocation, in a fresh one, and those that
  -- an earlier call left in a shared buffer
  pub behind : State → List ℕ
  pub fresh : State → List ℕ
  pub left_over : State → List ℕ
  -- a new inode; and its attributes, number of links and place in hash and dentry, with the
  -- directory's number of links
  pub new_inode : State → Option Inode × State
  pub add_inode : Inode → Dentry → Inode → InodeInit → State → State
  pub drop_nlinks : Inode → Dentry → State → State
  -- `d_fsdata` set to the magic number and `d_op` of a dentry that is looked up, `d_add` and
  -- `iget_locked`
  pub mark_dentry : Dentry → State → State
  pub set_operations : Dentry → State → State
  pub d_add : Dentry → Option Inode → State → State
  pub iget_locked : ℕ → State → Option Inode × State
  -- whether `d_inode` of a dentry is null
  pub is_negative : Dentry → State → Bool
  -- the super block under an open file; the root of the union
  pub branch_super : File → State → BranchSuper
  pub init_root : Inode → RootInit → State → State
  pub d_make_root : Inode → State → Option Dentry × State
  -- `vfs_read` of so many bytes and `vfs_write` at an offset, with the new offset
  pub vfs_read_at : File → ℕ → ℤ → Creds → State → (ℤ × List ℕ × ℤ) × State
  pub vfs_write_at : File → List ℕ → ℤ → Creds → State → (ℤ × ℤ) × State
  pub vfs_statfs : File → State → (ℤ × Kstatfs) × State
