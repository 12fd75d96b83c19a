-- ===== src/Tests/Memory.antt =====
-- A kernel whose file system is a list of paths with their attributes, on which the model runs,
-- and the data that the tests share.
use hepunion.Base.{ℕ, ℤ, pos, Ptr, ptr, err_ptr, true, false, Option, none, some, List}
use hepunion.Base.{[], ◌∷◌, same, take, if◌then◌else◌}
use hepunion.Base.Errno.{enoent, eexist}
use hepunion.Base.{drop, length}
use hepunion.CString.{strrchr}
use Prim.Native.String.{String}
use Prim.Native.Char.{code}
use hepunion.Exec.{World}
use hepunion.SpecialPath.{Branches, IsMeasured}
use hepunion.Base.{ℕ, refl, pos}
use hepunion.Kernel.{Kstatfs, Kernel, Kstat, Iattr, Creds}
use hepunion.Names.{slash}

pub record Node : Type 0 where
  pub path : List ℕ
  pub stat : Kstat

abbrev pub stat_of : ℕ → ℕ → ℕ → Kstat
stat_of mode uid gid = record {
  mode = mode;
  uid = uid;
  gid = gid;
  size = 0;
  rdev = 0;
  ino = 0;
  atime = 0;
  mtime = 0;
  ctime = 0;
}

abbrev pub find_node : List Node → List ℕ → Option Kstat
find_node [] p = none
find_node (n ∷ ns) p = if same n.path p then some n.stat else find_node ns p

abbrev pub remove_node : List Node → List ℕ → List Node
remove_node [] p = []
remove_node (n ∷ ns) p = let rest = remove_node ns p in if same n.path p then rest else n ∷ rest

abbrev pub add_node : List ℕ → ℕ → Creds → List Node → List Node
add_node p mode c ns = record { path = p; stat = stat_of mode c.fsuid c.fsgid } ∷ ns

abbrev pub change : Iattr → List ℕ → List Node → List Node
change a p [] = []
change a p (n ∷ ns) =
    (if same n.path p then record n { stat = stat_of a.ia_mode a.ia_uid a.ia_gid } else n)
    ∷ change a p ns

abbrev dir_of : List ℕ → List ℕ
dir_of p = elim (strrchr p slash) [ none ↦ [] | some off ↦ take off p ]

abbrev pub look : List ℕ → List Node → Ptr (List ℕ)
look p ns = elim (find_node ns p) [ none ↦ err_ptr enoent | some st ↦ ptr p ]

abbrev getattr : List ℕ → List Node → ℤ × Kstat
getattr p ns = elim (find_node ns p) [ none ↦ (enoent, stat_of 0 0 0) | some st ↦ (pos 0, st) ]

abbrev pub create : List ℕ → List Node → Ptr (List ℕ × List ℕ)
create p ns = elim (find_node ns p) [ none ↦ ptr (dir_of p, p) | some st ↦ err_ptr eexist ]

abbrev no_statfs : Kstatfs
no_statfs = record {
  f_type = 0;
  f_bsize = 0;
  f_blocks = 0;
  f_bfree = 0;
  f_bavail = 0;
  f_files = 0;
  f_ffree = 0;
  f_fsid = (0, 0);
  f_namelen = 0;
}

instance abbrev pub memory : Kernel
memory = record {
  State = List Node;
  Dentry = List ℕ;
  File = List ℕ;
  Inode = List ℕ;
  kmalloc = λ s. (true, s);
  kern_path = λ p f c s. (look p s, s);
  path_put = λ d s. s;
  dget = λ d s. s;
  dput = λ d s. s;
  vfs_getattr = λ d c s. (getattr d s, s);
  retry_estale = λ e f. false;
  parent_inode = λ d s. some (dir_of d);
  d_inode = λ d s. d;
  inode_lock = λ i s. s;
  inode_unlock = λ i s. s;
  vfs_unlink = λ i d c s. (pos 0, remove_node s d);
  vfs_rmdir = λ i d c s. (pos 0, remove_node s d);
  notify_change = λ d a c s. (pos 0, change a d s);
  filp_open =
      λ p f m c s. elim (find_node s p) [ none ↦ (ptr p, add_node p m c s) | some st ↦ (ptr p, s) ];
  filp_close = λ f s. (pos 0, s);
  f_dentry = λ f. f;
  dir_entries = λ f c s. ([], s);
  vfs_readdir_result = λ f e s. e;
  kern_path_create = λ p f c s. (create p s, s);
  done_path_create = λ d e s. s;
  is_posixacl = λ i. false;
  current_umask = λ s. 0o22;
  security_path_mkdir = λ d e m c s. (pos 0, s);
  security_path_mknod = λ d e m v c s. (pos 0, s);
  security_path_symlink = λ d e t c s. (pos 0, s);
  security_path_link = λ o d e c s. (pos 0, s);
  vfs_mkdir = λ i d m c s. (pos 0, add_node d m c s);
  vfs_create = λ i d m c s. (pos 0, add_node d m c s);
  vfs_mknod = λ i d m v c s. (pos 0, add_node d m c s);
  vfs_symlink = λ i d t c s. (pos 0, add_node d 0o120777 c s);
  vfs_link = λ o i d c s. (pos 0, add_node d 0o100644 c s);
  new_decode_dev = λ v. v;
  same_mount = λ a b. true;
  vfs_read = λ f n c s. ((pos 0, []), s);
  vfs_write = λ f bytes c s. (pos (length bytes), s);
  vfs_llseek = λ f off origin s. (off, s);
  f_pos = λ f s. pos 0;
  has_readlink = λ i s. true;
  security_inode_readlink = λ d c s. (pos 0, s);
  touch_atime = λ d s. s;
  readlink = λ d n c s. ((pos 0, []), s);
  d_names = λ d s. drop 1 d ∷ [];
  d_name = λ d s. drop 1 d;
  i_dentry = λ i s. i ∷ [];
  i_ino = λ i s. 0;
  inode_magic = λ i s. true;
  dentry_magic = λ d s. true;
  behind = λ s. [];
  fresh = λ s. [];
  left_over = λ s. [];
  new_inode = λ s. (some [], s);
  add_inode = λ d e i init s. s;
  drop_nlinks = λ d e s. s;
  mark_dentry = λ d s. s;
  set_operations = λ d s. s;
  d_add = λ d i s. s;
  iget_locked = λ n s. (some [], s);
  is_negative = λ d s. false;
  branch_super =
      λ f s. record { s_blocksize = 4096; s_blocksize_bits = 12; atime = 1; mtime = 2; ctime = 3 };
  init_root = λ i init s. s;
  d_make_root = λ i s. (some i, s);
  vfs_read_at = λ f n off c s. ((pos 0, [], off), s);
  vfs_write_at = λ f buf off c s. ((pos (length buf), off), s);
  vfs_statfs = λ f s. ((pos 0, no_statfs), s);
}

abbrev pub bytes : String → List ℕ
bytes String.[] = []
bytes (String.◌∷◌ c s) = code c ∷ bytes s

abbrev pub branches : Branches
branches = record {
  read_write_branch = bytes "/rw";
  rw_len = 3;
  read_only_branch = bytes "/ro";
  ro_len = 3;
}

abbrev pub measured : IsMeasured branches
measured = record { rw = refl; ro = refl }

abbrev pub world : World ⦃K = memory⦄
world = record {
  kernel = record { path = bytes "/ro/a"; stat = stat_of 0o100644 0 0 } ∷ [];
  fsuid = 1000;
  fsgid = 100;
  uid = 0;
  gid = 0;
  id_lock = pos 0;
  buffers_in_use = false;
  live = 0;
  bug = false;
}
