-- ===== src/View/Writes.antt =====
-- What the driver relies on of the kernel's calls that change a file system, as an interface.
use hepunion.Base.{ℕ, ◌≡◌, ◌≢◌, ℤ, is_neg, is_zero, true, false, ptr, err_ptr, List}
use hepunion.Kernel.{Kernel, Iattr, InodeInit, Creds}
use hepunion.Workers.{creat_flags}
use hepunion.View.{Vfs}

module _ ⦃K : Kernel⦄ ⦃V : Vfs⦄ where
  -- `names` is the place of a dentry. What is created stands at its own place and nowhere else,
  -- what is removed is gone, and the other calls leave the places as they are.
  pub record VfsWrites : Type 1 where
    pub names : K.Dentry → V.Entry
    pub kern_path_names :
        (p : List ℕ) (f : ℕ) (c : Creds) (s : K.State) (d : K.Dentry)
        → (K.kern_path p f c s).0 ≡ ptr d
        → names d ≡ V.entry p
    pub create_names :
        (p : List ℕ) (f : ℕ) (c : Creds) (s : K.State) (d : K.Dentry × K.Dentry)
        → (K.kern_path_create p f c s).0 ≡ ptr d
        → names d.1 ≡ V.entry p
    pub create_keeps :
        (p : List ℕ) (f : ℕ) (c : Creds) (s : K.State) (e : V.Entry)
        → V.has (K.kern_path_create p f c s).1 e ≡ V.has s e
    pub security_keeps :
        (d d' : K.Dentry) (m : ℕ) (c : Creds) (s : K.State) (e : V.Entry)
        → V.has (K.security_path_mkdir d d' m c s).1 e ≡ V.has s e
    pub done_keeps :
        (d d' : K.Dentry) (s : K.State) (e : V.Entry)
        → V.has (K.done_path_create d d' s) e ≡ V.has s e
    pub mkdir_adds :
        (i : K.Inode) (d : K.Dentry) (m : ℕ) (c : Creds) (s : K.State) (e : V.Entry)
        → names d ≢ e
        → V.has s e ≡ false
        → V.has (K.vfs_mkdir i d m c s).1 e ≡ false
    pub creat_makes :
        (p : List ℕ) (m : ℕ) (c : Creds) (s : K.State) (f : K.File)
        → (K.filp_open p creat_flags m c s).0 ≡ ptr f
        → V.has (K.filp_open p creat_flags m c s).1 (V.entry p) ≡ true
    pub creat_fails :
        (p : List ℕ) (m : ℕ) (c : Creds) (s : K.State) (e : ℤ)
        → (K.filp_open p creat_flags m c s).0 ≡ err_ptr e
        → is_neg e ≡ true
    pub creat_adds :
        (p : List ℕ) (m : ℕ) (c : Creds) (s : K.State) (e : V.Entry)
        → V.entry p ≢ e
        → V.has s e ≡ false
        → V.has (K.filp_open p creat_flags m c s).1 e ≡ false
    pub close_keeps :
        (f : K.File) (s : K.State) (e : V.Entry) → V.has (K.filp_close f s).1 e ≡ V.has s e
    pub unlink_removes :
        (i : K.Inode) (d : K.Dentry) (c : Creds) (s : K.State)
        → is_neg (K.vfs_unlink i d c s).0 ≡ false
        → V.has (K.vfs_unlink i d c s).1 (names d) ≡ false
    pub unlink_adds :
        (i : K.Inode) (d : K.Dentry) (c : Creds) (s : K.State) (e : V.Entry)
        → V.has s e ≡ false
        → V.has (K.vfs_unlink i d c s).1 e ≡ false
    pub unlink_keeps :
        (i : K.Inode) (d : K.Dentry) (c : Creds) (s : K.State) (e : V.Entry)
        → names d ≢ e
        → V.has (K.vfs_unlink i d c s).1 e ≡ V.has s e
    pub rmdir_adds :
        (i : K.Inode) (d : K.Dentry) (c : Creds) (s : K.State) (e : V.Entry)
        → V.has s e ≡ false
        → V.has (K.vfs_rmdir i d c s).1 e ≡ false
    pub notify_change_keeps :
        (d : K.Dentry) (a : Iattr) (c : Creds) (s : K.State) (e : V.Entry)
        → V.has (K.notify_change d a c s).1 e ≡ V.has s e
    pub dget_keeps : (d : K.Dentry) (s : K.State) (e : V.Entry) → V.has (K.dget d s) e ≡ V.has s e
    pub dput_keeps : (d : K.Dentry) (s : K.State) (e : V.Entry) → V.has (K.dput d s) e ≡ V.has s e
    pub lock_keeps :
        (i : K.Inode) (s : K.State) (e : V.Entry) → V.has (K.inode_lock i s) e ≡ V.has s e
    pub unlock_keeps :
        (i : K.Inode) (s : K.State) (e : V.Entry) → V.has (K.inode_unlock i s) e ≡ V.has s e
    pub drop_nlinks_keeps :
        (i : K.Inode) (d : K.Dentry) (s : K.State) (e : V.Entry)
        → V.has (K.drop_nlinks i d s) e ≡ V.has s e
    pub new_inode_keeps : (s : K.State) (e : V.Entry) → V.has (K.new_inode s).1 e ≡ V.has s e
    pub add_inode_keeps :
        (i : K.Inode) (d : K.Dentry) (i' : K.Inode) (a : InodeInit) (s : K.State) (e : V.Entry)
        → V.has (K.add_inode i d i' a s) e ≡ V.has s e
    pub create_fails :
        (p : List ℕ) (f : ℕ) (c : Creds) (s : K.State) (e : ℤ)
        → (K.kern_path_create p f c s).0 ≡ err_ptr e
        → is_neg e ≡ true
    pub symlink_refused :
        (d d' : K.Dentry) (t : List ℕ) (c : Creds) (s : K.State)
        → is_zero (K.security_path_symlink d d' t c s).0 ≡ false
        → is_neg (K.security_path_symlink d d' t c s).0 ≡ true
    pub symlink_makes :
        (i : K.Inode) (d : K.Dentry) (t : List ℕ) (c : Creds) (s : K.State)
        → is_neg (K.vfs_symlink i d t c s).0 ≡ false
        → V.has (K.vfs_symlink i d t c s).1 (names d) ≡ true
    pub link_refused :
        (o d d' : K.Dentry) (c : Creds) (s : K.State)
        → is_zero (K.security_path_link o d d' c s).0 ≡ false
        → is_neg (K.security_path_link o d d' c s).0 ≡ true
    pub link_makes :
        (o : K.Dentry) (i : K.Inode) (d : K.Dentry) (c : Creds) (s : K.State)
        → is_neg (K.vfs_link o i d c s).0 ≡ false
        → V.has (K.vfs_link o i d c s).1 (names d) ≡ true
