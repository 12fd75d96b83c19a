-- ===== src/Ops/Buffers.antt =====
-- fs/hepunion/opts.c: the handlers and the memory and shared buffers that they use.
use hepunion.Base.{◌≡◌, ℕ, false, List, arith}
use hepunion.Kernel.{Kernel, Kstat, Iattr}
use hepunion.Exec.{World, M, pure, ◌>>=◌, will_use_buffers, release_buffers}
use hepunion.Exec.Balanced.{SameBuffers, IsBalanced, balanced_rules}
use hepunion.SpecialPath.{Branches}
use hepunion.Paths.Balanced.{
  get_dentry_path-IsBalanced, get_inode_path-IsBalanced, get_relative_path_for_file-IsBalanced,
}
use hepunion.Tree.Balanced.{find_present-IsBalanced}
use hepunion.Copyup.Balanced.{find_file-IsBalanced}
use hepunion.Metadata.Balanced.{get_file_attr-IsBalanced}
use hepunion.Lookup.Balanced.{can_access-IsBalanced}
use hepunion.Ops.{in_buffers}
use hepunion.Ops.Balanced.{
  validate_inode-IsBalanced, validate_dentry-IsBalanced, validate_both-IsBalanced,
}
use hepunion.Ops.Balanced.{
  for_new_name-IsBalanced, create_file-IsBalanced, on_rw-IsBalanced, make_dir-IsBalanced,
}
use hepunion.Ops.Balanced.{make_node-IsBalanced, make_symlink-IsBalanced, make_link-IsBalanced}
use hepunion.Ops.Served.{
  unlink_by_branch-IsBalanced, rmdir_by_branch-IsBalanced, set_attr_by_branch-IsBalanced,
}
use hepunion.Ops.Served.{add_found-IsBalanced, path_to_open-IsBalanced, open_found-IsBalanced}
use hepunion.Ops.Make.{
  hepunion_create, hepunion_mkdir, hepunion_mknod, hepunion_symlink, hepunion_link,
}
use hepunion.Ops.Remove.{hepunion_unlink, hepunion_rmdir}
use hepunion.Ops.Attr.{hepunion_getattr, hepunion_permission, hepunion_setattr}
use hepunion.Ops.Open.{hepunion_lookup, hepunion_open}

module _ ⦃K : Kernel⦄ where
  -- From buffers that are not in use, the command ends with buffers that are not in use and with
  -- the number of allocations as it was.
  pub record IsServed {A : Type 0} (m : M A) : Type 0 where
    pub at : (w : World) → w.buffers_in_use ≡ false → SameBuffers w (m w).1

  in_buffers-IsServed : {A : Type 0} (m : M A) → IsBalanced m → IsServed (in_buffers m)
  unfolding in_buffers ◌>>=◌ pure will_use_buffers release_buffers
  in_buffers-IsServed m bm = record { at = λ w free. ground (arith, bm.at (will_use_buffers w).1) }

  -- Each handler is such a command, for all arguments that the VFS may give to it.
  pub record AllServed (b : Branches) (rounds : ℕ) : Type 0 where
    pub create :
        (dir : K.Inode) (dentry : K.Dentry) (mode : ℕ)
        → IsServed (hepunion_create b dir dentry mode)
    pub mkdir :
        (dir : K.Inode) (dentry : K.Dentry) (mode : ℕ) → IsServed (hepunion_mkdir b dir dentry mode)
    pub mknod :
        (dir : K.Inode) (dentry : K.Dentry) (mode rdev : ℕ)
        → IsServed (hepunion_mknod b dir dentry mode rdev)
    pub symlink :
        (dir : K.Inode) (dentry : K.Dentry) (symname : List ℕ)
        → IsServed (hepunion_symlink b dir dentry symname)
    pub link :
        (old_dentry : K.Dentry) (dir : K.Inode) (dentry : K.Dentry)
        → IsServed (hepunion_link b old_dentry dir dentry)
    pub unlink : (dir : K.Inode) (dentry : K.Dentry) → IsServed (hepunion_unlink b dir dentry)
    pub rmdir : (dir : K.Inode) (dentry : K.Dentry) → IsServed (hepunion_rmdir b dir dentry)
    pub getattr : (dentry : K.Dentry) (kstbuf : Kstat) → IsServed (hepunion_getattr b dentry kstbuf)
    pub permission : (inode : K.Inode) (mask : ℕ) → IsServed (hepunion_permission b inode mask)
    pub setattr : (dentry : K.Dentry) (attr : Iattr) → IsServed (hepunion_setattr b dentry attr)
    pub lookup : (dir : K.Inode) (dentry : K.Dentry) → IsServed (hepunion_lookup b dir dentry)
    pub open_file :
        (inode : K.Inode) (file : K.File) (flags mode : ℕ)
        → IsServed (hepunion_open b rounds inode file flags mode)

module _ ⦃K : Kernel⦄ (b : Branches) where
  hepunion_create-IsServed :
      (dir : K.Inode) (dentry : K.Dentry) (mode : ℕ) → IsServed (hepunion_create b dir dentry mode)
  unfolding hepunion_create
  hepunion_create-IsServed dir dentry mode =
      search
        (
          in_buffers-IsServed, balanced_rules, validate_both-IsBalanced, for_new_name-IsBalanced,
          create_file-IsBalanced,
        )
        depth 24

  hepunion_mkdir-IsServed :
      (dir : K.Inode) (dentry : K.Dentry) (mode : ℕ) → IsServed (hepunion_mkdir b dir dentry mode)
  unfolding hepunion_mkdir
  hepunion_mkdir-IsServed dir dentry mode =
      search
        (
          in_buffers-IsServed, balanced_rules, validate_both-IsBalanced, for_new_name-IsBalanced,
          on_rw-IsBalanced, make_dir-IsBalanced,
        )
        depth 30

  hepunion_mknod-IsServed :
      (dir : K.Inode) (dentry : K.Dentry) (mode rdev : ℕ)
      → IsServed (hepunion_mknod b dir dentry mode rdev)
  unfolding hepunion_mknod
  hepunion_mknod-IsServed dir dentry mode rdev =
      search
        (
          in_buffers-IsServed, balanced_rules, validate_both-IsBalanced, for_new_name-IsBalanced,
          make_node-IsBalanced,
        )
        depth 30

  hepunion_symlink-IsServed :
      (dir : K.Inode) (dentry : K.Dentry) (symname : List ℕ)
      → IsServed (hepunion_symlink b dir dentry symname)
  unfolding hepunion_symlink
  hepunion_symlink-IsServed dir dentry symname =
      search
        (
          in_buffers-IsServed, balanced_rules, validate_both-IsBalanced, for_new_name-IsBalanced,
          on_rw-IsBalanced, make_symlink-IsBalanced,
        )
        depth 30

  hepunion_link-IsServed :
      (old_dentry : K.Dentry) (dir : K.Inode) (dentry : K.Dentry)
      → IsServed (hepunion_link b old_dentry dir dentry)
  unfolding hepunion_link
  hepunion_link-IsServed old_dentry dir dentry =
      search
        (
          in_buffers-IsServed, balanced_rules, validate_inode-IsBalanced,
          validate_dentry-IsBalanced, get_dentry_path-IsBalanced, find_present-IsBalanced,
          for_new_name-IsBalanced, make_link-IsBalanced,
        )
        depth 30

  hepunion_unlink-IsServed :
      (dir : K.Inode) (dentry : K.Dentry) → IsServed (hepunion_unlink b dir dentry)
  unfolding hepunion_unlink
  hepunion_unlink-IsServed dir dentry =
      search
        (
          in_buffers-IsServed, balanced_rules, validate_both-IsBalanced,
          get_relative_path_for_file-IsBalanced, find_present-IsBalanced,
          unlink_by_branch-IsBalanced,
        )
        depth 30

  hepunion_rmdir-IsServed :
      (dir : K.Inode) (dentry : K.Dentry) → IsServed (hepunion_rmdir b dir dentry)
  unfolding hepunion_rmdir
  hepunion_rmdir-IsServed dir dentry =
      search
        (
          in_buffers-IsServed, balanced_rules, validate_both-IsBalanced,
          get_relative_path_for_file-IsBalanced, find_present-IsBalanced,
          rmdir_by_branch-IsBalanced,
        )
        depth 30

  hepunion_getattr-IsServed :
      (dentry : K.Dentry) (kstbuf : Kstat) → IsServed (hepunion_getattr b dentry kstbuf)
  unfolding hepunion_getattr
  hepunion_getattr-IsServed dentry kstbuf =
      search
        (
          in_buffers-IsServed, balanced_rules, validate_dentry-IsBalanced,
          get_dentry_path-IsBalanced, get_file_attr-IsBalanced,
        )
        depth 30

  hepunion_permission-IsServed :
      (inode : K.Inode) (mask : ℕ) → IsServed (hepunion_permission b inode mask)
  unfolding hepunion_permission
  hepunion_permission-IsServed inode mask =
      search
        (
          in_buffers-IsServed, balanced_rules, validate_inode-IsBalanced, get_inode_path-IsBalanced,
          find_present-IsBalanced, can_access-IsBalanced,
        )
        depth 30

  hepunion_setattr-IsServed :
      (dentry : K.Dentry) (attr : Iattr) → IsServed (hepunion_setattr b dentry attr)
  unfolding hepunion_setattr
  hepunion_setattr-IsServed dentry attr =
      search
        (
          in_buffers-IsServed, balanced_rules, validate_dentry-IsBalanced,
          get_dentry_path-IsBalanced, find_present-IsBalanced, set_attr_by_branch-IsBalanced,
        )
        depth 30

  hepunion_lookup-IsServed :
      (dir : K.Inode) (dentry : K.Dentry) → IsServed (hepunion_lookup b dir dentry)
  unfolding hepunion_lookup
  hepunion_lookup-IsServed dir dentry =
      search
        (
          in_buffers-IsServed, balanced_rules, validate_inode-IsBalanced,
          get_relative_path_for_file-IsBalanced, find_present-IsBalanced, add_found-IsBalanced,
        )
        depth 30

module _ ⦃K : Kernel⦄ (b : Branches) (rounds : ℕ) where
  hepunion_open-IsServed :
      (inode : K.Inode) (file : K.File) (flags mode : ℕ)
      → IsServed (hepunion_open b rounds inode file flags mode)
  unfolding hepunion_open
  hepunion_open-IsServed inode file flags mode =
      search
        (
          in_buffers-IsServed, balanced_rules, validate_inode-IsBalanced, path_to_open-IsBalanced,
          find_file-IsBalanced, open_found-IsBalanced,
        )
        depth 30

  -- Called with the shared buffers not in use, each of the handlers for create, mkdir, mknod,
  -- symlink, link, unlink, rmdir, getattr, permission, setattr, lookup and open ends, on every path
  -- through it, with the shared buffers not in use and with as many live allocations as before.
  pub handlers_served : AllServed b rounds
  handlers_served = record {
    create = hepunion_create-IsServed b;
    mkdir = hepunion_mkdir-IsServed b;
    mknod = hepunion_mknod-IsServed b;
    symlink = hepunion_symlink-IsServed b;
    link = hepunion_link-IsServed b;
    unlink = hepunion_unlink-IsServed b;
    rmdir = hepunion_rmdir-IsServed b;
    getattr = hepunion_getattr-IsServed b;
    permission = hepunion_permission-IsServed b;
    setattr = hepunion_setattr-IsServed b;
    lookup = hepunion_lookup-IsServed b;
    open_file = hepunion_open-IsServed;
  }
