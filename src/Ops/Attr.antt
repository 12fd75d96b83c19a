-- ===== src/Ops/Attr.antt =====
-- fs/hepunion/opts.c: the handlers for attributes and rights (`hepunion_getattr`,
-- `hepunion_permission`, `hepunion_setattr`, `hepunion_revalidate`).
use hepunion.Base.{ℕ, zero, suc, ℤ, pos, negsuc, is_neg, is_zero, true}
use hepunion.Base.{List, [], if◌then◌else◌}
use hepunion.Kernel.{Kernel, Kstat, Iattr}
use hepunion.Exec.{M, pure, ◌>>=◌, ◌>>◌, call, call_, ask, as_root, on_ptr}
use hepunion.SpecialPath.{Branches}
use hepunion.SpecialPath.Bytes.{c_string}
use hepunion.Lookup.{get_path_dentry, lookup_reval}
use hepunion.Access.{can_access}
use hepunion.Tree.{find_present}
use hepunion.Metadata.{get_file_attr, set_me_worker}
use hepunion.Paths.{get_dentry_path, get_inode_path}
use hepunion.Ops.{in_buffers, validate_inode, validate_dentry}

module _ ⦃K : Kernel⦄ (b : Branches) where
  -- `kstbuf` is the caller's record.
  unfoldable pub hepunion_getattr : K.Dentry → Kstat → M (ℤ × Kstat)
  unfolding get_dentry_path
  hepunion_getattr dentry kstbuf = in_buffers (do
    validate_dentry dentry
    old ← ask K.left_over
    path ← get_dentry_path b dentry old true
    if is_neg path.0 then pure (path.0, kstbuf) else do
      got ← get_file_attr b (c_string path.1) kstbuf
      if is_neg got.0 then pure got else do
        inode ← ask (K.d_inode dentry)
        number ← ask (K.i_ino inode)
        pure (got.0, record got.1 { ino = number }))

  unfoldable pub hepunion_permission : K.Inode → ℕ → M ℤ
  unfolding get_inode_path
  hepunion_permission inode mask = in_buffers (do
    validate_inode inode
    old ← ask K.left_over
    path ← get_inode_path b inode old true
    if is_zero path.0
        then (do
          found ← find_present b (c_string path.1) [] 0
          if is_neg found.0 then pure found.0 else can_access b (c_string path.1) found.1 mask)
        else pure path.0)

  -- The attributes of a file of the RW branch are its own.
  unfoldable pub set_real_attr : List ℕ → Iattr → M ℤ
  set_real_attr real_path attr = do
    found ← get_path_dentry real_path lookup_reval
    on_ptr found
        (λ dentry. do
          err ← as_root (call (K.notify_change dentry attr))
          call_ (K.dput dentry)
          pure err)
        pure

  unfoldable pub set_attr_by_branch : List ℕ → Iattr → ℤ × List ℕ → M ℤ
  unfolding set_real_attr
  set_attr_by_branch path attr (negsuc e, real_path) = pure (negsuc e)
  set_attr_by_branch path attr (pos zero, real_path) = set_me_worker b path real_path attr
  set_attr_by_branch path attr (pos (suc n), real_path) = set_real_attr real_path attr

  unfoldable pub hepunion_setattr : K.Dentry → Iattr → M ℤ
  unfolding get_dentry_path set_attr_by_branch
  hepunion_setattr dentry attr = in_buffers (do
    validate_dentry dentry
    old ← ask K.left_over
    path ← get_dentry_path b dentry old true
    if is_zero path.0
        then (do
          found ← find_present b (c_string path.1) [] 0
          set_attr_by_branch (c_string path.1) attr found)
        else pure path.0)

module _ ⦃K : Kernel⦄ where
  unfoldable hepunion_revalidate : K.Dentry → M ℤ
  hepunion_revalidate dentry = do
    negative ← ask (K.is_negative dentry)
    pure (if negative then pos 0 else pos 1)
