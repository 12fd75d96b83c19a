-- ===== src/Ops/Readers.antt =====
-- fs/hepunion/opts.c: the handlers that only read, and the identity of the process.
use hepunion.Base.{◌≡◌, refl, ℕ, ℤ, pos, negsuc, Bool, false, List, [], ◌∷◌, arith}
use hepunion.Kernel.{Kernel, Kstat}
use hepunion.Exec.{M, pure, ◌>>=◌, oops, will_use_buffers, release_buffers}
use hepunion.Base.Errno.{einval}
use hepunion.Exec.Restored.{IsRestored, IsTidy→IsRestored, IsRestored-pure, restored_rules}
use hepunion.Names.{is_flag_set, create_copyup_flag, must_read_only, must_read_write}
use hepunion.SpecialPath.{Branches}
use hepunion.Access.{can_access}
use hepunion.Access.Tidy.{can_access-IsTidy}
use hepunion.Attributes.{get_file_attr_worker}
use hepunion.Attributes.Tidy.{get_file_attr_worker-IsTidy}
use hepunion.Find.Tidy.{find_file_with-IsTidy}
use hepunion.Tree.{find_present}
use hepunion.Metadata.{get_file_attr}
use hepunion.Paths.{
  get_full_path_d, alias_loop, get_full_path_i, skip_branch, relative, get_dentry_path,
  get_inode_path, get_relative_path_for_file,
}
use hepunion.Ops.{validate_inode, validate_dentry, in_buffers}
use hepunion.Ops.Attr.{hepunion_getattr, hepunion_permission}
use hepunion.Ops.Open.{
  hepunion_lookup, hepunion_opendir, get_inode, add_found, path_to_open, dir_on_branch,
  opendir_context,
}

-- The flags of the calls of `find_file` are without CREATE_COPYUP.
plain : is_flag_set 0 create_copyup_flag ≡ false
unfolding is_flag_set
plain = refl

plain_rw : is_flag_set must_read_write create_copyup_flag ≡ false
unfolding is_flag_set
plain_rw = refl

plain_ro : is_flag_set must_read_only create_copyup_flag ≡ false
unfolding is_flag_set
plain_ro = refl

module _ ⦃K : Kernel⦄ where
  get_full_path_d-IsRestored :
      (dentry : K.Dentry) (real_path : List ℕ) → IsRestored (get_full_path_d dentry real_path)
  unfolding get_full_path_d
  get_full_path_d-IsRestored dentry real_path = search (restored_rules) depth 24

  alias_loop-IsRestored :
      (dentries : List K.Dentry) (ino : ℕ) (len : ℤ) (real_path : List ℕ)
      → IsRestored (alias_loop dentries ino len real_path)
  unfolding alias_loop
  alias_loop-IsRestored [] ino len real_path = IsRestored-pure _
  alias_loop-IsRestored (dentry ∷ dentries) ino len real_path =
      let ih = alias_loop-IsRestored dentries ino in
      search (restored_rules, get_full_path_d-IsRestored, ih) depth 12

  get_full_path_i-IsRestored :
      (inode : K.Inode) (real_path : List ℕ) → IsRestored (get_full_path_i inode real_path)
  unfolding get_full_path_i
  get_full_path_i-IsRestored inode real_path =
      search (restored_rules, alias_loop-IsRestored) depth 24

  skip_branch-IsRestored :
      (branch_len len : ℕ) (real_path path : List ℕ)
      → IsRestored (skip_branch branch_len len real_path path)
  unfolding skip_branch
  skip_branch-IsRestored branch_len len real_path path = search (restored_rules) depth 24

  validate_inode-IsRestored : (inode : K.Inode) → IsRestored (validate_inode inode)
  unfolding validate_inode
  validate_inode-IsRestored inode = search (restored_rules) depth 24

  validate_dentry-IsRestored : (dentry : K.Dentry) → IsRestored (validate_dentry dentry)
  unfolding validate_dentry
  validate_dentry-IsRestored dentry = search (restored_rules) depth 24

  in_buffers-IsRestored : {A : Type 0} (m : M A) → IsRestored m → IsRestored (in_buffers m)
  unfolding in_buffers ◌>>=◌ pure will_use_buffers release_buffers
  in_buffers-IsRestored m rm = record { at = λ w. ground (arith, rm.at (will_use_buffers w).1) }

module _ ⦃K : Kernel⦄ (b : Branches) where
  relative-IsRestored :
      (len : ℤ) (real_path path : List ℕ) (is_ours : Bool)
      → IsRestored (relative b len real_path path is_ours)
  unfolding relative
  relative-IsRestored (negsuc e) real_path path is_ours = IsRestored-pure _
  relative-IsRestored (pos n) real_path path is_ours =
      search (restored_rules, skip_branch-IsRestored) depth 12

  get_dentry_path-IsRestored :
      (dentry : K.Dentry) (path : List ℕ) (is_ours : Bool)
      → IsRestored (get_dentry_path b dentry path is_ours)
  unfolding get_dentry_path
  get_dentry_path-IsRestored dentry path is_ours =
      search (restored_rules, get_full_path_d-IsRestored, relative-IsRestored) depth 24

  get_inode_path-IsRestored :
      (inode : K.Inode) (path : List ℕ) (is_ours : Bool)
      → IsRestored (get_inode_path b inode path is_ours)
  unfolding get_inode_path
  get_inode_path-IsRestored inode path is_ours =
      search (restored_rules, get_full_path_i-IsRestored, relative-IsRestored) depth 24

  get_relative_path_for_file-IsRestored :
      (dir : K.Inode) (dentry : K.Dentry) (path : List ℕ) (is_ours : Bool)
      → IsRestored (get_relative_path_for_file b dir dentry path is_ours)
  unfolding get_relative_path_for_file
  get_relative_path_for_file-IsRestored dir dentry path is_ours =
      search (restored_rules, get_inode_path-IsRestored) depth 24

  find_present-IsRestored :
      (path real_path : List ℕ) (flags : ℕ)
      → is_flag_set flags create_copyup_flag ≡ false
      → IsRestored (find_present b path real_path flags)
  unfolding find_present
  find_present-IsRestored path real_path flags h =
      IsTidy→IsRestored _
        (find_file_with-IsTidy b (λ p q r. oops (einval, r)) path real_path flags h)

  get_file_attr_worker-IsRestored :
      (path real_path : List ℕ) (kstbuf : Kstat)
      → IsRestored (get_file_attr_worker b path real_path kstbuf)
  get_file_attr_worker-IsRestored path real_path kstbuf =
      IsTidy→IsRestored _ (get_file_attr_worker-IsTidy b path real_path kstbuf)

  can_access-IsRestored :
      (path real_path : List ℕ) (mode : ℕ) → IsRestored (can_access b path real_path mode)
  can_access-IsRestored path real_path mode =
      IsTidy→IsRestored _ (can_access-IsTidy b path real_path mode)

  get_file_attr-IsRestored :
      (path : List ℕ) (kstbuf : Kstat) → IsRestored (get_file_attr b path kstbuf)
  unfolding get_file_attr
  get_file_attr-IsRestored path kstbuf =
      search (restored_rules, find_present-IsRestored, plain, get_file_attr_worker-IsRestored) depth
        24

  get_inode-IsRestored : (dentry : K.Dentry) (path : List ℕ) → IsRestored (get_inode b dentry path)
  unfolding get_inode
  get_inode-IsRestored dentry path = search (restored_rules) depth 24

  add_found-IsRestored : (dentry : K.Dentry) (path : List ℕ) → IsRestored (add_found b dentry path)
  unfolding add_found
  add_found-IsRestored dentry path = search (restored_rules, get_inode-IsRestored) depth 24

  path_to_open-IsRestored : (dentry : K.Dentry) → IsRestored (path_to_open b dentry)
  unfolding path_to_open
  path_to_open-IsRestored dentry = search (restored_rules, get_dentry_path-IsRestored) depth 24

  dir_on_branch-IsRestored :
      (path : List ℕ) (flag : ℕ)
      → is_flag_set flag create_copyup_flag ≡ false
      → IsRestored (dir_on_branch b path flag)
  unfolding dir_on_branch
  dir_on_branch-IsRestored path flag h =
      let found = find_present-IsRestored path [] flag h in search (restored_rules, found) depth 12

  opendir_context-IsRestored : (path : List ℕ) → IsRestored (opendir_context b path)
  unfolding opendir_context
  opendir_context-IsRestored path =
      search (restored_rules, dir_on_branch-IsRestored, plain_rw, plain_ro) depth 24

  -- Each of these handlers ends under the identity under which it was called.
  pub record AllRestored : Type 0 where
    pub getattr :
        (dentry : K.Dentry) (kstbuf : Kstat) → IsRestored (hepunion_getattr b dentry kstbuf)
    pub permission : (inode : K.Inode) (mask : ℕ) → IsRestored (hepunion_permission b inode mask)
    pub lookup : (dir : K.Inode) (dentry : K.Dentry) → IsRestored (hepunion_lookup b dir dentry)
    pub opendir : (inode : K.Inode) (file : K.File) → IsRestored (hepunion_opendir b inode file)

  hepunion_getattr-IsRestored :
      (dentry : K.Dentry) (kstbuf : Kstat) → IsRestored (hepunion_getattr b dentry kstbuf)
  unfolding hepunion_getattr
  hepunion_getattr-IsRestored dentry kstbuf =
      search
        (
          restored_rules, in_buffers-IsRestored, validate_dentry-IsRestored,
          get_dentry_path-IsRestored, get_file_attr-IsRestored,
        )
        depth 30

  hepunion_permission-IsRestored :
      (inode : K.Inode) (mask : ℕ) → IsRestored (hepunion_permission b inode mask)
  unfolding hepunion_permission
  hepunion_permission-IsRestored inode mask =
      search
        (
          restored_rules, in_buffers-IsRestored, validate_inode-IsRestored,
          get_inode_path-IsRestored, find_present-IsRestored, plain, can_access-IsRestored,
        )
        depth 30

  hepunion_lookup-IsRestored :
      (dir : K.Inode) (dentry : K.Dentry) → IsRestored (hepunion_lookup b dir dentry)
  unfolding hepunion_lookup
  hepunion_lookup-IsRestored dir dentry =
      search
        (
          restored_rules, in_buffers-IsRestored, validate_inode-IsRestored,
          get_relative_path_for_file-IsRestored, find_present-IsRestored, plain,
          add_found-IsRestored,
        )
        depth 30

  hepunion_opendir-IsRestored :
      (inode : K.Inode) (file : K.File) → IsRestored (hepunion_opendir b inode file)
  unfolding hepunion_opendir
  hepunion_opendir-IsRestored inode file =
      search
        (
          restored_rules, in_buffers-IsRestored, validate_inode-IsRestored, path_to_open-IsRestored,
          find_present-IsRestored, plain, opendir_context-IsRestored,
        )
        depth 30

  -- On every path through them, failed assertions included, the handlers for getattr, permission,
  -- lookup and opendir give the caller's `fsuid` and `fsgid` back and leave the count of `id_lock` as
  -- it was.
  pub readers_restore : AllRestored
  readers_restore = record {
    getattr = hepunion_getattr-IsRestored;
    permission = hepunion_permission-IsRestored;
    lookup = hepunion_lookup-IsRestored;
    opendir = hepunion_opendir-IsRestored;
  }
