-- ===== src/Mount/Super.antt =====
-- fs/hepunion/main.c: `get_branches` with the opening of the branches, `hepunion_read_super` and
-- `hepunion_kill_sb`, and `hepunion_put_super` of opts.c.
use hepunion.Base.{
  ℕ, ℤ, pos, is_neg, is_zero, false, Option, none, some, List, [], ◌∷◌, if◌then◌else◌,
}
use hepunion.Base.Errno.{einval, enomem}
use hepunion.Kernel.{Kernel, BranchSuper, RootInit}
use hepunion.Exec.{M, pure, ◌>>=◌, ◌>>◌, call, call_, ask, oops, kmalloc, kfree, on_ptr, on_option}
use hepunion.Names.{slash}
use hepunion.Hash.{name_to_ino}
use hepunion.Mount.{BranchNames, no_branches, get_branch_names}

abbrev hepunion_magic : ℕ
hepunion_magic = 0x9F510

-- Read and search for everyone, and a directory.
abbrev root_m : ℕ
root_m = 0o40555

unfoldable pub root_init : BranchSuper → RootInit
unfolding name_to_ino
root_init seen = record {
  i_number = name_to_ino (slash ∷ []);
  i_mode = root_m;
  i_atime = seen.atime;
  i_mtime = seen.mtime;
  i_ctime = seen.ctime;
  nlink = 2;
}

module _ ⦃K : Kernel⦄ where
  -- `struct super_block`, as far as the driver writes it beside its tables of operations. `none` is
  -- a null pointer.
  pub record SuperBlock : Type 0 where
    pub s_fs_info : Option BranchNames
    pub s_root : Option K.Dentry
    pub s_blocksize : ℕ
    pub s_blocksize_bits : ℕ
    pub s_magic : ℕ
    pub s_time_gran : ℕ

  -- The inode and the dentry of the root. A null pointer from `new_inode` or `d_make_root` is no
  -- error for `IS_ERR`, and is used.
  unfoldable pub make_root : SuperBlock → BranchSuper → M (ℤ × SuperBlock)
  unfolding root_init
  make_root sb seen = do
    inode ← call (λ c. K.new_inode)
    on_option inode (oops (pos 0, sb)) (λ root_i. do
      call_ (K.init_root root_i (root_init seen))
      root ← call (λ c. K.d_make_root root_i)
      on_option root (oops (pos 0, sb)) (λ s_root. do
        call_ (K.set_operations s_root)
        call_ (K.mark_dentry s_root)
        pure
            (pos 0, record sb { s_root = some s_root; s_magic = hepunion_magic; s_time_gran = 1 })))

  unfoldable pub open_branches : SuperBlock → List ℕ → List ℕ → M (ℤ × SuperBlock)
  unfolding make_root
  open_branches sb ro rw = do
    opened ← call (K.filp_open ro 0 0)
    on_ptr opened
        (λ filp. do
          seen ← ask (K.branch_super filp)
          let sized = record sb {
            s_blocksize = seen.s_blocksize;
            s_blocksize_bits = seen.s_blocksize_bits;
          }
          call (λ c. K.filp_close filp)
          reopened ← call (K.filp_open rw 0 0)
          on_ptr reopened (λ filp. do call (λ c. K.filp_close filp); make_root sized seen)
              (λ err. pure (err, sized)))
        (λ err. pure (err, sb))

  -- The options first, and then both branches.
  unfoldable pub get_branches : SuperBlock → List ℕ → M (ℤ × SuperBlock)
  unfolding open_branches
  get_branches sb arg = do
    parsed ← get_branch_names arg
    let named = record sb { s_fs_info = some parsed.1 }
    if is_neg parsed.0
        then pure (parsed.0, named)
        else on_option parsed.1.read_only_branch (pure (einval, named)) (λ ro.
          on_option parsed.1.read_write_branch (pure (einval, named))
            (λ rw. open_branches named ro rw))

  -- `if (p) kfree(p)`
  unfoldable pub free_set : Option (List ℕ) → M (Unit {0})
  free_set p = on_option p (pure tt) (λ path. kfree)

  unfoldable pub free_branches : Option BranchNames → M (Unit {0})
  unfolding free_set
  free_branches info =
      on_option info (pure tt)
        (λ names. do free_set names.read_only_branch; free_set names.read_write_branch)

  -- `recursive_mutex_init(&sb_info->id_lock)` and the fields that `kzalloc` clears.
  unfoldable pub init_info : M (Unit {0})
  init_info w = (tt, record w { uid = 0; gid = 0; id_lock = pos 0; buffers_in_use = false })

  unfoldable pub hepunion_read_super : SuperBlock → Option (List ℕ) → M (ℤ × SuperBlock)
  unfolding get_branches free_branches init_info
  hepunion_read_super sb none = pure (einval, sb)
  hepunion_read_super sb (some raw_data) = do
    got ← kmalloc
    if got
        then (do
          init_info
          out ← get_branches (record sb { s_fs_info = some no_branches }) raw_data
          if is_zero out.0 then pure (pos 0, out.1) else (do
            free_branches out.1.s_fs_info
            kfree
            pure (out.0, record out.1 { s_fs_info = none })))
        else pure (enomem, record sb { s_fs_info = none })

  -- The super block's information.
  unfoldable pub hepunion_put_super : SuperBlock → M SuperBlock
  hepunion_put_super sb =
      on_option sb.s_fs_info (pure sb) (λ info. do kfree; pure (record sb { s_fs_info = none }))

  -- The kernel's `kill_litter_super` is an argument.
  unfoldable pub hepunion_kill_sb : (SuperBlock → M SuperBlock) → SuperBlock → M SuperBlock
  unfolding free_branches
  hepunion_kill_sb kill_litter_super sb = do free_branches sb.s_fs_info; kill_litter_super sb
