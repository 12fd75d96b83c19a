-- ===== src/Ops/Statfs.antt =====
-- fs/hepunion/opts.c: `hepunion_statfs`.
use hepunion.Base.{ℕ, ◌^◌, ◌/◌, ◌%◌, ℤ, is_zero, if◌then◌else◌}
use hepunion.Kernel.{Kernel, Kstatfs}
use hepunion.Exec.{M, pure, ◌>>=◌, ◌>>◌, call, on_ptr}
use hepunion.Hash.{hepunion_seed}
use hepunion.SpecialPath.{Branches}
use hepunion.Ops.{validate_dentry}

-- The buffer after `memset`.
abbrev no_statfs : Kstatfs
no_statfs = record {
  f_type = 0;
  f_bsize = 0;
  f_blocks = 0;
  f_bfree = 0;
  f_bavail = 0;
  f_files = 0;
  f_ffree = 0;
  f_fsid = (0, 0);
  f_namelen = 0;
}

module _ ⦃K : Kernel⦄ (b : Branches) where
  -- The status and the buffer, for a super block with the given `s_magic`.
  unfoldable pub hepunion_statfs : K.Dentry → ℕ → M (ℤ × Kstatfs)
  hepunion_statfs dentry s_magic = do
    validate_dentry dentry
    opened ← call (K.filp_open b.read_only_branch 0 0)
    on_ptr opened
        (λ filp. do
          answer ← call (λ c. K.vfs_statfs filp)
          call (λ c. K.filp_close filp)
          pure (
            answer.0,
            if is_zero answer.0
                then record answer.1 {
                  f_type = s_magic;
                  f_fsid = (hepunion_seed % 2 ^ 32, (hepunion_seed / 2 ^ 32) % 2 ^ 32);
                }
                else answer.1,
          ))
        (λ err. pure (err, no_statfs))
