-- ===== src/Workers/Guard.antt =====
-- fs/hepunion/helpers.c, `dbg_open` to `dbg_link`: paths on the RO branch.
use hepunion.Base.{ℕ, ◌≡◌, ◌≢◌, err_ptr, true, List, ◌++◌, arith}
use hepunion.Base.Errno.{einval}
use hepunion.CString.Laws.{strncmp_eq-append}
use hepunion.Kernel.{Kernel}
use hepunion.Exec.{World, pure}
use hepunion.SpecialPath.{Branches, IsMeasured}
use hepunion.Workers.{
  writing_flags, on_ro_branch, dbg_open, dbg_open_2, dbg_creat, dbg_mkdir, dbg_mknod, dbg_mkfifo,
  dbg_symlink, dbg_link,
}
use Prim.Native.Nat.{bit_and}

on_ro_branch-append :
    (b : Branches)
    → IsMeasured b
    → (rest : List ℕ) → on_ro_branch b (b.read_only_branch ++ rest) ≡ true
unfolding on_ro_branch
on_ro_branch-append b m rest = rw (m.ro, strncmp_eq-append b.read_only_branch rest)

module _ ⦃K : Kernel⦄ (b : Branches) where
  -- On a path below the RO branch, whose length is measured, each of the functions that open a
  -- file for writing or create an entry fails with EINVAL and leaves the state of driver and
  -- kernel as it is.
  pub ro_branch_kept :
      (measured : IsMeasured b) (rest : List ℕ) (w : World)
      → let path = b.read_only_branch ++ rest in
        ((flags : ℕ)
          → bit_and flags writing_flags ≢ 0
          → dbg_open b path flags w ≡ (err_ptr einval, w))
        × ((flags mode : ℕ)
            → bit_and flags writing_flags ≢ 0
            → dbg_open_2 b path flags mode w ≡ (err_ptr einval, w))
        × ((mode : ℕ) → dbg_creat b path mode w ≡ (err_ptr einval, w))
        × ((mode : ℕ) → dbg_mkdir b path mode w ≡ (einval, w))
        × ((mode dev : ℕ) → dbg_mknod b path mode dev w ≡ (einval, w))
        × ((mode : ℕ) → dbg_mkfifo b path mode w ≡ (einval, w))
        × ((old : List ℕ) → dbg_symlink b old path w ≡ (einval, w))
        × ((old : List ℕ) → dbg_link b old path w ≡ (einval, w))
  unfolding dbg_open dbg_open_2 dbg_creat dbg_mkdir dbg_mknod dbg_mkfifo dbg_symlink dbg_link pure
  ro_branch_kept measured rest w =
      let on_ro = on_ro_branch-append b measured rest in
      (
        λ flags h. ground arith,
        λ flags mode h. ground arith,
        λ mode. rw on_ro,
        λ mode. rw on_ro,
        λ mode dev. rw on_ro,
        λ mode. rw on_ro,
        λ old. rw on_ro,
        λ old. rw on_ro,
      )
