-- ===== src/Workers.antt =====
-- fs/hepunion/helpers.c with `_DEBUG_`: the functions behind `open_worker`, `creat_worker`,
-- `mkdir_worker` and the like, which refuse to write to the RO branch.
pub mod Guard
use hepunion.Base.{ℕ, ℤ, Ptr, err_ptr, Bool, not, ◌&&◌, List, ◌==◌, if◌then◌else◌}
use hepunion.Base.Errno.{einval}
use hepunion.CString.{strncmp_eq}
use hepunion.Kernel.{Kernel}
use hepunion.Exec.{M, pure, call}
use hepunion.SpecialPath.{Branches}
use hepunion.Create.{mkdir, mknod, mkfifo, symlink, link}
use Prim.Native.Nat.{bit_and}

abbrev pub o_rdonly : ℕ
o_rdonly = 0

abbrev o_wronly : ℕ
o_wronly = 0o1

abbrev pub o_rdwr : ℕ
o_rdwr = 0o2

-- `O_CREAT | O_WRONLY | O_RDWR`
abbrev pub writing_flags : ℕ
writing_flags = 0o103

-- `O_CREAT | O_WRONLY | O_TRUNC`
abbrev pub creat_flags : ℕ
creat_flags = 0o1101

-- `strncmp(pathname, context->read_only_branch, context->ro_len) == 0`
unfoldable pub on_ro_branch : Branches → List ℕ → Bool
unfolding strncmp_eq
on_ro_branch b pathname = strncmp_eq b.ro_len pathname b.read_only_branch

module _ ⦃K : Kernel⦄ (b : Branches) where
  unfoldable pub dbg_open_2 : List ℕ → ℕ → ℕ → M (Ptr K.File)
  dbg_open_2 pathname flags mode =
      if not (bit_and flags writing_flags == 0) && on_ro_branch b pathname
      then pure (err_ptr einval)
      else call (K.filp_open pathname flags mode)

  unfoldable pub dbg_open : List ℕ → ℕ → M (Ptr K.File)
  dbg_open pathname flags =
      if not (bit_and flags writing_flags == 0) && on_ro_branch b pathname
      then pure (err_ptr einval)
      else call (K.filp_open pathname flags 0)

  unfoldable pub dbg_creat : List ℕ → ℕ → M (Ptr K.File)
  dbg_creat pathname mode =
      if on_ro_branch b pathname
      then pure (err_ptr einval)
      else call (K.filp_open pathname creat_flags mode)

  unfoldable pub dbg_mkdir : List ℕ → ℕ → M ℤ
  dbg_mkdir pathname mode = if on_ro_branch b pathname then pure einval else mkdir pathname mode

  unfoldable pub dbg_mknod : List ℕ → ℕ → ℕ → M ℤ
  dbg_mknod pathname mode dev =
      if on_ro_branch b pathname then pure einval else mknod pathname mode dev

  unfoldable pub dbg_mkfifo : List ℕ → ℕ → M ℤ
  dbg_mkfifo pathname mode = if on_ro_branch b pathname then pure einval else mkfifo pathname mode

  unfoldable pub dbg_symlink : List ℕ → List ℕ → M ℤ
  dbg_symlink oldpath newpath =
      if on_ro_branch b newpath then pure einval else symlink oldpath newpath

  unfoldable pub dbg_link : List ℕ → List ℕ → M ℤ
  dbg_link oldpath newpath = if on_ro_branch b newpath then pure einval else link oldpath newpath
