-- ===== src/Whiteout/Empty.antt =====
-- fs/hepunion/wh.c, `is_empty_dir`: when a directory of the RW branch counts as empty.
use hepunion.Base.{ℕ, ◌≡◌, refl, ℤ, pos, is_neg, Bool, true, ◌&&◌, ◌||◌, ptr, none, some, List, []}
use hepunion.Base.{◌∷◌, arith, if◌then◌else◌, Bool-cases, inl, inr}
use hepunion.Base.Errno.{enotempty}
use hepunion.Kernel.{Kernel, Dirent, Creds}
use hepunion.Exec.{World, pure, ◌>>=◌, ask, call, push_root}
use hepunion.Names.{is_special, is_whiteout}
use hepunion.SpecialPath.{Branches}
use hepunion.Workers.{dbg_open, o_rdonly}
use hepunion.Whiteout.{check_writable, each, vfs_readdir, is_empty_dir, is_empty_upper}

-- Whether all entries are whiteouts or one of `.` and `..`.
abbrev hides_only : List Dirent → Bool
hides_only [] = true
hides_only (e ∷ es) = (is_whiteout e.name || is_special e.name) && hides_only es

module _ ⦃K : Kernel⦄ where
  each-check_writable :
      (es : List Dirent) (w : World)
      → each (λ e. pure (check_writable e)) es w ≡ (if hides_only es then pos 0 else enotempty, w)
  unfolding each check_writable ◌>>=◌ pure
  each-check_writable [] w = refl
  each-check_writable (e ∷ es) w = ground (arith, each-check_writable es w)

abbrev root : Creds
root = record { fsuid = 0; fsgid = 0 }

abbrev caller : ⦃K : Kernel⦄ → World → Creds
caller w = record { fsuid = w.fsuid; fsgid = w.fsgid }

module _ ⦃K : Kernel⦄ (b : Branches) where
  -- On the RW branch alone, where the directory can be opened, `is_empty_dir` returns what
  -- `vfs_readdir` makes of the last answer of its callback, which is 0 if all entries are whiteouts or
  -- one of `.` and `..`, and ENOTEMPTY otherwise.
  pub is_empty_dir-hides_only :
      (path rw_path : List ℕ) (file : K.File) (w : World)
      → (K.filp_open rw_path o_rdonly 0 (caller w) w.kernel).0 ≡ ptr file
      → let opened = K.filp_open rw_path o_rdonly 0 (caller w) w.kernel in
        let read = K.dir_entries file root opened.1 in
        (is_empty_dir b path none (some rw_path) w).0
        ≡ K.vfs_readdir_result file (if hides_only read.0 then pos 0 else enotempty) read.1
  unfolding is_empty_dir is_empty_upper vfs_readdir dbg_open ◌>>=◌ pure ask call push_root
  is_empty_dir-hides_only path rw_path file w opens =
      let read = K.dir_entries file root (K.filp_open rw_path o_rdonly 0 (caller w) w.kernel).1 in
      let last : ℤ = if hides_only read.0 then pos 0 else enotempty in
      elim (Bool-cases (is_neg (K.vfs_readdir_result file last read.1))) [
        | inl full ↦ rw (opens, each-check_writable read.0, full) refl
        | inr empty ↦ rw (opens, each-check_writable read.0, empty) refl
      ]
