-- ===== src/Whiteout/Tidy.antt =====
-- fs/hepunion/wh.c and `create_me`: identity of the process and buffers.
use hepunion.Base.{ℕ, List}
use hepunion.Kernel.{Kernel, Kstat, Dirent, Creds}
use hepunion.Exec.{call, as_root, ◌>>=◌, ◌>>◌, pure}
use hepunion.Exec.Tidy.{IsTidy, IsTidy-as_root, tidy_rules, inert_rules}
use hepunion.SpecialPath.{Branches}
use hepunion.Lookup.Tidy.{unlink-IsTidy}
use hepunion.Attributes.Tidy.{find_whiteout-IsTidy}
use hepunion.Workers.{dbg_creat}
use hepunion.Whiteout.{check_whiteout, delete_whiteout, unlink_whiteout, create_me}

module _ ⦃K : Kernel⦄ where
  pub delete_whiteout-IsTidy : (dir : List ℕ) (e : Dirent) → IsTidy (delete_whiteout dir e)
  unfolding delete_whiteout
  delete_whiteout-IsTidy dir e = search (tidy_rules, unlink-IsTidy) depth 9

  IsTidy-root_then :
      {A B : Type 0} (f : Creds → K.State → A × K.State) (g : Creds → K.State → B × K.State)
      → IsTidy (as_root (call f >>= λ a. call g >> pure a))
  IsTidy-root_then f g = IsTidy-as_root _ (search inert_rules depth 9)

module _ ⦃K : Kernel⦄ (b : Branches) where
  -- On every path through it, `check_whiteout` gives the caller's `fsuid` and `fsgid` back, and
  -- leaves the count of `id_lock`, the flag of the shared buffers, the number of live allocations
  -- and the record of failed assertions as they were.
  pub check_whiteout-IsTidy : (dir : List ℕ) (e : Dirent) → IsTidy (check_whiteout b dir e)
  unfolding check_whiteout
  check_whiteout-IsTidy dir e = search (tidy_rules, find_whiteout-IsTidy) depth 9

  dbg_creat-IsTidy : (pathname : List ℕ) (mode : ℕ) → IsTidy (dbg_creat b pathname mode)
  unfolding dbg_creat
  dbg_creat-IsTidy pathname mode = search tidy_rules depth 9

  pub unlink_whiteout-IsTidy : (path : List ℕ) → IsTidy (unlink_whiteout b path)
  unfolding unlink_whiteout
  unlink_whiteout-IsTidy path = search (tidy_rules, unlink-IsTidy) depth 9

  -- On every path through it, `create_me` gives the caller's `fsuid` and `fsgid` back, and leaves
  -- the count of `id_lock`, the flag of the shared buffers, the number of live allocations and the
  -- record of failed assertions as they were.
  pub create_me-IsTidy : (me_path : List ℕ) (kstbuf : Kstat) → IsTidy (create_me b me_path kstbuf)
  unfolding create_me
  create_me-IsTidy me_path kstbuf = search (tidy_rules, dbg_creat-IsTidy, IsTidy-root_then) depth 9
