-- ===== src/Lookup/Tidy.antt =====
-- fs/hepunion/helpers.c, the lookups: identity of the process and buffers.
use hepunion.Base.{ℕ, zero, suc, ℤ, none, List}
use hepunion.Kernel.{Kernel, Kstat, Creds}
use hepunion.Exec.Tidy.{IsTidy, IsTidy-pure, tidy_rules}
use hepunion.Lookup.{check_exist, get_path_dentry, lstat_retry, lstat, remove_by, unlink, rmdir}
use hepunion.Lookup.{lookup_reval}
use Prim.Native.Nat.{bit_or}

module _ ⦃K : Kernel⦄ where
  pub check_exist-IsTidy : (pathname : List ℕ) (flag : ℕ) → IsTidy (check_exist pathname flag)
  unfolding check_exist
  check_exist-IsTidy pathname flag = search tidy_rules depth 9

  pub get_path_dentry-IsTidy :
      (pathname : List ℕ) (flag : ℕ) → IsTidy (get_path_dentry pathname flag)
  unfolding get_path_dentry
  get_path_dentry-IsTidy pathname flag = search tidy_rules depth 9

  lstat_retry-IsTidy :
      (rounds lookup_flags : ℕ) (pathname : List ℕ) (stat : Kstat)
      → IsTidy (lstat_retry rounds lookup_flags pathname stat)
  unfolding lstat_retry
  lstat_retry-IsTidy zero lookup_flags pathname stat = IsTidy-pure none
  lstat_retry-IsTidy (suc rounds) lookup_flags pathname stat =
      let ih = lstat_retry-IsTidy rounds (bit_or lookup_flags lookup_reval) pathname in
      search (tidy_rules, ih) depth 9

  pub lstat-IsTidy : (pathname : List ℕ) (stat : Kstat) → IsTidy (lstat pathname stat)
  unfolding lstat
  lstat-IsTidy pathname stat = search (tidy_rules, lstat_retry-IsTidy) depth 9

  remove_by-IsTidy :
      (operation : K.Inode → K.Dentry → Creds → K.State → ℤ × K.State) (pathname : List ℕ)
      → IsTidy (remove_by operation pathname)
  unfolding remove_by
  remove_by-IsTidy operation pathname = search (tidy_rules, get_path_dentry-IsTidy) depth 20

  -- On every path through it, failed or not, `unlink` gives the caller's `fsuid` and `fsgid` back,
  -- and leaves the count of `id_lock`, the flag of the shared buffers, the number of live
  -- allocations and the record of failed assertions as they were.
  pub unlink-IsTidy : (pathname : List ℕ) → IsTidy (unlink pathname)
  unfolding unlink
  unlink-IsTidy = remove_by-IsTidy K.vfs_unlink

  pub rmdir-IsTidy : (pathname : List ℕ) → IsTidy (rmdir pathname)
  unfolding rmdir
  rmdir-IsTidy = remove_by-IsTidy K.vfs_rmdir
