-- ===== src/Create/Tidy.antt =====
-- fs/hepunion/helpers.c, `mkdir` and `link`: identity of the process.
use hepunion.Base.{ℕ, zero, suc, none, List}
use hepunion.Kernel.{Kernel}
use hepunion.Exec.Tidy.{IsTidy, IsTidy-pure, IsTidy-as_root, tidy_rules, inert_rules}
use hepunion.Lookup.{lookup_reval}
use hepunion.Create.{if_allowed, mkdir_retry, mkdir, link_in, link_retry, link}
use hepunion.Exec.{call, as_root}
use hepunion.Base.{ℤ}
use hepunion.Kernel.{Creds}
use Prim.Native.Nat.{bit_or}

module _ ⦃K : Kernel⦄ where
  IsTidy-root_if_allowed :
      (f g : Creds → K.State → ℤ × K.State) → IsTidy (as_root (if_allowed (call f) (call g)))
  unfolding if_allowed
  IsTidy-root_if_allowed f g = IsTidy-as_root _ (search inert_rules depth 9)

  mkdir_retry-IsTidy :
      (rounds lookup_flags : ℕ) (pathname : List ℕ) (mode : ℕ)
      → IsTidy (mkdir_retry rounds lookup_flags pathname mode)
  unfolding mkdir_retry
  mkdir_retry-IsTidy zero lookup_flags pathname mode = IsTidy-pure none
  mkdir_retry-IsTidy (suc rounds) lookup_flags pathname mode =
      let ih = mkdir_retry-IsTidy rounds (bit_or lookup_flags lookup_reval) pathname in
      search (tidy_rules, IsTidy-root_if_allowed, ih) depth 12

  -- On every path through it, retries included, `mkdir` gives the caller's `fsuid` and `fsgid`
  -- back, and leaves the count of `id_lock`, the flag of the shared buffers, the number of live
  -- allocations and the record of failed assertions as they were.
  pub mkdir-IsTidy : (pathname : List ℕ) (mode : ℕ) → IsTidy (mkdir pathname mode)
  unfolding mkdir
  mkdir-IsTidy pathname mode = search (tidy_rules, mkdir_retry-IsTidy) depth 9

  link_in-IsTidy :
      (old_path parent new_dentry : K.Dentry) (dir : K.Inode)
      → IsTidy (link_in old_path parent new_dentry dir)
  unfolding link_in
  link_in-IsTidy old_path parent new_dentry dir = search tidy_rules depth 12

  link_retry-IsTidy :
      (rounds how : ℕ) (oldname newname : List ℕ) → IsTidy (link_retry rounds how oldname newname)
  unfolding link_retry
  link_retry-IsTidy zero how oldname newname = IsTidy-pure none
  link_retry-IsTidy (suc rounds) how oldname newname =
      let ih = link_retry-IsTidy rounds (bit_or how lookup_reval) oldname in
      search (tidy_rules, link_in-IsTidy, ih) depth 24

  -- On every path through it, retries included, `link` gives the caller's `fsuid` and `fsgid` back,
  -- and leaves the count of `id_lock`, the flag of the shared buffers, the number of live
  -- allocations and the record of failed assertions as they were.
  pub link-IsTidy : (oldname newname : List ℕ) → IsTidy (link oldname newname)
  unfolding link
  link-IsTidy oldname newname = search (tidy_rules, link_retry-IsTidy) depth 9
