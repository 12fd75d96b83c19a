-- ===== src/Create/Balanced.antt =====
-- fs/hepunion/helpers.c, creation of entries and its guards: the buffers that are given back.
use hepunion.Base.{ℕ, zero, suc, ℤ, none, List}
use hepunion.Kernel.{Kernel}
use hepunion.Exec.{M, pure}
use hepunion.Exec.Balanced.{
  IsBalanced, IsTidy→IsBalanced, IsBalanced-pure, IsBalanced-bind, balanced_rules,
}
use hepunion.SpecialPath.{Branches}
use hepunion.Create.{create_node, mkfifo, mknod_in}
use hepunion.Workers.{
  dbg_creat, dbg_link, dbg_mkdir, dbg_mkfifo, dbg_mknod, dbg_open, dbg_open_2, dbg_symlink,
}
use hepunion.Create.{if_allowed, mkdir, mknod_retry, symlink_retry, link, mknod, symlink}
use hepunion.Exec.Balanced.{IsBalanced-if}
use hepunion.Create.Tidy.{mkdir-IsTidy, link-IsTidy}
use hepunion.Lookup.{lookup_reval}
use Prim.Native.Nat.{bit_or}

module _ ⦃K : Kernel⦄ where
  mkdir-IsBalanced : (pathname : List ℕ) (mode : ℕ) → IsBalanced (mkdir pathname mode)
  mkdir-IsBalanced pathname mode = IsTidy→IsBalanced _ (mkdir-IsTidy pathname mode)

  link-IsBalanced : (oldname newname : List ℕ) → IsBalanced (link oldname newname)
  link-IsBalanced oldname newname = IsTidy→IsBalanced _ (link-IsTidy oldname newname)

  if_allowed-IsBalanced :
      (hook operation : M ℤ)
      → IsBalanced hook
      → IsBalanced operation
      → IsBalanced (if_allowed hook operation)
  unfolding if_allowed
  if_allowed-IsBalanced hook operation bh bo =
      IsBalanced-bind hook _ bh (λ e. IsBalanced-if _ operation (pure e) bo (IsBalanced-pure e))

  create_node-IsBalanced :
      (dir : K.Inode) (dentry : K.Dentry) (mode dev : ℕ)
      → IsBalanced (create_node dir dentry mode dev)
  unfolding create_node
  create_node-IsBalanced dir dentry mode dev = search (balanced_rules) depth 24

  mknod_in-IsBalanced :
      (parent dentry : K.Dentry) (dir : K.Inode) (mode dev : ℕ)
      → IsBalanced (mknod_in parent dentry dir mode dev)
  unfolding mknod_in
  mknod_in-IsBalanced parent dentry dir mode dev =
      search (balanced_rules, create_node-IsBalanced) depth 24

  mknod_retry-IsBalanced :
      (rounds lookup_flags : ℕ) (pathname : List ℕ) (mode dev : ℕ)
      → IsBalanced (mknod_retry rounds lookup_flags pathname mode dev)
  unfolding mknod_retry
  mknod_retry-IsBalanced zero lookup_flags pathname mode dev = IsBalanced-pure none
  mknod_retry-IsBalanced (suc rounds) lookup_flags pathname mode dev =
      let ih = mknod_retry-IsBalanced rounds (bit_or lookup_flags lookup_reval) pathname in
      search (balanced_rules, mknod_in-IsBalanced, ih) depth 12

  mknod-IsBalanced : (pathname : List ℕ) (mode dev : ℕ) → IsBalanced (mknod pathname mode dev)
  unfolding mknod
  mknod-IsBalanced pathname mode dev = search (balanced_rules, mknod_retry-IsBalanced) depth 9

  mkfifo-IsBalanced : (pathname : List ℕ) (mode : ℕ) → IsBalanced (mkfifo pathname mode)
  unfolding mkfifo
  mkfifo-IsBalanced pathname mode = search (balanced_rules, mknod-IsBalanced) depth 24

  symlink_retry-IsBalanced :
      (rounds lookup_flags : ℕ) (oldname newname : List ℕ)
      → IsBalanced (symlink_retry rounds lookup_flags oldname newname)
  unfolding symlink_retry
  symlink_retry-IsBalanced zero lookup_flags oldname newname = IsBalanced-pure none
  symlink_retry-IsBalanced (suc rounds) lookup_flags oldname newname =
      let ih = symlink_retry-IsBalanced rounds (bit_or lookup_flags lookup_reval) in
      search (balanced_rules, if_allowed-IsBalanced, ih) depth 14

  symlink-IsBalanced : (oldname newname : List ℕ) → IsBalanced (symlink oldname newname)
  unfolding symlink
  symlink-IsBalanced oldname newname = search (balanced_rules, symlink_retry-IsBalanced) depth 9

module _ ⦃K : Kernel⦄ (b : Branches) where
  pub dbg_open_2-IsBalanced :
      (pathname : List ℕ) (flags mode : ℕ) → IsBalanced (dbg_open_2 b pathname flags mode)
  unfolding dbg_open_2
  dbg_open_2-IsBalanced pathname flags mode = search (balanced_rules) depth 24

  pub dbg_open-IsBalanced : (pathname : List ℕ) (flags : ℕ) → IsBalanced (dbg_open b pathname flags)
  unfolding dbg_open
  dbg_open-IsBalanced pathname flags = search (balanced_rules) depth 24

  pub dbg_creat-IsBalanced : (pathname : List ℕ) (mode : ℕ) → IsBalanced (dbg_creat b pathname mode)
  unfolding dbg_creat
  dbg_creat-IsBalanced pathname mode = search (balanced_rules) depth 24

  pub dbg_mkdir-IsBalanced : (pathname : List ℕ) (mode : ℕ) → IsBalanced (dbg_mkdir b pathname mode)
  unfolding dbg_mkdir
  dbg_mkdir-IsBalanced pathname mode = search (balanced_rules, mkdir-IsBalanced) depth 24

  pub dbg_mknod-IsBalanced :
      (pathname : List ℕ) (mode dev : ℕ) → IsBalanced (dbg_mknod b pathname mode dev)
  unfolding dbg_mknod
  dbg_mknod-IsBalanced pathname mode dev = search (balanced_rules, mknod-IsBalanced) depth 24

  pub dbg_mkfifo-IsBalanced :
      (pathname : List ℕ) (mode : ℕ) → IsBalanced (dbg_mkfifo b pathname mode)
  unfolding dbg_mkfifo
  dbg_mkfifo-IsBalanced pathname mode = search (balanced_rules, mkfifo-IsBalanced) depth 24

  pub dbg_symlink-IsBalanced :
      (oldpath newpath : List ℕ) → IsBalanced (dbg_symlink b oldpath newpath)
  unfolding dbg_symlink
  dbg_symlink-IsBalanced oldpath newpath = search (balanced_rules, symlink-IsBalanced) depth 24

  pub dbg_link-IsBalanced : (oldpath newpath : List ℕ) → IsBalanced (dbg_link b oldpath newpath)
  unfolding dbg_link
  dbg_link-IsBalanced oldpath newpath = search (balanced_rules, link-IsBalanced) depth 24
