-- ===== src/Lookup/Balanced.antt =====
-- fs/hepunion/helpers.c and me.c, lookups, attributes and rights: the buffers that are given back.
use hepunion.Base.{ℕ, List}
use hepunion.Base.{Option-cases, inl, inr}
use hepunion.Kernel.{Kernel, Kstat}
use hepunion.Exec.Balanced.{IsBalanced, IsTidy→IsBalanced, balanced_rules}
use hepunion.SpecialPath.{Branches}
use hepunion.Names.{slash}
use hepunion.Lookup.{check_exist, get_path_dentry, lstat, unlink, rmdir}
use hepunion.Lookup.Tidy.{
  check_exist-IsTidy, get_path_dentry-IsTidy, lstat-IsTidy, unlink-IsTidy, rmdir-IsTidy,
}
use hepunion.Attributes.{find_me, find_whiteout, get_file_attr_worker}
use hepunion.Attributes.Tidy.{find_me-IsTidy, find_whiteout-IsTidy, get_file_attr_worker-IsTidy}
use hepunion.Access.{can_access, can_traverse, can_remove}
use hepunion.Access.Tidy.{can_access-IsTidy, can_traverse-IsTidy}
use hepunion.CString.{strrchr}

module _ ⦃K : Kernel⦄ where
  pub check_exist-IsBalanced :
      (pathname : List ℕ) (flag : ℕ) → IsBalanced (check_exist pathname flag)
  check_exist-IsBalanced pathname flag = IsTidy→IsBalanced _ (check_exist-IsTidy pathname flag)

  pub get_path_dentry-IsBalanced :
      (pathname : List ℕ) (flag : ℕ) → IsBalanced (get_path_dentry pathname flag)
  get_path_dentry-IsBalanced pathname flag =
      IsTidy→IsBalanced _ (get_path_dentry-IsTidy pathname flag)

  pub lstat-IsBalanced : (pathname : List ℕ) (stat : Kstat) → IsBalanced (lstat pathname stat)
  lstat-IsBalanced pathname stat = IsTidy→IsBalanced _ (lstat-IsTidy pathname stat)

  pub unlink-IsBalanced : (pathname : List ℕ) → IsBalanced (unlink pathname)
  unlink-IsBalanced pathname = IsTidy→IsBalanced _ (unlink-IsTidy pathname)

  pub rmdir-IsBalanced : (pathname : List ℕ) → IsBalanced (rmdir pathname)
  rmdir-IsBalanced pathname = IsTidy→IsBalanced _ (rmdir-IsTidy pathname)

module _ ⦃K : Kernel⦄ (b : Branches) where
  pub find_me-IsBalanced :
      (path me_path : List ℕ) (kstbuf : Kstat) → IsBalanced (find_me b path me_path kstbuf)
  find_me-IsBalanced path me_path kstbuf =
      IsTidy→IsBalanced _ (find_me-IsTidy b path me_path kstbuf)

  pub find_whiteout-IsBalanced : (path wh_path : List ℕ) → IsBalanced (find_whiteout b path wh_path)
  find_whiteout-IsBalanced path wh_path = IsTidy→IsBalanced _ (find_whiteout-IsTidy b path wh_path)

  pub get_file_attr_worker-IsBalanced :
      (path real_path : List ℕ) (kstbuf : Kstat)
      → IsBalanced (get_file_attr_worker b path real_path kstbuf)
  get_file_attr_worker-IsBalanced path real_path kstbuf =
      IsTidy→IsBalanced _ (get_file_attr_worker-IsTidy b path real_path kstbuf)

  pub can_access-IsBalanced :
      (path real_path : List ℕ) (mode : ℕ) → IsBalanced (can_access b path real_path mode)
  can_access-IsBalanced path real_path mode =
      IsTidy→IsBalanced _ (can_access-IsTidy b path real_path mode)

  pub can_traverse-IsBalanced : (path : List ℕ) → IsBalanced (can_traverse b path)
  can_traverse-IsBalanced path = IsTidy→IsBalanced _ (can_traverse-IsTidy b path)

  pub can_remove-IsBalanced : (path real_path : List ℕ) → IsBalanced (can_remove b path real_path)
  unfolding can_remove
  can_remove-IsBalanced path real_path = elim (Option-cases (strrchr real_path slash)) [
    | inl e ↦ rw (can_remove, e) (search balanced_rules depth 9)
    | inr (off, e) ↦ rw (can_remove, e) (search (balanced_rules, can_access-IsBalanced) depth 9)
  ]
