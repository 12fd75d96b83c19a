-- ===== src/Metadata/Balanced.antt =====
-- fs/hepunion/me.c: changes of attributes: the buffers that are given back.
use hepunion.Base.{ℕ, List}
use hepunion.Kernel.{Kernel, Kstat, Iattr}
use hepunion.Exec.Balanced.{IsBalanced, balanced_rules}
use hepunion.SpecialPath.{Branches}
use hepunion.Create.Balanced.{dbg_creat-IsBalanced, dbg_open-IsBalanced}
use hepunion.Lookup.Balanced.{find_me-IsBalanced, get_file_attr_worker-IsBalanced, lstat-IsBalanced}
use hepunion.Metadata.{add_me, change_me, get_file_attr, set_me, set_me_worker}
use hepunion.Tree.Balanced.{find_path_null-IsBalanced, find_present-IsBalanced}

module _ ⦃K : Kernel⦄ (b : Branches) where
  pub get_file_attr-IsBalanced :
      (path : List ℕ) (kstbuf : Kstat) → IsBalanced (get_file_attr b path kstbuf)
  unfolding get_file_attr
  get_file_attr-IsBalanced path kstbuf =
      search (balanced_rules, find_present-IsBalanced, get_file_attr_worker-IsBalanced) depth 24

  add_me-IsBalanced :
      (path real_path me_path : List ℕ) (attr : Iattr) (kst : Kstat)
      → IsBalanced (add_me b path real_path me_path attr kst)
  unfolding add_me
  add_me-IsBalanced path real_path me_path attr kst =
      search (balanced_rules, lstat-IsBalanced, find_path_null-IsBalanced, dbg_creat-IsBalanced)
        depth 24

  change_me-IsBalanced : (me_path : List ℕ) (attr : Iattr) → IsBalanced (change_me b me_path attr)
  unfolding change_me
  change_me-IsBalanced me_path attr = search (balanced_rules, dbg_open-IsBalanced) depth 24

  pub set_me_worker-IsBalanced :
      (path real_path : List ℕ) (attr : Iattr) → IsBalanced (set_me_worker b path real_path attr)
  unfolding set_me_worker
  set_me_worker-IsBalanced path real_path attr =
      search (balanced_rules, find_me-IsBalanced, add_me-IsBalanced, change_me-IsBalanced) depth 24

  pub set_me-IsBalanced :
      (path real_path : List ℕ) (kstbuf : Kstat) (flags : ℕ)
      → IsBalanced (set_me b path real_path kstbuf flags)
  unfolding set_me
  set_me-IsBalanced path real_path kstbuf flags =
      search (balanced_rules, set_me_worker-IsBalanced) depth 24
