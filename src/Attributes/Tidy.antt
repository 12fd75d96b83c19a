-- ===== src/Attributes/Tidy.antt =====
-- fs/hepunion/me.c and wh.c, metadata and whiteouts: identity of the process and buffers.
use hepunion.Base.{ℕ, List}
use hepunion.Kernel.{Kernel, Kstat}
use hepunion.Exec.Tidy.{IsTidy, tidy_rules}
use hepunion.Lookup.Tidy.{check_exist-IsTidy, lstat-IsTidy}
use hepunion.SpecialPath.{Branches}
use hepunion.Attributes.{find_me, find_whiteout, get_file_attr_worker}

module _ ⦃K : Kernel⦄ (b : Branches) where
  pub find_me-IsTidy :
      (path me_path : List ℕ) (kstbuf : Kstat) → IsTidy (find_me b path me_path kstbuf)
  unfolding find_me
  find_me-IsTidy path me_path kstbuf = search (tidy_rules, lstat-IsTidy) depth 9

  pub find_whiteout-IsTidy : (path wh_path : List ℕ) → IsTidy (find_whiteout b path wh_path)
  unfolding find_whiteout
  find_whiteout-IsTidy path wh_path = search (tidy_rules, check_exist-IsTidy) depth 9

  pub get_file_attr_worker-IsTidy :
      (path real_path : List ℕ) (kstbuf : Kstat)
      → IsTidy (get_file_attr_worker b path real_path kstbuf)
  unfolding get_file_attr_worker
  get_file_attr_worker-IsTidy path real_path kstbuf =
      search (tidy_rules, lstat-IsTidy, find_me-IsTidy) depth 9
