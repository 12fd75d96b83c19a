-- ===== src/Find/Balanced.antt =====
-- fs/hepunion/helpers.c, `find_file`: the buffers that are given back.
use hepunion.Base.{ℕ, ℤ, List}
use hepunion.Kernel.{Kernel}
use hepunion.Exec.{M}
use hepunion.Exec.Balanced.{IsBalanced, balanced_rules}
use hepunion.SpecialPath.{Branches}
use hepunion.Find.{check_visible, find_read_only}
use hepunion.Lookup.Balanced.{
  can_traverse-IsBalanced, check_exist-IsBalanced, find_whiteout-IsBalanced,
}
use hepunion.Find.{find_to_copy, find_lower, find_file_with}

module _ ⦃K : Kernel⦄ (b : Branches) where
  check_visible-IsBalanced : (path : List ℕ) (flags : ℕ) → IsBalanced (check_visible b path flags)
  unfolding check_visible
  check_visible-IsBalanced path flags =
      search (balanced_rules, find_whiteout-IsBalanced, can_traverse-IsBalanced) depth 24

  find_read_only-IsBalanced : (path : List ℕ) (flags : ℕ) → IsBalanced (find_read_only b path flags)
  unfolding find_read_only
  find_read_only-IsBalanced path flags =
      search (balanced_rules, check_exist-IsBalanced, check_visible-IsBalanced) depth 24

  find_to_copy-IsBalanced :
      (create_copyup : List ℕ → List ℕ → List ℕ → M (ℤ × List ℕ)) (path real_path : List ℕ)
      (flags : ℕ)
      → ((p q r : List ℕ) → IsBalanced (create_copyup p q r))
      → IsBalanced (find_to_copy b create_copyup path real_path flags)
  unfolding find_to_copy
  find_to_copy-IsBalanced create_copyup path real_path flags copied =
      search (balanced_rules, copied, check_exist-IsBalanced, check_visible-IsBalanced) depth 24

  find_lower-IsBalanced :
      (create_copyup : List ℕ → List ℕ → List ℕ → M (ℤ × List ℕ)) (path real_path : List ℕ)
      (flags : ℕ) (err : ℤ)
      → ((p q r : List ℕ) → IsBalanced (create_copyup p q r))
      → IsBalanced (find_lower b create_copyup path real_path flags err)
  unfolding find_lower
  find_lower-IsBalanced create_copyup path real_path flags err copied =
      search (balanced_rules, copied, find_read_only-IsBalanced, find_to_copy-IsBalanced) depth 24

  pub find_file_with-IsBalanced :
      (create_copyup : List ℕ → List ℕ → List ℕ → M (ℤ × List ℕ)) (path real_path : List ℕ)
      (flags : ℕ)
      → ((p q r : List ℕ) → IsBalanced (create_copyup p q r))
      → IsBalanced (find_file_with b create_copyup path real_path flags)
  unfolding find_file_with
  find_file_with-IsBalanced create_copyup path real_path flags copied =
      search
        (
          balanced_rules, copied, check_exist-IsBalanced, can_traverse-IsBalanced,
          find_lower-IsBalanced,
        )
        depth 24
