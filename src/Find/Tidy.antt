-- ===== src/Find/Tidy.antt =====
-- fs/hepunion/helpers.c, `find_file` without a copyup: identity of the process and buffers.
use hepunion.Base.{ℕ, ℤ, List, ◌≡◌, false}
use hepunion.Names.{is_flag_set, create_copyup_flag}
use hepunion.Kernel.{Kernel}
use hepunion.Exec.{M}
use hepunion.Exec.Tidy.{IsTidy, tidy_rules}
use hepunion.Lookup.Tidy.{check_exist-IsTidy}
use hepunion.Attributes.Tidy.{find_whiteout-IsTidy}
use hepunion.Access.Tidy.{can_traverse-IsTidy}
use hepunion.SpecialPath.{Branches}
use hepunion.Find.{check_visible, find_read_only, find_lower, find_file_with}

module _ ⦃K : Kernel⦄ (b : Branches) where
  check_visible-IsTidy : (path : List ℕ) (flags : ℕ) → IsTidy (check_visible b path flags)
  unfolding check_visible
  check_visible-IsTidy path flags =
      search (tidy_rules, find_whiteout-IsTidy, can_traverse-IsTidy) depth 9

  find_read_only-IsTidy : (path : List ℕ) (flags : ℕ) → IsTidy (find_read_only b path flags)
  unfolding find_read_only
  find_read_only-IsTidy path flags =
      search (tidy_rules, check_exist-IsTidy, check_visible-IsTidy) depth 12

module _ ⦃K : Kernel⦄ (b : Branches)
    (create_copyup : List ℕ → List ℕ → List ℕ → M (ℤ × List ℕ)) where
  find_lower-IsTidy :
      (path real_path : List ℕ) (flags : ℕ) (err : ℤ)
      → is_flag_set flags create_copyup_flag ≡ false
      → IsTidy (find_lower b create_copyup path real_path flags err)
  unfolding find_lower
  find_lower-IsTidy path real_path flags err h =
      rw h (search (tidy_rules, find_read_only-IsTidy) depth 9)

  -- Without CREATE_COPYUP among its flags, `find_file`, on every path through it, gives the caller's
  -- `fsuid` and `fsgid` back, and leaves the count of `id_lock`, the flag of the shared buffers, the
  -- number of live allocations and the record of failed assertions as they were.
  pub find_file_with-IsTidy :
      (path real_path : List ℕ) (flags : ℕ)
      → is_flag_set flags create_copyup_flag ≡ false
      → IsTidy (find_file_with b create_copyup path real_path flags)
  unfolding find_file_with
  find_file_with-IsTidy path real_path flags h =
      let lower : (r : List ℕ) (e : ℤ) → IsTidy (find_lower b create_copyup path r flags e) =
        λ r e. find_lower-IsTidy path r flags e h in
      search (tidy_rules, check_exist-IsTidy, can_traverse-IsTidy, lower) depth 12
