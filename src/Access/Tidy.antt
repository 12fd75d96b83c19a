-- ===== src/Access/Tidy.antt =====
-- fs/hepunion/helpers.c, the checks of rights: identity of the process and buffers.
use hepunion.Base.{ℕ, zero, suc, List, [], ◌∷◌, ◌++◌, ◌==◌, Option, none, some}
use hepunion.Base.{pos, is_neg, drop, ◌≡◌}
use hepunion.CString.{strrchr}
use hepunion.Kernel.{Kernel}
use hepunion.Exec.Tidy.{IsTidy, tidy_rules, IsTidy-if, IsTidy-bind, IsTidy-pure}
use hepunion.Attributes.Tidy.{get_file_attr_worker-IsTidy}
use hepunion.SpecialPath.{Branches}
use hepunion.Names.{slash}
use hepunion.Access.{can_access, can_remove, traverse_loop, traverse_from, can_traverse}

module _ ⦃K : Kernel⦄ (b : Branches) where
  pub can_access-IsTidy :
      (path real_path : List ℕ) (mode : ℕ) → IsTidy (can_access b path real_path mode)
  unfolding can_access
  can_access-IsTidy path real_path mode = search (tidy_rules, get_file_attr_worker-IsTidy) depth 9

  traverse_loop-IsTidy :
      (short_path long_path segment rest : List ℕ)
      → IsTidy (traverse_loop b short_path long_path segment rest)
  unfolding traverse_loop
  traverse_loop-IsTidy short_path long_path segment [] = search tidy_rules
  traverse_loop-IsTidy short_path long_path segment (c ∷ rest) =
      let last = traverse_loop-IsTidy short_path long_path (segment ++ c ∷ []) rest in
      let next =
        traverse_loop-IsTidy (short_path ++ segment) (long_path ++ segment) (slash ∷ []) rest in
      IsTidy-if (c == slash) _ _
        (IsTidy-bind _ _ (can_access-IsTidy _ _ _)
          λ err. IsTidy-if (is_neg err) _ _ (IsTidy-pure err) next)
        last

  traverse_from-IsTidy :
      (last : Option ℕ) (long_path path : List ℕ) → IsTidy (traverse_from b last long_path path)
  unfolding traverse_from
  traverse_from-IsTidy none long_path path =
      traverse_loop-IsTidy (slash ∷ []) long_path [] (drop 1 path)
  traverse_from-IsTidy (some zero) long_path path = IsTidy-pure (pos 0)
  traverse_from-IsTidy (some (suc last)) long_path path =
      traverse_loop-IsTidy (slash ∷ []) long_path [] (drop 1 path)

  -- On every path through it, `can_traverse` gives the caller's `fsuid` and `fsgid` back, and
  -- leaves the count of `id_lock`, the flag of the shared buffers, the number of live allocations
  -- and the record of failed assertions as they were.
  pub can_traverse-IsTidy : (path : List ℕ) → IsTidy (can_traverse b path)
  unfolding can_traverse
  can_traverse-IsTidy path = search (tidy_rules, traverse_from-IsTidy) depth 9

  -- For a real path that has a slash, on every path through it, `can_remove` gives the caller's
  -- `fsuid` and `fsgid` back, and leaves the count of `id_lock`, the flag of the shared buffers,
  -- the number of live allocations and the record of failed assertions as they were.
  can_remove-IsTidy :
      (path real_path : List ℕ) (off : ℕ)
      → strrchr real_path slash ≡ some off
      → IsTidy (can_remove b path real_path)
  unfolding can_remove
  can_remove-IsTidy path real_path off found =
      rw (found, can_remove) (search (tidy_rules, can_access-IsTidy) depth 9)
