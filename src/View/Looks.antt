-- ===== src/View/Looks.antt =====
-- fs/hepunion/helpers.c and me.c: the functions that only look leave the places as they are.
use hepunion.Base.{
  ℕ, zero, suc, pos, ℤ, is_neg, Option, none, some, List, [], ◌∷◌, ◌++◌, ◌==◌, drop,
}
use hepunion.Kernel.{Kernel, Kstat}
use hepunion.Names.{slash}
use hepunion.Lookup.{check_exist, lstat_retry, lstat, lookup_reval}
use hepunion.Attributes.{find_me, find_whiteout, get_file_attr_worker}
use hepunion.Base.{Option-cases, inl, inr}
use hepunion.CString.{strrchr}
use hepunion.Access.{can_remove, can_access, traverse_loop, traverse_from, can_traverse}
use hepunion.Exec.{call, call_, as_root}
use hepunion.SpecialPath.{Branches}
use hepunion.Find.{check_visible, find_read_only, find_lower, find_to_copy}
use hepunion.Tree.{find_present}
use hepunion.Base.{Bool, negsuc}
use hepunion.Paths.{
  get_full_path_d, get_dentry_path, alias_loop, skip_branch, relative, get_relative_path_for_file,
  get_inode_path, get_full_path_i,
}
use hepunion.View.{Vfs}
use hepunion.View.Kept.{
  IsKept, kept_rules, IsKept-pure, IsKept-bind, IsKept-if, IsKept-root_call, IsKept-call_,
}
use Prim.Native.Nat.{bit_or}

module _ ⦃K : Kernel⦄ ⦃V : Vfs⦄ where
  kern_path-IsKept : (p : List ℕ) (flag : ℕ) → IsKept (as_root (call (K.kern_path p flag)))
  kern_path-IsKept p flag = IsKept-root_call _ (V.kern_path_keeps p flag)

  vfs_getattr-IsKept : (d : K.Dentry) → IsKept (as_root (call (K.vfs_getattr d)))
  vfs_getattr-IsKept d = IsKept-root_call _ (V.vfs_getattr_keeps d)

  path_put-IsKept : (d : K.Dentry) → IsKept (call_ (K.path_put d))
  path_put-IsKept d = IsKept-call_ _ (V.path_put_keeps d)

  pub check_exist-IsKept : (p : List ℕ) (flag : ℕ) → IsKept (check_exist p flag)
  unfolding check_exist
  check_exist-IsKept p flag = search (kept_rules, kern_path-IsKept, path_put-IsKept) depth 9

  lstat_retry-IsKept :
      (rounds lookup_flags : ℕ) (p : List ℕ) (st : Kstat)
      → IsKept (lstat_retry rounds lookup_flags p st)
  unfolding lstat_retry
  lstat_retry-IsKept zero lookup_flags p st = IsKept-pure none
  lstat_retry-IsKept (suc rounds) lookup_flags p st =
      let ih = lstat_retry-IsKept rounds (bit_or lookup_flags lookup_reval) p in
      search (kept_rules, kern_path-IsKept, vfs_getattr-IsKept, path_put-IsKept, ih) depth 12

  pub lstat-IsKept : (p : List ℕ) (st : Kstat) → IsKept (lstat p st)
  unfolding lstat
  lstat-IsKept p st = search (kept_rules, lstat_retry-IsKept) depth 9

module _ ⦃K : Kernel⦄ ⦃V : Vfs⦄ (b : Branches) where
  pub find_me-IsKept : (path me_path : List ℕ) (st : Kstat) → IsKept (find_me b path me_path st)
  unfolding find_me
  find_me-IsKept path me_path st = search (kept_rules, lstat-IsKept) depth 9

  find_whiteout-IsKept : (path wh_path : List ℕ) → IsKept (find_whiteout b path wh_path)
  unfolding find_whiteout
  find_whiteout-IsKept path wh_path = search (kept_rules, check_exist-IsKept) depth 9

  get_file_attr_worker-IsKept :
      (path real_path : List ℕ) (st : Kstat) → IsKept (get_file_attr_worker b path real_path st)
  unfolding get_file_attr_worker
  get_file_attr_worker-IsKept path real_path st =
      search (kept_rules, lstat-IsKept, find_me-IsKept) depth 9

  can_access-IsKept :
      (path real_path : List ℕ) (mode : ℕ) → IsKept (can_access b path real_path mode)
  unfolding can_access
  can_access-IsKept path real_path mode = search (kept_rules, get_file_attr_worker-IsKept) depth 9

  pub can_remove-IsKept : (path real_path : List ℕ) → IsKept (can_remove b path real_path)
  unfolding can_remove
  can_remove-IsKept path real_path = elim (Option-cases (strrchr real_path slash)) [
    | inl no_slash ↦ rw (no_slash, can_remove) (search kept_rules)
    | inr (off, found) ↦ rw (found, can_remove) (search (kept_rules, can_access-IsKept) depth 9)
  ]

  traverse_loop-IsKept :
      (short_path long_path segment rest : List ℕ)
      → IsKept (traverse_loop b short_path long_path segment rest)
  unfolding traverse_loop
  traverse_loop-IsKept short_path long_path segment [] = IsKept-pure (pos 0)
  traverse_loop-IsKept short_path long_path segment (c ∷ rest) =
      let last = traverse_loop-IsKept short_path long_path (segment ++ c ∷ []) rest in
      let next =
        traverse_loop-IsKept (short_path ++ segment) (long_path ++ segment) (slash ∷ []) rest in
      IsKept-if (c == slash) _ _
        (IsKept-bind _ _ (can_access-IsKept _ _ _)
          λ err. IsKept-if (is_neg err) _ _ (IsKept-pure err) next)
        last

  traverse_from-IsKept :
      (last : Option ℕ) (long_path path : List ℕ) → IsKept (traverse_from b last long_path path)
  unfolding traverse_from
  traverse_from-IsKept none long_path path =
      traverse_loop-IsKept (slash ∷ []) long_path [] (drop 1 path)
  traverse_from-IsKept (some zero) long_path path = IsKept-pure (pos 0)
  traverse_from-IsKept (some (suc last)) long_path path =
      traverse_loop-IsKept (slash ∷ []) long_path [] (drop 1 path)

  can_traverse-IsKept : (path : List ℕ) → IsKept (can_traverse b path)
  unfolding can_traverse
  can_traverse-IsKept path = search (kept_rules, traverse_from-IsKept) depth 9

  check_visible-IsKept : (path : List ℕ) (flags : ℕ) → IsKept (check_visible b path flags)
  unfolding check_visible
  check_visible-IsKept path flags =
      search (kept_rules, find_whiteout-IsKept, can_traverse-IsKept) depth 9

  find_read_only-IsKept : (path : List ℕ) (flags : ℕ) → IsKept (find_read_only b path flags)
  unfolding find_read_only
  find_read_only-IsKept path flags =
      search (kept_rules, check_exist-IsKept, check_visible-IsKept) depth 9

  pub find_present-IsKept :
      (path real_path : List ℕ) (flags : ℕ) → IsKept (find_present b path real_path flags)
  unfolding find_present find_lower find_to_copy
  find_present-IsKept path real_path flags =
      search
        (
          kept_rules, check_exist-IsKept, check_visible-IsKept, find_read_only-IsKept,
          can_traverse-IsKept,
        )
        depth 20

module _ ⦃K : Kernel⦄ ⦃V : Vfs⦄ where
  get_full_path_d-IsKept :
      (d : K.Dentry) (real_path : List ℕ) → IsKept (get_full_path_d d real_path)
  unfolding get_full_path_d
  get_full_path_d-IsKept d real_path = search kept_rules depth 24

  alias_loop-IsKept :
      (ds : List K.Dentry) (ino : ℕ) (len : ℤ) (real_path : List ℕ)
      → IsKept (alias_loop ds ino len real_path)
  unfolding alias_loop
  alias_loop-IsKept [] ino len real_path = IsKept-pure _
  alias_loop-IsKept (d ∷ ds) ino len real_path =
      let ih = alias_loop-IsKept ds ino in search (kept_rules, get_full_path_d-IsKept, ih) depth 12

  skip_branch-IsKept :
      (branch_len len : ℕ) (real_path path : List ℕ)
      → IsKept (skip_branch branch_len len real_path path)
  unfolding skip_branch
  skip_branch-IsKept branch_len len real_path path = search kept_rules depth 24

  relative-IsKept :
      (b : Branches) (len : ℤ) (real_path path : List ℕ) (is_ours : Bool)
      → IsKept (relative b len real_path path is_ours)
  unfolding relative
  relative-IsKept b (negsuc e) real_path path is_ours = IsKept-pure _
  relative-IsKept b (pos n) real_path path is_ours =
      search (kept_rules, skip_branch-IsKept) depth 12

  pub get_relative_path_for_file-IsKept :
      (b : Branches) (dir : K.Inode) (dentry : K.Dentry) (path : List ℕ) (is_ours : Bool)
      → IsKept (get_relative_path_for_file b dir dentry path is_ours)
  unfolding get_relative_path_for_file get_inode_path get_full_path_i
  get_relative_path_for_file-IsKept b dir dentry path is_ours =
      search (kept_rules, alias_loop-IsKept, relative-IsKept) depth 24

  pub get_dentry_path-IsKept :
      (b : Branches) (d : K.Dentry) (path : List ℕ) (is_ours : Bool)
      → IsKept (get_dentry_path b d path is_ours)
  unfolding get_dentry_path
  get_dentry_path-IsKept b d path is_ours =
      search (kept_rules, get_full_path_d-IsKept, relative-IsKept) depth 24
