-- ===== src/Access.antt =====
-- fs/hepunion/helpers.c: `can_access`, `can_remove` and `can_traverse`.
pub mod Tidy
pub mod Rights
use hepunion.Base.{ℕ, zero, suc, ◌-◌, ◌*◌, ◌^◌, ℤ, pos, is_neg, is_zero, Bool, true, false, not}
use hepunion.Base.{◌||◌}
use hepunion.Base.{Option, none, some, List, [], ◌∷◌, ◌++◌, ◌==◌, ltb, if◌then◌else◌}
use hepunion.Base.{take, drop, path_max}
use hepunion.Base.Errno.{eacces, enomem, enametoolong}
use hepunion.CString.{strrchr, snprintf}
use hepunion.Kernel.{Kernel, Kstat}
use hepunion.Exec.{M, pure, ◌>>=◌, ◌>>◌, with_buffer, oops, current_fsuid, current_fsgid}
use hepunion.Names.{slash}
use hepunion.SpecialPath.{Branches}
use hepunion.Attributes.{get_file_attr_worker, unset}
use Prim.Native.Nat.{bit_and}

abbrev pub may_exec : ℕ
may_exec = 1

abbrev may_write : ℕ
may_write = 2

-- `RIGHTS_MASK`, by which the driver shifts from one class of rights to the next.
abbrev rights_mask : ℕ
rights_mask = 3

-- `a << k` and `a & b` as a truth value.
abbrev shl : ℕ → ℕ → ℕ
shl a k = a * 2 ^ k

abbrev test : ℕ → ℕ → Bool
test a b = not (bit_and a b == 0)

-- `can_access` behind the reading of the attributes and the identity.
unfoldable pub match_rights : ℕ → ℕ → Kstat → ℕ → ℤ
match_rights fsuid fsgid stbuf mode =
    let class =
      if fsuid == stbuf.uid
      then shl mode (rights_mask * 2)
      else if fsgid == stbuf.gid
      then shl mode rights_mask
      else mode in
    if bit_and class stbuf.mode == class then pos 0 else eacces

unfoldable pub check_rights : ℕ → ℕ → Kstat → ℕ → ℤ
unfolding match_rights
check_rights fsuid fsgid stbuf mode =
    if fsuid == 0
    then (if test mode may_exec
        then (if test may_exec stbuf.mode
              || (test (shl may_exec rights_mask) stbuf.mode
                  || test (shl may_exec (rights_mask * 2)) stbuf.mode)
            then pos 0
            else match_rights fsuid fsgid stbuf mode)
        else pos 0)
    else match_rights fsuid fsgid stbuf mode

module _ ⦃K : Kernel⦄ (b : Branches) where
  unfoldable pub can_access : List ℕ → List ℕ → ℕ → M ℤ
  can_access path real_path mode = do
    answer ← get_file_attr_worker b path real_path unset
    if is_zero answer.0
        then (do
          fsuid ← current_fsuid
          fsgid ← current_fsgid
          pure (check_rights fsuid fsgid answer.1 mode))
        else pure answer.0

  -- A path without a slash makes the driver copy from before the null pointer.
  unfoldable pub can_remove : List ℕ → List ℕ → M ℤ
  can_remove path real_path = elim (strrchr real_path slash) [
    | none ↦ with_buffer enomem (oops eacces)
    | some off ↦
        if off == 0
        then pure eacces
        else with_buffer enomem (can_access path (take off real_path) may_write)
  ]

  -- The loop of `can_traverse`. `segment` is what stands from `old_directory` up to the place
  -- that `strchr` has reached; the text behind that place is walked through. The source adds to the
  -- two strings without a test of their length; they are lists of any length here.
  unfoldable pub traverse_loop : List ℕ → List ℕ → List ℕ → List ℕ → M ℤ
  traverse_loop short_path long_path segment [] = pure (pos 0)
  traverse_loop short_path long_path segment (c ∷ rest) =
      let short' = short_path ++ segment in
      let long' = long_path ++ segment in
      let last = traverse_loop short_path long_path (segment ++ c ∷ []) rest in
      let next = traverse_loop short' long' (slash ∷ []) rest in
      if c == slash
      then (do err ← can_access short' long' may_exec; if is_neg err then pure err else next)
      else last

  -- The root can always be traversed; any other path is walked from behind its first byte.
  unfoldable pub traverse_from : Option ℕ → List ℕ → List ℕ → M ℤ
  unfolding traverse_loop
  traverse_from (some zero) long_path path = pure (pos 0)
  traverse_from none long_path path = traverse_loop (slash ∷ []) long_path [] (drop 1 path)
  traverse_from (some (suc last)) long_path path =
      traverse_loop (slash ∷ []) long_path [] (drop 1 path)

  unfoldable pub can_traverse : List ℕ → M ℤ
  unfolding traverse_from
  can_traverse path = with_buffer enomem (
      with_buffer enomem (
        let (n, long_path) = snprintf (b.read_only_branch ++ slash ∷ []) in
        if ltb path_max n
        then pure enametoolong
        else traverse_from (strrchr path slash) long_path path))
