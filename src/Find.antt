-- ===== src/Find.antt =====
-- fs/hepunion/helpers.c, `find_file`: which branch a path of the union is served from.
pub mod Balanced
pub mod Tidy
pub mod Located
use hepunion.Base.{ℕ, ℤ, pos, negsuc, is_neg, is_zero, Bool, true, false, not, List, [], ◌++◌}
use hepunion.Base.{ltb, if◌then◌else◌, path_max}
use hepunion.Base.Errno.{enoent, enomem, enametoolong}
use hepunion.CString.{snprintf}
use hepunion.Kernel.{Kernel}
use hepunion.Exec.{M, pure, ◌>>=◌, ◌>>◌, with_buffer}
use hepunion.Names.{is_flag_set, create_copyup_flag, must_read_only, must_read_write}
use hepunion.Names.{ignore_whiteout}
use hepunion.SpecialPath.{Branches}
use hepunion.Lookup.{check_exist}
use hepunion.Attributes.{find_whiteout}
use hepunion.Access.{can_traverse}

-- `enum types`, as the `int` that `find_file` returns.
abbrev pub read_only : ℤ
read_only = pos 0

abbrev pub read_write : ℤ
read_write = pos 1

abbrev read_write_copyup : ℤ
read_write_copyup = pos 2

-- `make_ro_path(p, r)` and `make_rw_path(p, r)`: the value returned, and what is left in `r`.
unfoldable pub make_ro_path : Branches → List ℕ → ℕ × List ℕ
unfolding snprintf
make_ro_path b p = snprintf (b.read_only_branch ++ p)

unfoldable pub make_rw_path : Branches → List ℕ → ℕ × List ℕ
unfolding snprintf
make_rw_path b p = snprintf (b.read_write_branch ++ p)

module _ ⦃K : Kernel⦄ (b : Branches) where
  -- The check for a whiteout, and the one for the rights to traverse, that both parts of the
  -- search on the RO branch make.
  unfoldable pub check_visible : List ℕ → ℕ → M ℤ
  check_visible path flags = do
    found ←
        (if is_flag_set flags ignore_whiteout
          then pure enoent
          else (do answer ← find_whiteout b path []; pure answer.0))
    if is_zero found then pure enoent else can_traverse b path

  -- The search on the RO branch without CREATE_COPYUP.
  unfoldable pub find_read_only : List ℕ → ℕ → M (ℤ × List ℕ)
  unfolding make_ro_path check_visible
  find_read_only path flags =
      let (n, ro_path) = make_ro_path b path in
      if ltb path_max n then pure (enametoolong, ro_path) else do
        found ← check_exist ro_path 0
        if is_neg found then pure (found, ro_path) else do
          seen ← check_visible path flags
          pure (if is_neg seen then seen else read_only, ro_path)

  -- The search on the RO branch with CREATE_COPYUP. `create_copyup path ro_path rw_path` is the
  -- call of the function of that name in cow.c, with what it leaves in `rw_path`.
  unfoldable pub find_to_copy :
      (List ℕ → List ℕ → List ℕ → M (ℤ × List ℕ)) → List ℕ → List ℕ → ℕ → M (ℤ × List ℕ)
  unfolding make_ro_path check_visible
  find_to_copy create_copyup path real_path flags =
      let (n, ro_path) = make_ro_path b path in
      if ltb path_max n then pure (enametoolong, real_path) else do
        found ← check_exist ro_path 0
        if is_neg found then pure (found, real_path) else do
          seen ← check_visible path flags
          if is_neg seen then pure (seen, real_path) else do
            copied ← create_copyup path ro_path real_path
            pure (if is_zero copied.0 then read_write_copyup else copied.0, copied.1)

  -- `err` holds the value that the variable of that name has here: the error of the search on the
  -- RW branch, if there was one.
  unfoldable pub find_lower :
      (List ℕ → List ℕ → List ℕ → M (ℤ × List ℕ)) → List ℕ → List ℕ → ℕ → ℤ → M (ℤ × List ℕ)
  unfolding find_read_only find_to_copy
  find_lower create_copyup path real_path flags err =
      with_buffer (enomem, real_path)
        (with_buffer (err, real_path)
          (if is_flag_set flags create_copyup_flag
            then find_to_copy create_copyup path real_path flags
            else find_read_only path flags))

  -- The status, and what is left in `real_path`.
  unfoldable pub find_file_with :
      (List ℕ → List ℕ → List ℕ → M (ℤ × List ℕ)) → List ℕ → List ℕ → ℕ → M (ℤ × List ℕ)
  unfolding make_rw_path find_lower
  find_file_with create_copyup path real_path flags =
      if is_flag_set flags must_read_only
      then find_lower create_copyup path real_path flags enomem
      else let (n, rw_path) = make_rw_path b path in
        if ltb path_max n then pure (enametoolong, rw_path) else do
          found ← check_exist rw_path 0
          if is_neg found
              then (if is_flag_set flags must_read_write
                  then pure (found, rw_path)
                  else find_lower create_copyup path rw_path flags found)
              else do
                seen ← can_traverse b path
                pure (if is_neg seen then seen else read_write, rw_path)
