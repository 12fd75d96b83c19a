-- ===== src/Ops/Remove.antt =====
-- fs/hepunion/opts.c: the handlers that remove an entry (`hepunion_unlink`, `hepunion_rmdir`).
use hepunion.Base.{ℕ, zero, suc, ℤ, pos, negsuc, is_neg, is_zero, true, false, Option, none, some}
use hepunion.Base.{List, [], if◌then◌else◌}
use hepunion.Base.Errno.{enomem, enotempty}
use hepunion.Kernel.{Kernel}
use hepunion.Exec.{M, pure, ◌>>=◌, ◌>>◌, call_, ask, with_buffer}
use hepunion.Names.{must_read_only}
use hepunion.SpecialPath.{Branches}
use hepunion.SpecialPath.Bytes.{c_string}
use hepunion.Lookup.{unlink, rmdir}
use hepunion.Attributes.{unset, find_me}
use hepunion.Access.{can_remove}
use hepunion.Whiteout.{is_empty_dir, create_me}
use hepunion.Tree.{find_present}
use hepunion.Hiding.{create_whiteout, unlink_rw_file}
use hepunion.Paths.{get_relative_path_for_file}
use hepunion.Ops.{in_buffers, validate_both}

module _ ⦃K : Kernel⦄ (b : Branches) where
  -- The end of both handlers for an entry of the RO branch: its metadata file goes, and comes back
  -- where the whiteout cannot be made.
  unfoldable pub cover : List ℕ → M ℤ
  cover path = do
    found ← find_me b path [] unset
    let hide : M (ℤ × List ℕ) = create_whiteout b path []
    if is_neg found.0 then (do made ← hide; pure made.0) else (do
      gone ← unlink found.1
      if is_neg gone then pure gone else do
        made ← hide
        if is_neg made.0 then (do create_me b found.1 found.2; pure made.0) else pure made.0)

  unfoldable pub unlink_ro_file : List ℕ → List ℕ → M ℤ
  unfolding cover
  unlink_ro_file path real_path = do
    allowed ← can_remove b path real_path
    if is_neg allowed then pure allowed else with_buffer enomem (with_buffer enomem (cover path))

  -- The `switch` over the status of `find_file`.
  unfoldable pub unlink_by_branch : List ℕ → ℤ × List ℕ → M ℤ
  unfolding unlink_ro_file
  unlink_by_branch path (negsuc e, real_path) = pure (negsuc e)
  unlink_by_branch path (pos zero, real_path) = unlink_ro_file path real_path
  unlink_by_branch path (pos (suc n), real_path) = unlink_rw_file b path real_path false

  unfoldable pub hepunion_unlink : K.Inode → K.Dentry → M ℤ
  unfolding get_relative_path_for_file unlink_by_branch find_present
  hepunion_unlink dir dentry = in_buffers (do
    validate_both dir dentry
    old ← ask K.left_over
    target ← get_relative_path_for_file b dir dentry old true
    if is_neg target.0 then pure target.0 else do
      found ← find_present b target.1 [] 0
      err ← unlink_by_branch target.1 found
      if is_zero err then (do call_ (K.drop_nlinks dir dentry); pure err) else pure err)

  -- The directory on the RW branch; `wh_path` is what its buffer holds. The answer of
  -- `is_empty_dir` is returned where the whiteout cannot be made.
  unfoldable pub rmdir_rw : List ℕ → List ℕ → List ℕ → Option (List ℕ) → M ℤ
  unfolding create_whiteout
  rmdir_rw path real_path wh_path ro_path = do
    allowed ← can_remove b path real_path
    if is_neg allowed then pure allowed else do
      empty ← is_empty_dir b path ro_path (some real_path)
      let remove : List ℕ → M ℤ = λ out. do
        gone ← rmdir real_path
        if is_neg gone then (do unlink (c_string out); pure gone) else pure gone
      if is_neg empty then pure enotempty else elim ro_path [
        | none ↦ remove wh_path
        | some ro ↦ do
          made ← create_whiteout b path wh_path
          if is_neg made.0 then pure empty else remove made.1
      ]

  -- The directory on the RO branch: leave to remove it ends the function with 0, and a refusal
  -- goes on.
  unfoldable pub rmdir_ro : List ℕ → List ℕ → M ℤ
  unfolding cover
  rmdir_ro path real_path = do
    allowed ← can_remove b path real_path
    if is_zero allowed then pure (pos 0) else do
      empty ← is_empty_dir b path (some real_path) none
      if is_neg empty then pure enotempty else with_buffer enomem (cover path)

  unfoldable pub rmdir_by_branch : List ℕ → ℤ × List ℕ → M ℤ
  unfolding rmdir_rw rmdir_ro find_present
  rmdir_by_branch path (negsuc e, real_path) = pure (negsuc e)
  rmdir_by_branch path (pos zero, real_path) = rmdir_ro path real_path
  rmdir_by_branch path (pos (suc n), real_path) = do
    fresh ← ask K.fresh
    with_buffer enomem (do
      ro ← find_present b path [] must_read_only
      rmdir_rw path real_path fresh (if is_neg ro.0 then none else some ro.1))

  unfoldable pub hepunion_rmdir : K.Inode → K.Dentry → M ℤ
  unfolding get_relative_path_for_file rmdir_by_branch find_present
  hepunion_rmdir dir dentry = in_buffers (do
    validate_both dir dentry
    old ← ask K.left_over
    target ← get_relative_path_for_file b dir dentry old true
    if is_neg target.0
        then pure target.0
        else with_buffer enomem
            (do found ← find_present b target.1 [] 0; rmdir_by_branch target.1 found))
