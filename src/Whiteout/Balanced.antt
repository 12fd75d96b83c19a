-- ===== src/Whiteout/Balanced.antt =====
-- fs/hepunion/wh.c: whiteouts: the buffers that are given back.
use hepunion.Base.{ℕ, ℤ, pos, Option, none, some, List, [], ◌∷◌}
use hepunion.Kernel.{Kernel, Kstat, Dirent}
use hepunion.Exec.{M}
use hepunion.Exec.Balanced.{IsBalanced, IsTidy→IsBalanced, IsBalanced-pure, balanced_rules}
use hepunion.SpecialPath.{Branches}
use hepunion.Create.Balanced.{dbg_creat-IsBalanced, dbg_open-IsBalanced}
use hepunion.Whiteout.{create_whiteout_worker}
use hepunion.Whiteout.{
  each, vfs_readdir, delete_whiteout, check_whiteout, unlink_whiteout, create_me, is_empty_upper,
  is_empty_dir,
}
use hepunion.Whiteout.Tidy.{
  delete_whiteout-IsTidy, check_whiteout-IsTidy, unlink_whiteout-IsTidy, create_me-IsTidy,
}

module _ ⦃K : Kernel⦄ where
  each-IsBalanced :
      (callback : Dirent → M ℤ) (es : List Dirent)
      → ((e : Dirent) → IsBalanced (callback e))
      → IsBalanced (each callback es)
  unfolding each
  each-IsBalanced callback [] bc = IsBalanced-pure (pos 0)
  each-IsBalanced callback (e ∷ es) bc =
      search (balanced_rules, bc, each-IsBalanced callback es) depth 9

  pub vfs_readdir-IsBalanced :
      (file : K.File) (callback : Dirent → M ℤ)
      → ((e : Dirent) → IsBalanced (callback e))
      → IsBalanced (vfs_readdir file callback)
  unfolding vfs_readdir
  vfs_readdir-IsBalanced file callback bc = search (balanced_rules, bc, each-IsBalanced) depth 9

  delete_whiteout-IsBalanced : (dir : List ℕ) (e : Dirent) → IsBalanced (delete_whiteout dir e)
  delete_whiteout-IsBalanced dir e = IsTidy→IsBalanced _ (delete_whiteout-IsTidy dir e)

module _ ⦃K : Kernel⦄ (b : Branches) where
  check_whiteout-IsBalanced : (dir : List ℕ) (e : Dirent) → IsBalanced (check_whiteout b dir e)
  check_whiteout-IsBalanced dir e = IsTidy→IsBalanced _ (check_whiteout-IsTidy b dir e)

  pub unlink_whiteout-IsBalanced : (path : List ℕ) → IsBalanced (unlink_whiteout b path)
  unlink_whiteout-IsBalanced path = IsTidy→IsBalanced _ (unlink_whiteout-IsTidy b path)

  pub create_me-IsBalanced :
      (me_path : List ℕ) (kstbuf : Kstat) → IsBalanced (create_me b me_path kstbuf)
  create_me-IsBalanced me_path kstbuf = IsTidy→IsBalanced _ (create_me-IsTidy b me_path kstbuf)

  pub create_whiteout_worker-IsBalanced :
      (wh_path : List ℕ) → IsBalanced (create_whiteout_worker b wh_path)
  unfolding create_whiteout_worker
  create_whiteout_worker-IsBalanced wh_path = search (balanced_rules, dbg_creat-IsBalanced) depth 24

  is_empty_upper-IsBalanced :
      (rw_path : Option (List ℕ)) (err : ℤ) → IsBalanced (is_empty_upper b rw_path err)
  unfolding is_empty_upper
  is_empty_upper-IsBalanced none err = IsBalanced-pure err
  is_empty_upper-IsBalanced (some rw_path) err =
      search
        (balanced_rules, dbg_open-IsBalanced, vfs_readdir-IsBalanced, delete_whiteout-IsBalanced)
        depth 24

  pub is_empty_dir-IsBalanced :
      (path : List ℕ) (ro_path rw_path : Option (List ℕ))
      → IsBalanced (is_empty_dir b path ro_path rw_path)
  unfolding is_empty_dir
  is_empty_dir-IsBalanced path none rw_path = is_empty_upper-IsBalanced rw_path (pos 0)
  is_empty_dir-IsBalanced path (some ro_path) rw_path =
      search
        (
          balanced_rules, dbg_open-IsBalanced, vfs_readdir-IsBalanced, check_whiteout-IsBalanced,
          is_empty_upper-IsBalanced,
        )
        depth 24
