-- ===== src/Copyup/Balanced.antt =====
-- fs/hepunion/cow.c: copies: the buffers that are given back.
use hepunion.Base.{ℕ, zero, suc, ℤ, none, List}
use hepunion.Kernel.{Kernel, Kstat, Dirent}
use hepunion.Exec.{M}
use hepunion.Exec.Balanced.{IsBalanced, IsBalanced-pure, balanced_rules}
use hepunion.SpecialPath.{Branches}
use hepunion.Copyup.{close_both, copy_link, copy_regular, finish_copy, unlink_copyup}
use hepunion.Create.Balanced.{
  dbg_mkdir-IsBalanced, dbg_mkfifo-IsBalanced, dbg_mknod-IsBalanced, dbg_open-IsBalanced,
  dbg_open_2-IsBalanced, dbg_symlink-IsBalanced,
}
use hepunion.Find.Balanced.{find_file_with-IsBalanced}
use hepunion.Lookup.Balanced.{
  find_me-IsBalanced, get_file_attr_worker-IsBalanced, get_path_dentry-IsBalanced, lstat-IsBalanced,
  unlink-IsBalanced,
}
use hepunion.Metadata.Balanced.{set_me-IsBalanced}
use hepunion.Readlink.{read_target, readlink}
use hepunion.Tree.Balanced.{find_path_worker-IsBalanced, find_present-IsBalanced}
use hepunion.Whiteout.Balanced.{vfs_readdir-IsBalanced}
use hepunion.Copyup.{
  copy_data, copy_directory, copy_by_type, copyup_with, copy_child, create_copyup_at, create_copyup,
  find_file,
}

module _ ⦃K : Kernel⦄ where
  read_target-IsBalanced : (dentry : K.Dentry) (bufsiz : ℕ) → IsBalanced (read_target dentry bufsiz)
  unfolding read_target
  read_target-IsBalanced dentry bufsiz = search (balanced_rules) depth 24

  readlink-IsBalanced : (path : List ℕ) (bufsiz : ℕ) → IsBalanced (readlink path bufsiz)
  unfolding readlink
  readlink-IsBalanced path bufsiz = search (balanced_rules, read_target-IsBalanced) depth 24

  copy_data-IsBalanced :
      (rounds : ℕ) (ro_fd rw_fd : K.File) → IsBalanced (copy_data rounds ro_fd rw_fd)
  unfolding copy_data
  copy_data-IsBalanced zero ro_fd rw_fd = IsBalanced-pure none
  copy_data-IsBalanced (suc rounds) ro_fd rw_fd =
      let ih = copy_data-IsBalanced rounds in search (balanced_rules, ih) depth 14

  close_both-IsBalanced : (ro_fd rw_fd : K.File) → IsBalanced (close_both ro_fd rw_fd)
  unfolding close_both
  close_both-IsBalanced ro_fd rw_fd = search (balanced_rules) depth 24

module _ ⦃K : Kernel⦄ (b : Branches) (rounds : ℕ) where
  copy_link-IsBalanced :
      (ro_path rw_path : List ℕ) → IsBalanced (copy_link b rounds ro_path rw_path)
  unfolding copy_link
  copy_link-IsBalanced ro_path rw_path =
      search (balanced_rules, readlink-IsBalanced, dbg_symlink-IsBalanced) depth 24

  copy_regular-IsBalanced :
      (ro_path rw_path : List ℕ) (st : Kstat)
      → IsBalanced (copy_regular b rounds ro_path rw_path st)
  unfolding copy_regular
  copy_regular-IsBalanced ro_path rw_path st =
      search
        (
          balanced_rules, dbg_open-IsBalanced, dbg_open_2-IsBalanced, copy_data-IsBalanced,
          close_both-IsBalanced, unlink-IsBalanced,
        )
        depth 24

  copy_directory-IsBalanced :
      (children : K.File → M ℤ) (ro_path rw_path : List ℕ) (st : Kstat)
      → ((f : K.File) → IsBalanced (children f))
      → IsBalanced (copy_directory b rounds children ro_path rw_path st)
  unfolding copy_directory
  copy_directory-IsBalanced children ro_path rw_path st bc =
      search (balanced_rules, bc, dbg_mkdir-IsBalanced, dbg_open-IsBalanced, unlink-IsBalanced)
        depth 24

  copy_by_type-IsBalanced :
      (children : K.File → M ℤ) (ro_path rw_path : List ℕ) (st : Kstat)
      → ((f : K.File) → IsBalanced (children f))
      → IsBalanced (copy_by_type b rounds children ro_path rw_path st)
  unfolding copy_by_type
  copy_by_type-IsBalanced children ro_path rw_path st bc =
      search
        (
          balanced_rules, bc, copy_link-IsBalanced, copy_regular-IsBalanced,
          copy_directory-IsBalanced, dbg_mknod-IsBalanced, dbg_mkfifo-IsBalanced,
        )
        depth 24

  finish_copy-IsBalanced :
      (path rw_path : List ℕ) (st : Kstat) → IsBalanced (finish_copy b rounds path rw_path st)
  unfolding finish_copy
  finish_copy-IsBalanced path rw_path st =
      search (balanced_rules, get_path_dentry-IsBalanced, find_me-IsBalanced, unlink-IsBalanced)
        depth 24

  copyup_with-IsBalanced :
      (children : K.File → M ℤ) (path ro_path rw_path : List ℕ)
      → ((f : K.File) → IsBalanced (children f))
      → IsBalanced (copyup_with b rounds children path ro_path rw_path)
  unfolding copyup_with
  copyup_with-IsBalanced children path ro_path rw_path bc =
      search
        (
          balanced_rules, bc, get_file_attr_worker-IsBalanced, find_path_worker-IsBalanced,
          copy_by_type-IsBalanced, finish_copy-IsBalanced,
        )
        depth 24

  copy_child-IsBalanced :
      (copy : List ℕ → List ℕ → List ℕ → M (ℤ × List ℕ)) (path ro_path : List ℕ) (e : Dirent)
      → ((p q r : List ℕ) → IsBalanced (copy p q r))
      → IsBalanced (copy_child b rounds copy path ro_path e)
  unfolding copy_child
  copy_child-IsBalanced copy path ro_path e bc = search (balanced_rules, bc) depth 24

  create_copyup_at-IsBalanced :
      (depth : ℕ) (path ro_path rw_path : List ℕ)
      → IsBalanced (create_copyup_at b rounds depth path ro_path rw_path)
  unfolding create_copyup_at
  create_copyup_at-IsBalanced zero path ro_path rw_path = search balanced_rules
  create_copyup_at-IsBalanced (suc depth) path ro_path rw_path =
      let ih = create_copyup_at-IsBalanced depth in
      search (vfs_readdir-IsBalanced, copyup_with-IsBalanced, copy_child-IsBalanced, ih)

  pub find_file-IsBalanced :
      (path real_path : List ℕ) (flags : ℕ) → IsBalanced (find_file b rounds path real_path flags)
  unfolding find_file create_copyup
  find_file-IsBalanced path real_path flags =
      search (find_file_with-IsBalanced, create_copyup_at-IsBalanced) depth 12

module _ ⦃K : Kernel⦄ (b : Branches) where
  pub unlink_copyup-IsBalanced :
      (path copyup_path : List ℕ) → IsBalanced (unlink_copyup b path copyup_path)
  unfolding unlink_copyup
  unlink_copyup-IsBalanced path copyup_path =
      search
        (
          balanced_rules, lstat-IsBalanced, unlink-IsBalanced, find_present-IsBalanced,
          set_me-IsBalanced,
        )
        depth 24
