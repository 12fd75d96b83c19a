-- ===== src/Ops/Make.antt =====
-- fs/hepunion/opts.c: the handlers that make an entry (`hepunion_create`, `hepunion_mkdir`,
-- `hepunion_mknod`, `hepunion_symlink`, `hepunion_link`).
use hepunion.Base.{ℕ, ℤ, pos, is_neg, is_zero, Bool, true, false}
use hepunion.Base.{List, [], ltb, ◌==◌, if◌then◌else◌, path_max}
use hepunion.Base.Errno.{enomem, eexist, enametoolong}
use hepunion.Kernel.{Kernel, Iattr}
use hepunion.Exec.{M, pure, ◌>>=◌, ◌>>◌, call, ask, as_root, with_buffer, on_ptr, on_option}
use hepunion.Exec.{current_fsuid, current_fsgid}
use hepunion.SpecialPath.{Branches}
use hepunion.SpecialPath.Bytes.{c_string}
use hepunion.Lookup.{unlink, rmdir}
use hepunion.Access.{can_remove}
use hepunion.Find.{make_rw_path}
use hepunion.Create.{s_ifmt, s_ififo}
use hepunion.Workers.{dbg_creat, dbg_mkdir, dbg_mknod, dbg_mkfifo, dbg_symlink, dbg_link}
use hepunion.Whiteout.{unlink_whiteout}
use hepunion.Tree.{find_present, find_path_worker}
use hepunion.Hiding.{hide_directory_contents}
use hepunion.Copyup.{s_ifdir}
use hepunion.Paths.{get_dentry_path, get_relative_path_for_file}
use hepunion.Metadata.{attr_owner}
use hepunion.Ops.{in_buffers, validate_inode, validate_dentry, validate_both, fill_inode}
use Prim.Native.Nat.{bit_and, bit_or}

-- The owner of a file that is made.
abbrev owned_by : ℕ → ℕ → Iattr
owned_by uid gid = record {
  ia_valid = attr_owner;
  ia_mode = 0;
  ia_uid = uid;
  ia_gid = gid;
  ia_size = 0;
  ia_atime = 0;
  ia_mtime = 0;
  ia_ctime = 0;
}

module _ ⦃K : Kernel⦄ (b : Branches) where
  -- The start of each handler for a name in a directory: the path, and EEXIST for a name that is
  -- there. `rest` gets the path and what `find_file` has left in `real_path`.
  unfoldable pub for_new_name : K.Inode → K.Dentry → (List ℕ → List ℕ → M ℤ) → M ℤ
  unfolding get_relative_path_for_file find_present
  for_new_name dir dentry rest = do
    old ← ask K.left_over
    target ← get_relative_path_for_file b dir dentry old true
    if is_neg target.0 then pure target.0 else do
      found ← find_present b target.1 [] 0
      if is_neg found.0 then rest target.1 found.1 else pure eexist

  -- The end of `hepunion_create` and `hepunion_mkdir`: the inode, where one can be had, and the
  -- whiteout of the name. `undo` removes what was made.
  unfoldable pub add_inode : K.Inode → K.Dentry → List ℕ → ℕ → Bool → M ℤ → M ℤ
  unfolding fill_inode
  add_inode dir dentry path mode is_dir undo = do
    inode ← call (λ c. K.new_inode)
    on_option inode (do undo; pure enomem)
        (λ i. do fill_inode dir dentry i path mode is_dir; unlink_whiteout b path; pure (pos 0))

  unfoldable pub create_file : K.Inode → K.Dentry → ℕ → List ℕ → List ℕ → M ℤ
  unfolding add_inode
  create_file dir dentry mode path real_path = do
    made ← find_path_worker b path real_path
    if is_neg made.0 then pure made.0 else do
      allowed ← can_remove b path made.1
      if is_neg allowed then pure allowed else do
        opened ← dbg_creat b made.1 mode
        on_ptr opened
            (λ filp. do
              uid ← current_fsuid
              gid ← current_fsgid
              err ← as_root (do
                err ← call (K.notify_change (K.f_dentry filp) (owned_by uid gid))
                call (λ c. K.filp_close filp)
                pure err)
              if is_neg err
                  then (do unlink made.1; pure err)
                  else add_inode dir dentry path mode false (unlink made.1))
            pure

  unfoldable pub hepunion_create : K.Inode → K.Dentry → ℕ → M ℤ
  unfolding for_new_name create_file
  hepunion_create dir dentry mode =
      in_buffers
        (do validate_both dir dentry; for_new_name dir dentry (create_file dir dentry mode))

  -- A new name with its path on the RW branch, where the caller may make it and its directories
  -- are there: `rest` gets the path and the path on the RW branch.
  unfoldable pub on_rw : List ℕ → (List ℕ → M ℤ) → M ℤ
  unfolding make_rw_path
  on_rw path rest =
      let (n, rw_path) = make_rw_path b path in
      if ltb path_max n then pure enametoolong else do
        allowed ← can_remove b path rw_path
        if is_neg allowed then pure allowed else do
          made ← find_path_worker b path rw_path
          if is_neg made.0 then pure made.0 else rest made.1

  unfoldable pub make_dir : K.Inode → K.Dentry → ℕ → List ℕ → List ℕ → M ℤ
  unfolding add_inode
  make_dir dir dentry mode path real_path = do
    err ← dbg_mkdir b real_path mode
    if is_neg err then pure err else do
      hidden ← hide_directory_contents b path
      if is_neg hidden
          then (do rmdir real_path; pure hidden)
          else add_inode dir dentry path mode true (rmdir real_path)

  unfoldable pub hepunion_mkdir : K.Inode → K.Dentry → ℕ → M ℤ
  unfolding for_new_name on_rw make_dir
  hepunion_mkdir dir dentry mode = in_buffers (do
    validate_both dir dentry
    for_new_name dir dentry
        (λ path real_path. on_rw path (make_dir dir dentry (bit_or mode s_ifdir) path)))

  unfoldable pub make_node : ℕ → ℕ → List ℕ → List ℕ → M ℤ
  make_node mode rdev path real_path = do
    made ← find_path_worker b path real_path
    if is_neg made.0 then pure made.0 else do
      err ←
          (if bit_and mode s_ifmt == s_ififo
            then dbg_mkfifo b made.1 mode
            else dbg_mknod b made.1 mode rdev)
      if is_neg err then pure err else do unlink_whiteout b path; pure (pos 0)

  unfoldable pub hepunion_mknod : K.Inode → K.Dentry → ℕ → ℕ → M ℤ
  unfolding for_new_name make_node
  hepunion_mknod dir dentry mode rdev =
      in_buffers (do validate_both dir dentry; for_new_name dir dentry (make_node mode rdev))

  unfoldable pub make_symlink : List ℕ → List ℕ → List ℕ → M ℤ
  make_symlink symname to real_to = do
    err ← dbg_symlink b symname real_to
    if is_neg err then pure err else do unlink_whiteout b to; pure (pos 0)

  unfoldable pub hepunion_symlink : K.Inode → K.Dentry → List ℕ → M ℤ
  unfolding for_new_name on_rw make_symlink
  hepunion_symlink dir dentry symname = in_buffers (do
    validate_both dir dentry
    for_new_name dir dentry (λ to real_to. on_rw to (make_symlink symname to)))

  -- A link to a file of the RO branch is a symbolic link to it.
  unfoldable pub link_to : ℤ → List ℕ → List ℕ → List ℕ → M ℤ
  unfolding make_rw_path
  link_to origin real_from to real_to =
      if is_zero origin
      then dbg_symlink b real_from real_to
      else let (n, rw_path) = make_rw_path b to in
        if ltb path_max n then pure enametoolong else dbg_link b real_from rw_path

  -- `real_to` is what `find_file` has left there.
  unfoldable pub make_link : ℤ → List ℕ → List ℕ → List ℕ → M ℤ
  unfolding link_to
  make_link origin real_from to real_to = do
    allowed ← can_remove b to real_to
    if is_neg allowed then pure allowed else do
      made ← find_path_worker b to real_to
      if is_neg made.0 then pure made.0 else do
        err ← link_to origin real_from to made.1
        if is_neg err then pure err else do unlink_whiteout b to; pure (pos 0)

  unfoldable pub hepunion_link : K.Dentry → K.Inode → K.Dentry → M ℤ
  unfolding for_new_name make_link get_dentry_path
  hepunion_link old_dentry dir dentry = in_buffers (do
    validate_inode dir
    validate_dentry old_dentry
    validate_dentry dentry
    old ← ask K.left_over
    source ← get_dentry_path b old_dentry old true
    if is_neg source.0
        then pure source.0
        else with_buffer enomem (
            with_buffer enomem (do
              origin ← find_present b (c_string source.1) [] 0
              if is_neg origin.0
                  then pure origin.0
                  else for_new_name dir dentry (make_link origin.0 origin.1))))
