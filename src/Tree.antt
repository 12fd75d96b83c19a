-- ===== src/Tree.antt =====
-- fs/hepunion/cow.c, `find_path`: the directories of a path, recreated on the RW branch.
pub mod Balanced
pub mod Reached
pub mod RealPath
pub mod Unlocks
use hepunion.Base.{
  ℕ, suc, ◌+◌, ℤ, pos, negsuc, is_neg, Bool, ptr, err_ptr, true, false, Option, none, some,
}
use hepunion.Base.{List, [], ◌∷◌, ◌++◌, ◌==◌, ltb, if◌then◌else◌, take, drop, path_max}
use hepunion.Base.Errno.{enomem, enametoolong, einval}
use hepunion.CString.{strrchr, snprintf}
use hepunion.Kernel.{Kernel, Kstat, Iattr}
use hepunion.Exec.{
  M, pure, ◌>>=◌, ◌>>◌, call, call_, ask, oops, push_root, pop_root, with_buffer, on_ptr,
}
use hepunion.Exec.{on_option}
use hepunion.Names.{slash}
use hepunion.SpecialPath.{Branches}
use hepunion.Lookup.{lstat, get_path_dentry, lookup_directory}
use hepunion.Attributes.{unset}
use hepunion.Find.{find_file_with, make_rw_path}
use hepunion.Workers.{dbg_mkdir}

-- `ATTR_UID | ATTR_GID | ATTR_ATIME | ATTR_MTIME`
abbrev owner_and_times : ℕ
owner_and_times = 0x36

-- The attributes of a file, for `notify_change`, of which it reads those that `valid` names.
abbrev pub attributes_of : Kstat → ℕ → Iattr
attributes_of st valid = record {
  ia_valid = valid;
  ia_mode = st.mode;
  ia_uid = st.uid;
  ia_gid = st.gid;
  ia_size = 0;
  ia_atime = st.atime;
  ia_mtime = st.mtime;
  ia_ctime = st.ctime;
}

-- Whether a status of `find_file` is READ_WRITE.
abbrev pub is_read_write : ℤ → Bool
is_read_write (pos n) = n == 1
is_read_write (negsuc n) = false

module _ ⦃K : Kernel⦄ (b : Branches) where
  -- `find_file` for the calls without CREATE_COPYUP, which never come to `create_copyup`.
  unfoldable pub find_present : List ℕ → List ℕ → ℕ → M (ℤ × List ℕ)
  unfolding find_file_with
  find_present = find_file_with b (λ path ro_path rw_path. oops (einval, rw_path))

  -- The body of the loop for a directory of the path, with its paths on both branches; `some err`
  -- leaves the function with that error. A directory that exists reaches `pop_root` without
  -- `push_root`, and a refused change of attributes leaves before it.
  unfoldable pub make_directory : List ℕ → List ℕ → M (Option ℤ)
  make_directory read_only real_path = do
    here ← lstat real_path unset
    if is_neg here.0
        then (do
          old ← lstat read_only here.1
          if is_neg old.0 then pure (some old.0) else do
            made ← dbg_mkdir b real_path old.1.mode
            if is_neg made then pure (some made) else do
              found ← get_path_dentry real_path lookup_directory
              on_ptr found
                  (λ dentry. do
                    push_root
                    err ← call (K.notify_change dentry (attributes_of old.1 owner_and_times))
                    if is_neg err
                        then (do
                          parent ← ask (K.parent_inode dentry)
                          on_option parent (oops (pos 0)) (λ dir. call (K.vfs_rmdir dir dentry))
                          call_ (K.dput dentry)
                          pure (some err))
                        else (do call_ (K.dput dentry); pop_root; pure none))
                  (λ err. pure (some err)))
        else (do pop_root; pure none)

  -- The loop over the directories. `segment` is what stands from `old_directory` up to the place
  -- that `strchr` has reached; the text behind that place is walked through. `real_path` grows
  -- without a test of its length.
  unfoldable pub tree_loop : List ℕ → List ℕ → List ℕ → List ℕ → M (ℤ × List ℕ)
  unfolding make_directory
  tree_loop read_only real_path segment [] = pure (pos 0, real_path)
  tree_loop read_only real_path segment (c ∷ rest) =
      let ro' = read_only ++ segment in
      let real' = real_path ++ segment in
      let last = tree_loop read_only real_path (segment ++ c ∷ []) rest in
      let next = tree_loop ro' real' (slash ∷ []) rest in
      if c == slash
      then (do left ← make_directory ro' real'; on_option left next (λ err. pure (err, real')))
      else last

  -- The part of `find_path_worker` that recreates the directories, `last` being the place of the
  -- last slash.
  unfoldable pub make_tree : List ℕ → ℕ → List ℕ → M (ℤ × List ℕ)
  unfolding tree_loop snprintf
  make_tree path last real_path =
      let (n, real) = snprintf (b.read_write_branch ++ slash ∷ []) in
      let (m, read_only) = snprintf (b.read_only_branch ++ slash ∷ []) in
      if ltb path_max n
      then pure (enametoolong, real)
      else if ltb path_max m
      then pure (enametoolong, real)
      else if last == 0
      then pure (pos 0, real)
      else do
        made ← tree_loop read_only real [] (drop 1 path)
        pure (made.0, if is_neg made.0 then made.1 else made.1 ++ drop last path)

  -- The status and what is left in `real_path`. The type of `tree_path_present` has no negative
  -- value, so that the test for an error of `find_file` never holds.
  unfoldable pub find_path_worker : List ℕ → List ℕ → M (ℤ × List ℕ)
  unfolding find_present make_tree make_rw_path
  find_path_worker path real_path =
      on_option (strrchr path slash) (pure (einval, real_path)) (λ last.
        with_buffer (enomem, real_path)
          (with_buffer (enomem, real_path)
            (with_buffer (enomem, real_path)
              (do
                present ← find_present (take (suc last) path) [] 0
                if is_read_write present.0
                    then (let (n, rw_path) = make_rw_path b path in
                        pure (if ltb path_max n then enametoolong else pos 0, rw_path))
                    else make_tree path last real_path))))

  -- `find_path(path, NULL, context)`
  unfoldable pub find_path_null : List ℕ → M ℤ
  unfolding find_path_worker
  find_path_null path = with_buffer enomem (do found ← find_path_worker path []; pure found.0)
