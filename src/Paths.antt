-- ===== src/Paths.antt =====
-- fs/hepunion/helpers.c: the paths of dentries and inodes (`get_full_path_d`, `get_full_path_i`,
-- `get_relative_path`, `get_relative_path_for_file`). A buffer is the list of its bytes.
pub mod Balanced
pub mod Joined
use hepunion.Base.{
  ℕ, suc, ◌+◌, ◌-◌, ◌≤◌, ℤ, pos, negsuc, is_neg, Bool, true, false, Option, none, some,
}
use hepunion.Base.{List, [], ◌∷◌, ◌++◌, ◌==◌, ltb, if◌then◌else◌, length, take, drop, path_max}
use hepunion.Base.Errno.{enomem, enametoolong, ebadf, einval}
use hepunion.CString.{strncmp_eq}
use hepunion.Kernel.{Kernel}
use hepunion.Exec.{M, pure, ◌>>=◌, ask, oops, with_buffer, on_option}
use hepunion.Names.{slash}
use hepunion.Hash.{name_to_ino}
use hepunion.SpecialPath.{Branches}
use hepunion.SpecialPath.Bytes.{c_string}

-- The loop of `get_full_path_d`: the space that is left, and the string at `end`.
unfoldable pub path_loop : List (List ℕ) → ℕ → List ℕ → Option (ℕ × List ℕ)
path_loop [] buflen end = some (buflen, end)
path_loop (name ∷ parents) buflen end =
    let rest = path_loop parents (buflen - (length name + 1)) (slash ∷ (name ++ end)) in
    if ltb buflen (length name + 1) then none else rest

-- The root's own path.
abbrev pub or_root : ℕ × List ℕ → ℕ × List ℕ
or_root (buflen, end) = if buflen == path_max - 1 then (buflen - 1, slash ∷ end) else (buflen, end)

-- `memcpy(dest, src, n)`
abbrev pub overwrite : ℕ → List ℕ → List ℕ → List ℕ
overwrite n src dest = take n src ++ drop n dest

module _ ⦃K : Kernel⦄ where
  -- The value returned is the space that is left in the temporary buffer, and so many bytes are
  -- copied: those of the string, its final zero and what stands behind the buffer.
  unfoldable pub get_full_path_d : K.Dentry → List ℕ → M (ℤ × List ℕ)
  unfolding path_loop
  get_full_path_d dentry real_path =
      with_buffer (enomem, real_path)
        (do
          names ← ask (K.d_names dentry)
          behind ← ask K.behind
          on_option (path_loop names (path_max - 1) []) (pure (enametoolong, real_path)) (λ found.
              let (buflen, end) = or_root found in
              pure (pos buflen, overwrite buflen (end ++ 0 ∷ behind) real_path)))

  -- Whether the loop of `get_full_path_i` stops at a dentry.
  abbrev is_right : ℤ → ℕ → List ℕ → Bool
  is_right (pos (suc len)) ino real_path = name_to_ino (c_string real_path) == ino
  is_right len ino real_path = false

  unfoldable pub alias_loop : List K.Dentry → ℕ → ℤ → List ℕ → M (ℤ × List ℕ)
  unfolding get_full_path_d name_to_ino c_string
  alias_loop [] ino len real_path = pure (len, real_path)
  alias_loop (dentry ∷ dentries) ino len real_path = do
    found ← get_full_path_d dentry real_path
    let rest = alias_loop dentries ino found.0 found.1
    if is_right found.0 ino found.1 then pure found else rest

  unfoldable pub get_full_path_i : K.Inode → List ℕ → M (ℤ × List ℕ)
  unfolding alias_loop
  get_full_path_i inode real_path = do
    dentries ← ask (K.i_dentry inode)
    ino ← ask (K.i_ino inode)
    alias_loop dentries ino ebadf real_path

  -- The path on a branch, behind the branch and one byte: more bytes to skip than there are make
  -- `memcpy` run through the memory.
  unfoldable pub skip_branch : ℕ → ℕ → List ℕ → List ℕ → M (ℤ × List ℕ)
  skip_branch branch_len len real_path path =
      if ltb len (1 + branch_len)
      then oops (pos 0, path)
      else pure (pos 0, overwrite (len - 1 - branch_len) (drop (1 + branch_len) real_path) path)

  -- What is left in `path` when a path of that length was found.
  unfoldable pub relative : Branches → ℤ → List ℕ → List ℕ → Bool → M (ℤ × List ℕ)
  unfolding skip_branch
  relative b (negsuc e) real_path path is_ours = pure (negsuc e, path)
  relative b (pos len) real_path path is_ours =
      if is_ours
      then pure (pos 0, overwrite len real_path path)
      else if strncmp_eq b.ro_len b.read_only_branch real_path
      then skip_branch b.ro_len len real_path path
      else if strncmp_eq b.rw_len b.read_write_branch real_path
      then skip_branch b.rw_len len real_path path
      else pure (einval, path)

module _ ⦃K : Kernel⦄ (b : Branches) where
  -- The path of a dentry.
  unfoldable pub get_dentry_path : K.Dentry → List ℕ → Bool → M (ℤ × List ℕ)
  unfolding get_full_path_d relative
  get_dentry_path dentry path is_ours =
      with_buffer (enomem, path)
        (do
          fresh ← ask K.fresh
          found ← get_full_path_d dentry fresh
          relative b found.0 found.1 path is_ours)

  -- The path of an inode.
  unfoldable pub get_inode_path : K.Inode → List ℕ → Bool → M (ℤ × List ℕ)
  unfolding get_full_path_i relative
  get_inode_path inode path is_ours =
      with_buffer (enomem, path)
        (do
          fresh ← ask K.fresh
          found ← get_full_path_i inode fresh
          relative b found.0 found.1 path is_ours)

  -- `strncat` behind the path of the directory, with no slash between them. The result is the
  -- string in `path`.
  unfoldable pub get_relative_path_for_file : K.Inode → K.Dentry → List ℕ → Bool → M (ℤ × List ℕ)
  unfolding get_inode_path c_string
  get_relative_path_for_file dir dentry path is_ours = do
    found ← get_inode_path dir path is_ours
    if is_neg found.0 then pure (found.0, c_string found.1) else do
      name ← ask (K.d_name dentry)
      let dir_path = c_string found.1
      pure (
          if ltb path_max (length dir_path + length name)
          then (enametoolong, dir_path)
          else (pos 0, dir_path ++ take (path_max - length dir_path - 1) name))
