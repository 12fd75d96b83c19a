-- ===== src/Create.antt =====
-- fs/hepunion/helpers.c: the functions that create entries on the branches, as root: `mkdir`,
-- `mknod`, `mkfifo`, `symlink` and `link`. A retry is bounded as in `lstat`.
pub mod Balanced
pub mod Tidy
pub mod Leaks
use hepunion.Base.{
  ℕ, zero, suc, ℤ, pos, is_zero, ptr, err_ptr, Bool, true, false, Option, none, some,
}
use hepunion.Base.{List, ◌==◌, ◌||◌, if◌then◌else◌}
use hepunion.Base.Errno.{einval, exdev}
use hepunion.Kernel.{Kernel}
use hepunion.Exec.{M, pure, ◌>>=◌, ◌>>◌, call, call_, ask, as_root, push_root, pop_root, on_ptr}
use hepunion.Exec.{on_option}
use hepunion.Lookup.{lookup_directory, lookup_reval}
use Prim.Native.Nat.{bit_and, bit_or, bit_xor}

-- `S_IFMT` and the types of files.
abbrev pub s_ifmt : ℕ
s_ifmt = 0o170000

abbrev pub s_ififo : ℕ
s_ififo = 0o010000

abbrev pub s_ifchr : ℕ
s_ifchr = 0o020000

abbrev pub s_ifblk : ℕ
s_ifblk = 0o060000

abbrev pub s_ifreg : ℕ
s_ifreg = 0o100000

abbrev pub s_ifsock : ℕ
s_ifsock = 0o140000

module _ ⦃K : Kernel⦄ where
  -- `mode &= ~current_umask()` on the 16 bits of `umode_t`, unless the directory has ACLs.
  unfoldable pub masked : K.Inode → ℕ → ℕ → ℕ
  masked dir umask mode = if K.is_posixacl dir then mode else bit_and mode (bit_xor 0xffff umask)

  -- One call of the kernel behind its security hook.
  unfoldable pub if_allowed : M ℤ → M ℤ → M ℤ
  if_allowed hook operation = do error ← hook; if is_zero error then operation else pure error

  -- The label `retry`.
  unfoldable pub mkdir_retry : ℕ → ℕ → List ℕ → ℕ → M (Option ℤ)
  unfolding masked if_allowed
  mkdir_retry zero lookup_flags pathname mode = pure none
  mkdir_retry (suc rounds) lookup_flags pathname mode = do
    found ← as_root (call (K.kern_path_create pathname lookup_flags))
    on_ptr found
        (λ created. do
          dir ← ask (K.d_inode created.0)
          umask ← ask K.current_umask
          error ← as_root (
              if_allowed (call (K.security_path_mkdir created.0 created.1 (masked dir umask mode)))
                (call (K.vfs_mkdir dir created.1 (masked dir umask mode))))
          call_ (K.done_path_create created.0 created.1)
          if K.retry_estale error lookup_flags
              then mkdir_retry rounds (bit_or lookup_flags lookup_reval) pathname
                  (masked dir umask mode)
              else pure (some error))
        (λ error. pure (some error))

  unfoldable pub mkdir : List ℕ → ℕ → M ℤ
  unfolding mkdir_retry
  mkdir pathname mode = do
    answer ← mkdir_retry 2 lookup_directory pathname mode
    on_option answer (pure einval) pure

  -- The `switch` on the type of the file.
  unfoldable pub create_node : K.Inode → K.Dentry → ℕ → ℕ → M ℤ
  create_node dir dentry mode dev =
      let type = bit_and mode s_ifmt in
      if (type == 0) || (type == s_ifreg)
      then call (K.vfs_create dir dentry mode)
      else if (type == s_ifchr) || (type == s_ifblk)
      then call (K.vfs_mknod dir dentry mode (K.new_decode_dev dev))
      else if (type == s_ififo) || (type == s_ifsock)
      then call (K.vfs_mknod dir dentry mode 0)
      else pure (pos 0)

  -- From `push_root` to the label `out`: the security hook's error jumps over `pop_root`.
  unfoldable pub mknod_in : K.Dentry → K.Dentry → K.Inode → ℕ → ℕ → M ℤ
  unfolding create_node
  mknod_in parent dentry dir mode dev = do
    push_root
    error ← call (K.security_path_mknod parent dentry mode dev)
    if is_zero error
        then (do error ← create_node dir dentry mode dev; pop_root; pure error)
        else pure error

  unfoldable pub mknod_retry : ℕ → ℕ → List ℕ → ℕ → ℕ → M (Option ℤ)
  unfolding masked mknod_in
  mknod_retry zero lookup_flags pathname mode dev = pure none
  mknod_retry (suc rounds) lookup_flags pathname mode dev = do
    found ← as_root (call (K.kern_path_create pathname lookup_flags))
    on_ptr found
        (λ created. do
          dir ← ask (K.d_inode created.0)
          umask ← ask K.current_umask
          error ← mknod_in created.0 created.1 dir (masked dir umask mode) dev
          call_ (K.done_path_create created.0 created.1)
          if K.retry_estale error lookup_flags
              then mknod_retry rounds (bit_or lookup_flags lookup_reval) pathname
                  (masked dir umask mode) dev
              else pure (some error))
        (λ error. pure (some error))

  unfoldable pub mknod : List ℕ → ℕ → ℕ → M ℤ
  unfolding mknod_retry
  mknod pathname mode dev = do
    answer ← mknod_retry 2 0 pathname mode dev
    on_option answer (pure einval) pure

  unfoldable pub mkfifo : List ℕ → ℕ → M ℤ
  unfolding mknod
  mkfifo pathname mode = mknod pathname (bit_or mode s_ififo) 0

  -- The failure of `kern_path_create` returns before `pop_root`.
  unfoldable pub symlink_retry : ℕ → ℕ → List ℕ → List ℕ → M (Option ℤ)
  unfolding if_allowed
  symlink_retry zero lookup_flags oldname newname = pure none
  symlink_retry (suc rounds) lookup_flags oldname newname = do
    push_root
    found ← call (K.kern_path_create newname lookup_flags)
    on_ptr found
        (λ created. do
          dir ← ask (K.d_inode created.0)
          error ←
              if_allowed (call (K.security_path_symlink created.0 created.1 oldname))
                (call (K.vfs_symlink dir created.1 oldname))
          pop_root
          call_ (K.done_path_create created.0 created.1)
          if K.retry_estale error lookup_flags
              then symlink_retry rounds (bit_or lookup_flags lookup_reval) oldname newname
              else pure (some error))
        (λ error. pure (some error))

  unfoldable pub symlink : List ℕ → List ℕ → M ℤ
  unfolding symlink_retry
  symlink oldname newname = do
    answer ← symlink_retry 2 0 oldname newname
    on_option answer (pure einval) pure

  -- Up to the label `out_dput`.
  unfoldable pub link_in : K.Dentry → K.Dentry → K.Dentry → K.Inode → M ℤ
  link_in old_path parent new_dentry dir =
      if K.same_mount old_path parent
      then (do
        error ← as_root (call (K.security_path_link old_path parent new_dentry))
        if is_zero error then as_root (call (K.vfs_link old_path dir new_dentry)) else pure error)
      else pure exdev

  -- A retry does not put the path of `oldname` back.
  unfoldable pub link_retry : ℕ → ℕ → List ℕ → List ℕ → M (Option ℤ)
  unfolding link_in
  link_retry zero how oldname newname = pure none
  link_retry (suc rounds) how oldname newname = do
    old ← as_root (call (K.kern_path oldname how))
    on_ptr old
        (λ old_path. do
          found ← as_root (call (K.kern_path_create newname (bit_and how lookup_reval)))
          on_ptr found
              (λ created. do
                dir ← ask (K.d_inode created.0)
                error ← link_in old_path created.0 created.1 dir
                call_ (K.done_path_create created.0 created.1)
                if K.retry_estale error how
                    then link_retry rounds (bit_or how lookup_reval) oldname newname
                    else (do call_ (K.path_put old_path); pure (some error)))
              (λ error. do call_ (K.path_put old_path); pure (some error)))
        (λ error. pure (some error))

  unfoldable pub link : List ℕ → List ℕ → M ℤ
  unfolding link_retry
  link oldname newname = do
    answer ← link_retry 2 0 oldname newname
    on_option answer (pure einval) pure
