-- ===== src/Readlink.antt =====
-- fs/hepunion/helpers.c, `readlink`: the target of a symbolic link of a branch.
use hepunion.Base.{ℕ, ℤ, is_zero, List, [], ◌==◌, if◌then◌else◌}
use hepunion.Base.Errno.{einval}
use hepunion.Kernel.{Kernel}
use hepunion.Exec.{M, pure, ◌>>=◌, ◌>>◌, call, call_, ask, as_root, on_ptr}

module _ ⦃K : Kernel⦄ where
  -- The part between `push_root` and `pop_root`: the number of bytes or the error, and the bytes.
  unfoldable pub read_target : K.Dentry → ℕ → M (ℤ × List ℕ)
  read_target dentry bufsiz = do
    error ← call (K.security_inode_readlink dentry)
    if is_zero error
        then (do call_ (K.touch_atime dentry); call (K.readlink dentry bufsiz))
        else pure (error, [])

  unfoldable pub readlink : List ℕ → ℕ → M (ℤ × List ℕ)
  unfolding read_target
  readlink path bufsiz = if bufsiz == 0 then pure (einval, []) else do
    found ← as_root (call (K.kern_path path 0))
    on_ptr found
        (λ dentry. do
          inode ← ask (K.d_inode dentry)
          has ← ask (K.has_readlink inode)
          answer ← (if has then as_root (read_target dentry bufsiz) else pure (einval, []))
          call_ (K.path_put dentry)
          pure answer)
        (λ error. pure (error, []))
