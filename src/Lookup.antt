-- ===== src/Lookup.antt =====
-- fs/hepunion/helpers.c: the functions that look paths up on the branches and remove what they
-- find, as root: `check_exist`, `get_path_dentry`, `lstat`, `rmdir` and `unlink`.
pub mod Balanced
pub mod Tidy
pub mod Retry
use hepunion.Base.{ℕ, zero, suc, ℤ, pos, is_zero, Ptr, ptr, err_ptr, Bool, true, false, Option}
use hepunion.Base.{none, some, List, if◌then◌else◌}
use hepunion.Kernel.{Kernel, Kstat, Creds}
use hepunion.Exec.{M, pure, ◌>>=◌, ◌>>◌, call, call_, ask, as_root, on_ptr, on_option}
use hepunion.Base.Errno.{einval}
use Prim.Native.Nat.{bit_or}

abbrev pub lookup_directory : ℕ
lookup_directory = 0x2

abbrev pub lookup_parent : ℕ
lookup_parent = 0x10

abbrev pub lookup_reval : ℕ
lookup_reval = 0x20

module _ ⦃K : Kernel⦄ where
  unfoldable pub check_exist : List ℕ → ℕ → M ℤ
  check_exist pathname flag = do
    found ← as_root (call (K.kern_path pathname flag))
    on_ptr found (λ path. do call_ (K.path_put path); pure (pos 0)) pure

  unfoldable pub get_path_dentry : List ℕ → ℕ → M (Ptr K.Dentry)
  get_path_dentry pathname flag = do
    found ← as_root (call (K.kern_path pathname flag))
    on_ptr found (λ dentry. do call_ (K.dget dentry); call_ (K.path_put dentry); pure (ptr dentry))
        (λ e. pure (err_ptr e))

  -- The label `retry`, with a bound on the rounds: `none` is a bound that was too small. The
  -- record is the caller's buffer, written by `vfs_getattr`.
  unfoldable pub lstat_retry : ℕ → ℕ → List ℕ → Kstat → M (Option (ℤ × Kstat))
  lstat_retry zero lookup_flags pathname stat = pure none
  lstat_retry (suc rounds) lookup_flags pathname stat = do
    found ← as_root (call (K.kern_path pathname lookup_flags))
    on_ptr found
        (λ path. do
          answer ← as_root (call (K.vfs_getattr path))
          call_ (K.path_put path)
          if K.retry_estale answer.0 lookup_flags
              then lstat_retry rounds (bit_or lookup_flags lookup_reval) pathname answer.1
              else pure (some answer))
        (λ error. pure (some (error, stat)))

  -- With two rounds: Linux asks for no retry after a lookup with `LOOKUP_REVAL`.
  unfoldable pub lstat : List ℕ → Kstat → M (ℤ × Kstat)
  lstat pathname stat = do
    answer ← lstat_retry 2 0 pathname stat
    on_option answer (pure (einval, stat)) pure

  -- The parts of `unlink` and `rmdir` behind the search for the parent's inode.
  abbrev pub remove_in :
      (K.Inode → K.Dentry → Creds → K.State → ℤ × K.State) → K.Inode → K.Dentry → M ℤ
  remove_in operation dir dentry = do
    call_ (K.inode_lock dir)
    err ← as_root (call (operation dir dentry))
    call_ (K.inode_unlock dir)
    pure err

  unfoldable pub remove_by : (K.Inode → K.Dentry → Creds → K.State → ℤ × K.State) → List ℕ → M ℤ
  unfolding get_path_dentry
  remove_by operation pathname = do
    found ← get_path_dentry pathname lookup_reval
    on_ptr found
        (λ dentry. do
          parent ← ask (K.parent_inode dentry)
          on_option parent
              (do
                again ← call (K.kern_path pathname lookup_parent)
                on_ptr again
                    (λ path. do
                      dir ← ask (K.d_inode path)
                      err ← remove_in operation dir dentry
                      call_ (K.path_put path)
                      call_ (K.dput dentry)
                      pure err)
                    (λ err. do call_ (K.dput dentry); pure err))
              (λ dir. do err ← remove_in operation dir dentry; call_ (K.dput dentry); pure err))
        pure

  unfoldable pub unlink : List ℕ → M ℤ
  unfolding remove_by
  unlink = remove_by K.vfs_unlink

  unfoldable pub rmdir : List ℕ → M ℤ
  unfolding remove_by
  rmdir = remove_by K.vfs_rmdir
