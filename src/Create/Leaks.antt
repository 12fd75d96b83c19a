-- ===== src/Create/Leaks.antt =====
-- fs/hepunion/helpers.c, `mknod` and `symlink`: the paths that return before `pop_root`.
use hepunion.Base.{ℕ, ◌≡◌, refl, ℤ, negsuc, ptr, err_ptr, false, List}
use hepunion.Kernel.{Kernel, Creds}
use hepunion.Exec.{World, pure, ◌>>=◌, inc, push_root, pop_root, call, call_, ask, as_root}
use hepunion.Exec.Tidy.{dec-inc}
use hepunion.Create.{mknod, mknod_retry, mknod_in, symlink, symlink_retry}

module _ ⦃K : Kernel⦄ where
  -- The identity under which the driver works on the branches.
  abbrev root : Creds
  root = record { fsuid = 0; fsgid = 0 }

  -- Where the security hook refuses a node with an error that asks for no retry, `mknod` returns
  -- that error with root as the file system identity and `id_lock` taken once more.
  pub mknod_keeps_root :
      (pathname : List ℕ) (mode dev e : ℕ) (created : K.Dentry × K.Dentry)
      → ((k : K.State) → (K.kern_path_create pathname 0 root k).0 ≡ ptr created)
      → ((m : ℕ) (k : K.State)
          → (K.security_path_mknod created.0 created.1 m dev root k).0 ≡ negsuc e)
      → K.retry_estale (negsuc e) 0 ≡ false
      → (w : World)
      → ((mknod pathname mode dev w).0 ≡ negsuc e)
        × ((mknod pathname mode dev w).1.fsuid ≡ 0)
        × ((mknod pathname mode dev w).1.fsgid ≡ 0)
        × ((mknod pathname mode dev w).1.id_lock ≡ inc w.id_lock)
  unfolding mknod mknod_retry mknod_in ◌>>=◌ pure push_root pop_root call call_ ask as_root
  mknod_keeps_root pathname mode dev e created found denied once w =
      simp (found, denied, once, dec-inc) (refl, refl, refl, refl)

  -- Where the new name cannot be created, `symlink` returns the error with root as the file
  -- system identity and `id_lock` taken once more.
  symlink_keeps_root :
      (oldname newname : List ℕ) (e : ℤ)
      → ((k : K.State) → (K.kern_path_create newname 0 root k).0 ≡ err_ptr e)
      → (w : World)
      → ((symlink oldname newname w).0 ≡ e)
        × ((symlink oldname newname w).1.fsuid ≡ 0)
        × ((symlink oldname newname w).1.fsgid ≡ 0)
        × ((symlink oldname newname w).1.id_lock ≡ inc w.id_lock)
  unfolding symlink symlink_retry ◌>>=◌ pure push_root pop_root call call_ ask as_root
  symlink_keeps_root oldname newname e missing w = simp missing (refl, refl, refl, refl)
