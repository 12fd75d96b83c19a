-- ===== src/Exec.antt =====
-- Commands of the driver: functions on the state of one mounted file system and of the process
-- that runs in it. `push_root`, `pop_root` and the buffer flag are the macros of
-- fs/hepunion/hepunion.h.
pub mod Tidy
pub mod Balanced
pub mod Restored
use hepunion.Base.{ℕ, zero, suc, ◌+◌, ◌-◌, ℤ, pos, negsuc, is_neg, Ptr, ptr, err_ptr, Option, none}
use hepunion.Base.{some, Bool, true, false, not}
use hepunion.Base.{if◌then◌else◌}
use hepunion.Kernel.{Kernel, Creds}

-- One up, and one down, on a C integer.
unfoldable pub inc : ℤ → ℤ
inc (pos n) = pos (suc n)
inc (negsuc zero) = pos 0
inc (negsuc (suc n)) = negsuc n

unfoldable pub dec : ℤ → ℤ
dec (pos zero) = negsuc 0
dec (pos (suc n)) = pos n
dec (negsuc n) = negsuc (suc n)

module _ ⦃K : Kernel⦄ where
  -- The kernel, `fsuid` and `fsgid` of the current process, the fields of the super block's
  -- information that change after mounting (the saved identity, the count of `id_lock`, the flag of
  -- the shared buffers), the number of allocations not yet freed, and whether a `BUG_ON` fired.
  pub record World : Type 0 where
    pub kernel : K.State
    pub fsuid : ℕ
    pub fsgid : ℕ
    pub uid : ℕ
    pub gid : ℕ
    pub id_lock : ℤ
    pub buffers_in_use : Bool
    pub live : ℕ
    pub bug : Bool

  abbrev pub M : Type 0 → Type 0
  M A = World → A × World

  unfoldable pub pure : {A : Type 0} → A → M A
  pure a w = (a, w)

  infixl 5 ◌>>=◌ ◌>>◌
  unfoldable pub ◌>>=◌ : {A B : Type 0} → M A → (A → M B) → M B
  unfolding pure
  ◌>>=◌ m f w = f (m w).0 (m w).1

  abbrev pub ◌>>◌ : {A B : Type 0} → M A → M B → M B
  m >> n = m >>= λ _. n

  -- An operation of the kernel, under the current identity or whatever that is.
  unfoldable pub call : {A : Type 0} → (Creds → K.State → A × K.State) → M A
  call f w =
      let (a, k) = f (record { fsuid = w.fsuid; fsgid = w.fsgid }) w.kernel in
      (a, record w { kernel = k })

  unfoldable pub call_ : (K.State → K.State) → M (Unit {0})
  call_ f w = (tt, record w { kernel = f w.kernel })

  unfoldable pub ask : {A : Type 0} → (K.State → A) → M A
  ask f w = (f w.kernel, w)

  unfoldable pub current_fsuid : M ℕ
  current_fsuid w = (w.fsuid, w)

  unfoldable pub current_fsgid : M ℕ
  current_fsgid w = (w.fsgid, w)

  unfoldable pub push_root : M (Unit {0})
  unfolding inc
  push_root w =
      (tt, record w { id_lock = inc w.id_lock; uid = w.fsuid; gid = w.fsgid; fsuid = 0; fsgid = 0 })

  unfoldable pub pop_root : M (Unit {0})
  unfolding dec
  pop_root w = (tt, record w { fsuid = w.uid; fsgid = w.gid; id_lock = dec w.id_lock })

  -- One operation between the two.
  unfoldable pub as_root : {A : Type 0} → M A → M A
  unfolding push_root pop_root ◌>>=◌
  as_root m = do push_root; a ← m; pop_root; pure a

  -- `kmalloc` and `kfree` of a path buffer.
  unfoldable pub kmalloc : M Bool
  kmalloc w =
      let (got, k) = K.kmalloc w.kernel in
      (got, record w { kernel = k; live = if got then suc w.live else w.live })

  unfoldable pub kfree : M (Unit {0})
  kfree w = (tt, record w { live = w.live - 1 })

  -- A buffer that is freed on every path out of `m`; `failed` is returned where there is no memory.
  unfoldable pub with_buffer : {A : Type 0} → A → M A → M A
  unfolding kmalloc kfree ◌>>=◌
  with_buffer failed m = do got ← kmalloc; if got then (do a ← m; kfree; pure a) else pure failed

  -- An access through a null or wild pointer.
  unfoldable pub oops : {A : Type 0} → A → M A
  oops a w = (a, record w { bug = true })

  -- `if (IS_ERR(p)) … PTR_ERR(p)`, with the other branch first.
  abbrev pub on_ptr : {A B : Type 0} → Ptr A → (A → M B) → (ℤ → M B) → M B
  on_ptr (ptr a) f g = f a
  on_ptr (err_ptr e) f g = g e

  -- A test for a null pointer.
  abbrev pub on_option : {A B : Type 0} → Option A → M B → (A → M B) → M B
  on_option none n f = n
  on_option (some a) n f = f a

  -- `if (err < 0) return err;`
  abbrev unless_neg : ℤ → M ℤ → M ℤ
  unless_neg e m = if is_neg e then pure e else m

  -- `assert(c->buffers_in_use == 0); c->buffers_in_use = 1`, and back.
  unfoldable pub will_use_buffers : M (Unit {0})
  will_use_buffers w =
      (tt, record w { bug = if w.buffers_in_use then true else w.bug; buffers_in_use = true })

  unfoldable pub release_buffers : M (Unit {0})
  release_buffers w =
      (tt, record w { bug = if w.buffers_in_use then w.bug else true; buffers_in_use = false })
