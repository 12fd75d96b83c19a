-- ===== src/Exec/Restored.antt =====
-- Commands that give the process its identity back, whether an assertion fails or not: `fsuid`,
-- `fsgid` and the depth of `id_lock` are as before.
use hepunion.Base.{◌≡◌, Option, none, some, Bool, true, false, arith}
use hepunion.Base.{if◌then◌else◌}
use hepunion.Kernel.{Kernel, Creds}
use hepunion.Exec.{World, M, pure, ◌>>=◌, call, call_, ask, on_option, kmalloc, with_buffer}
use hepunion.Exec.{oops, kfree, will_use_buffers, release_buffers}
use hepunion.Exec.Tidy.{IsTidy}

module _ ⦃K : Kernel⦄ where
  pub record SameIdentity (v w : World) : Type 0 where
    pub fsuid : w.fsuid ≡ v.fsuid
    pub fsgid : w.fsgid ≡ v.fsgid
    pub id_lock : w.id_lock ≡ v.id_lock

  pub record IsRestored {A : Type 0} (m : M A) : Type 0 where
    pub at : (w : World) → SameIdentity w (m w).1

module _ ⦃K : Kernel⦄ {A : Type 0} where
  pub IsTidy→IsRestored : (m : M A) → IsTidy m → IsRestored m
  IsTidy→IsRestored m t = record { at = λ w. ground (arith, t.at w) }

  pub IsRestored-pure : (a : A) → IsRestored (pure a)
  unfolding pure
  IsRestored-pure a = record { at = λ w. ground arith }

  pub IsRestored-call : (f : Creds → K.State → A × K.State) → IsRestored (call f)
  unfolding call
  IsRestored-call f = record { at = λ w. ground arith }

  pub IsRestored-ask : (f : K.State → A) → IsRestored (ask f)
  unfolding ask
  IsRestored-ask f = record { at = λ w. ground arith }

  pub IsRestored-oops : (a : A) → IsRestored (oops a)
  unfolding oops
  IsRestored-oops a = record { at = λ w. ground arith }

  pub IsRestored-bind :
      {B : Type 0} (m : M B) (f : B → M A)
      → IsRestored m
      → ((b : B) → IsRestored (f b))
      → IsRestored (m >>= f)
  unfolding ◌>>=◌
  IsRestored-bind m f bm bf = record { at = λ w. ground (arith, bm.at w, (bf (m w).0).at (m w).1) }

  pub IsRestored-if :
      (b : Bool) (m n : M A) → IsRestored m → IsRestored n → IsRestored (if b then m else n)
  IsRestored-if true m n bm bn = bm
  IsRestored-if false m n bm bn = bn

  pub IsRestored-on_option :
      {B : Type 0} (p : Option B) (n : M A) (f : B → M A)
      → IsRestored n
      → ((b : B) → IsRestored (f b))
      → IsRestored (on_option p n f)
  IsRestored-on_option none n f bn bf = bn
  IsRestored-on_option (some b) n f bn bf = bf b

  pub IsRestored-with_buffer :
      (failed : A) (m : M A) → IsRestored m → IsRestored (with_buffer failed m)
  unfolding with_buffer
  IsRestored-with_buffer failed m bm = record { at = λ w. ground (arith, bm.at (kmalloc w).1) }

module _ ⦃K : Kernel⦄ where
  pub IsRestored-call_ : (f : K.State → K.State) → IsRestored (call_ f)
  unfolding call_
  IsRestored-call_ f = record { at = λ w. ground arith }

  pub IsRestored-kmalloc : IsRestored kmalloc
  unfolding kmalloc
  IsRestored-kmalloc = record { at = λ w. ground arith }

  pub IsRestored-kfree : IsRestored kfree
  unfolding kfree
  IsRestored-kfree = record { at = λ w. ground arith }

  pub IsRestored-will_use_buffers : IsRestored will_use_buffers
  unfolding will_use_buffers
  IsRestored-will_use_buffers = record { at = λ w. ground arith }

  pub IsRestored-release_buffers : IsRestored release_buffers
  unfolding release_buffers
  IsRestored-release_buffers = record { at = λ w. ground arith }

pub ruleset restored_rules = (
  IsRestored-pure, IsRestored-call, IsRestored-ask, IsRestored-oops, IsRestored-bind, IsRestored-if,
  IsRestored-on_option, IsRestored-with_buffer, IsRestored-call_, IsRestored-kmalloc,
  IsRestored-kfree, IsRestored-will_use_buffers, IsRestored-release_buffers,
)
