-- ===== src/Exec/Balanced.antt =====
-- Commands that give back the buffers they take: the flag of the shared buffers and the number of
-- live allocations are as before, with one rule for each way to build a command.
use hepunion.Base.{◌≡◌, ℤ, Ptr, ptr, err_ptr, Option, none, some, Bool, true, false, arith}
use hepunion.Base.{if◌then◌else◌}
use hepunion.Kernel.{Kernel, Creds}
use hepunion.Exec.{World, M, pure, ◌>>=◌, call, call_, ask, current_fsuid, current_fsgid, push_root}
use hepunion.Exec.{pop_root, as_root, on_ptr, on_option, kmalloc, with_buffer, oops}
use hepunion.Exec.Tidy.{IsTidy}

module _ ⦃K : Kernel⦄ where
  pub record SameBuffers (v w : World) : Type 0 where
    pub buffers_in_use : w.buffers_in_use ≡ v.buffers_in_use
    pub live : w.live ≡ v.live

  pub record IsBalanced {A : Type 0} (m : M A) : Type 0 where
    pub at : (w : World) → SameBuffers w (m w).1

module _ ⦃K : Kernel⦄ {A : Type 0} where
  pub IsTidy→IsBalanced : (m : M A) → IsTidy m → IsBalanced m
  IsTidy→IsBalanced m t = record { at = λ w. ground (arith, t.at w) }

  pub IsBalanced-pure : (a : A) → IsBalanced (pure a)
  unfolding pure
  IsBalanced-pure a = record { at = λ w. ground arith }

  pub IsBalanced-call : (f : Creds → K.State → A × K.State) → IsBalanced (call f)
  unfolding call
  IsBalanced-call f = record { at = λ w. ground arith }

  pub IsBalanced-ask : (f : K.State → A) → IsBalanced (ask f)
  unfolding ask
  IsBalanced-ask f = record { at = λ w. ground arith }

  pub IsBalanced-oops : (a : A) → IsBalanced (oops a)
  unfolding oops
  IsBalanced-oops a = record { at = λ w. ground arith }

  pub IsBalanced-bind :
      {B : Type 0} (m : M B) (f : B → M A)
      → IsBalanced m
      → ((b : B) → IsBalanced (f b))
      → IsBalanced (m >>= f)
  unfolding ◌>>=◌
  IsBalanced-bind m f bm bf = record { at = λ w. ground (arith, bm.at w, (bf (m w).0).at (m w).1) }

  pub IsBalanced-if :
      (b : Bool) (m n : M A) → IsBalanced m → IsBalanced n → IsBalanced (if b then m else n)
  IsBalanced-if true m n bm bn = bm
  IsBalanced-if false m n bm bn = bn

  pub IsBalanced-on_ptr :
      {B : Type 0} (p : Ptr B) (f : B → M A) (g : ℤ → M A)
      → ((b : B) → IsBalanced (f b))
      → ((e : ℤ) → IsBalanced (g e))
      → IsBalanced (on_ptr p f g)
  IsBalanced-on_ptr (ptr b) f g bf bg = bf b
  IsBalanced-on_ptr (err_ptr e) f g bf bg = bg e

  pub IsBalanced-on_option :
      {B : Type 0} (p : Option B) (n : M A) (f : B → M A)
      → IsBalanced n
      → ((b : B) → IsBalanced (f b))
      → IsBalanced (on_option p n f)
  IsBalanced-on_option none n f bn bf = bn
  IsBalanced-on_option (some b) n f bn bf = bf b

  pub IsBalanced-with_buffer :
      (failed : A) (m : M A) → IsBalanced m → IsBalanced (with_buffer failed m)
  unfolding with_buffer
  IsBalanced-with_buffer failed m bm = record { at = λ w. ground (arith, bm.at (kmalloc w).1) }

  pub IsBalanced-as_root : (m : M A) → IsBalanced m → IsBalanced (as_root m)
  unfolding as_root
  IsBalanced-as_root m bm = record { at = λ w. ground (arith, bm.at (push_root w).1) }

module _ ⦃K : Kernel⦄ where
  pub IsBalanced-call_ : (f : K.State → K.State) → IsBalanced (call_ f)
  unfolding call_
  IsBalanced-call_ f = record { at = λ w. ground arith }

  pub IsBalanced-push_root : IsBalanced push_root
  unfolding push_root
  IsBalanced-push_root = record { at = λ w. ground arith }

  pub IsBalanced-pop_root : IsBalanced pop_root
  unfolding pop_root
  IsBalanced-pop_root = record { at = λ w. ground arith }

  pub IsBalanced-current_fsuid : IsBalanced current_fsuid
  unfolding current_fsuid
  IsBalanced-current_fsuid = record { at = λ w. ground arith }

  pub IsBalanced-current_fsgid : IsBalanced current_fsgid
  unfolding current_fsgid
  IsBalanced-current_fsgid = record { at = λ w. ground arith }

pub ruleset balanced_rules = (
  IsBalanced-pure, IsBalanced-call, IsBalanced-ask, IsBalanced-oops, IsBalanced-bind, IsBalanced-if,
  IsBalanced-on_ptr, IsBalanced-on_option, IsBalanced-with_buffer, IsBalanced-as_root,
  IsBalanced-call_, IsBalanced-push_root, IsBalanced-pop_root, IsBalanced-current_fsuid,
  IsBalanced-current_fsgid,
)
