-- ===== src/Exec/Tidy.antt =====
-- Commands that leave the state of the driver as they found it, with one rule for each way to
-- build a command.
use hepunion.Base.{◌≡◌, refl, ℤ, Ptr, ptr, err_ptr, Option, none, some, pos, negsuc, zero, suc}
use hepunion.Base.{Bool, true, false, arith}
use hepunion.Base.{if◌then◌else◌}
use hepunion.Kernel.{Kernel, Creds}
use hepunion.Exec.{World, M, pure, ◌>>=◌, call, call_, ask, current_fsuid, current_fsgid}
use hepunion.Exec.{push_root, as_root, on_ptr, on_option, kmalloc, with_buffer, inc, dec}

pub dec-inc : (c : ℤ) → dec (inc c) ≡ c
unfolding inc dec
dec-inc (pos n) = refl
dec-inc (negsuc zero) = refl
dec-inc (negsuc (suc n)) = refl

module _ ⦃K : Kernel⦄ where
  -- Nothing but the kernel's own state changed.
  pub record SameDriver (v w : World) : Type 0 where
    pub fsuid : w.fsuid ≡ v.fsuid
    pub fsgid : w.fsgid ≡ v.fsgid
    pub uid : w.uid ≡ v.uid
    pub gid : w.gid ≡ v.gid
    pub id_lock : w.id_lock ≡ v.id_lock
    pub buffers_in_use : w.buffers_in_use ≡ v.buffers_in_use
    pub live : w.live ≡ v.live
    pub bug : w.bug ≡ v.bug

  -- The identity of the process, the depth of the lock, the buffer flag, the allocations and the
  -- assertions are as before; the saved identity may have changed.
  pub record SameProcess (v w : World) : Type 0 where
    pub fsuid : w.fsuid ≡ v.fsuid
    pub fsgid : w.fsgid ≡ v.fsgid
    pub id_lock : w.id_lock ≡ v.id_lock
    pub buffers_in_use : w.buffers_in_use ≡ v.buffers_in_use
    pub live : w.live ≡ v.live
    pub bug : w.bug ≡ v.bug

  pub record IsInert {A : Type 0} (m : M A) : Type 0 where
    pub at : (w : World) → SameDriver w (m w).1

  pub record IsTidy {A : Type 0} (m : M A) : Type 0 where
    pub at : (w : World) → SameProcess w (m w).1

module _ ⦃K : Kernel⦄ {A : Type 0} where
  pub IsInert-pure : (a : A) → IsInert (pure a)
  unfolding pure
  IsInert-pure a = record { at = λ w. ground arith }

  pub IsInert-call : (f : Creds → K.State → A × K.State) → IsInert (call f)
  unfolding call
  IsInert-call f = record { at = λ w. ground arith }

  pub IsInert-ask : (f : K.State → A) → IsInert (ask f)
  unfolding ask
  IsInert-ask f = record { at = λ w. ground arith }

  pub IsInert-bind :
      {B : Type 0} (m : M B) (f : B → M A)
      → IsInert m
      → ((b : B) → IsInert (f b))
      → IsInert (m >>= f)
  unfolding ◌>>=◌
  IsInert-bind m f im if_ = record { at = λ w. ground (arith, im.at w, (if_ (m w).0).at (m w).1) }

  pub IsInert-if : (b : Bool) (m n : M A) → IsInert m → IsInert n → IsInert (if b then m else n)
  IsInert-if true m n im in_ = im
  IsInert-if false m n im in_ = in_

  pub IsTidy-inert : {m : M A} → IsInert m → IsTidy m
  IsTidy-inert i = record { at = λ w. ground (arith, i.at w) }

  pub IsTidy-pure : (a : A) → IsTidy (pure a)
  unfolding pure
  IsTidy-pure a = record { at = λ w. ground arith }

  pub IsTidy-bind :
      {B : Type 0} (m : M B) (f : B → M A) → IsTidy m → ((b : B) → IsTidy (f b)) → IsTidy (m >>= f)
  unfolding ◌>>=◌
  IsTidy-bind m f tm tf = record { at = λ w. ground (arith, tm.at w, (tf (m w).0).at (m w).1) }

  pub IsTidy-if : (b : Bool) (m n : M A) → IsTidy m → IsTidy n → IsTidy (if b then m else n)
  IsTidy-if true m n tm tn = tm
  IsTidy-if false m n tm tn = tn

  pub IsTidy-as_root : (m : M A) → IsInert m → IsTidy (as_root m)
  unfolding as_root
  IsTidy-as_root m im = record {
    at = λ w. let v : World = (push_root w).1 in ground (arith, im.at v, dec-inc w.id_lock);
  }

  pub IsTidy-on_ptr :
      {B : Type 0} (p : Ptr B) (f : B → M A) (g : ℤ → M A)
      → ((b : B) → IsTidy (f b))
      → ((e : ℤ) → IsTidy (g e))
      → IsTidy (on_ptr p f g)
  IsTidy-on_ptr (ptr b) f g tf tg = tf b
  IsTidy-on_ptr (err_ptr e) f g tf tg = tg e

  pub IsTidy-on_option :
      {B : Type 0} (p : Option B) (n : M A) (f : B → M A)
      → IsTidy n
      → ((b : B) → IsTidy (f b))
      → IsTidy (on_option p n f)
  IsTidy-on_option none n f tn tf = tn
  IsTidy-on_option (some b) n f tn tf = tf b

module _ ⦃K : Kernel⦄ where
  pub IsInert-call_ : (f : K.State → K.State) → IsInert (call_ f)
  unfolding call_
  IsInert-call_ f = record { at = λ w. ground arith }

  pub IsTidy-call_ : (f : K.State → K.State) → IsTidy (call_ f)
  IsTidy-call_ f = IsTidy-inert (IsInert-call_ f)

  pub IsTidy-current_fsuid : IsTidy current_fsuid
  unfolding current_fsuid
  IsTidy-current_fsuid = record { at = λ w. ground arith }

  pub IsTidy-current_fsgid : IsTidy current_fsgid
  unfolding current_fsgid
  IsTidy-current_fsgid = record { at = λ w. ground arith }

module _ ⦃K : Kernel⦄ {A : Type 0} where
  pub IsTidy-call : (f : Creds → K.State → A × K.State) → IsTidy (call f)
  IsTidy-call f = IsTidy-inert (IsInert-call f)

  pub IsTidy-with_buffer : (failed : A) (m : M A) → IsTidy m → IsTidy (with_buffer failed m)
  unfolding with_buffer
  IsTidy-with_buffer failed m tm = record { at = λ w. ground (arith, tm.at (kmalloc w).1) }

  pub IsTidy-ask : (f : K.State → A) → IsTidy (ask f)
  IsTidy-ask f = IsTidy-inert (IsInert-ask f)

  pub IsTidy-root_call : (f : Creds → K.State → A × K.State) → IsTidy (as_root (call f))
  IsTidy-root_call f = IsTidy-as_root (call f) (IsInert-call f)

pub ruleset inert_rules =
    (IsInert-pure, IsInert-call, IsInert-call_, IsInert-ask, IsInert-bind, IsInert-if)

pub ruleset tidy_rules = (
  IsTidy-pure, IsTidy-bind, IsTidy-if, IsTidy-root_call, IsTidy-call, IsTidy-call_, IsTidy-ask,
  IsTidy-on_ptr, IsTidy-on_option, IsTidy-with_buffer, IsTidy-current_fsuid, IsTidy-current_fsgid,
)
