-- ===== src/View/Kept.antt =====
-- Commands that leave the places of the file systems as they are.
use hepunion.Base.{
  ◌≡◌, refl, ◌∙◌, Bool, true, false, Option, none, some, Ptr, ptr, err_ptr, ℤ, if◌then◌else◌,
}
use hepunion.Kernel.{Kernel, Creds}
use hepunion.Exec.{
  World, M, pure, ◌>>=◌, call, call_, ask, as_root, push_root, pop_root, oops, kmalloc, kfree,
  with_buffer, on_ptr, on_option, current_fsuid, current_fsgid,
}
use hepunion.View.{Vfs, root}

module _ ⦃K : Kernel⦄ ⦃V : Vfs⦄ where
  -- Two worlds with the same places.
  abbrev pub SameView : World → World → Type 0
  SameView v w = (e : V.Entry) → V.has w.kernel e ≡ V.has v.kernel e

  pub record IsKept {A : Type 0} (m : M A) : Type 0 where
    pub at : (w : World) → SameView w (m w).1

module _ ⦃K : Kernel⦄ ⦃V : Vfs⦄ {A : Type 0} where
  pub IsKept-pure : (a : A) → IsKept (pure a)
  unfolding pure
  IsKept-pure a = record { at = λ w e. refl }

  pub IsKept-ask : (f : K.State → A) → IsKept (ask f)
  unfolding ask
  IsKept-ask f = record { at = λ w e. refl }

  pub IsKept-oops : (a : A) → IsKept (oops a)
  unfolding oops
  IsKept-oops a = record { at = λ w e. refl }

  pub IsKept-call :
      (f : Creds → K.State → A × K.State)
      → ((c : Creds) (s : K.State) (e : V.Entry) → V.has (f c s).1 e ≡ V.has s e)
      → IsKept (call f)
  unfolding call
  IsKept-call f keeps = record { at = λ w e. keeps _ w.kernel e }

  pub IsKept-root_call :
      (f : Creds → K.State → A × K.State)
      → ((c : Creds) (s : K.State) (e : V.Entry) → V.has (f c s).1 e ≡ V.has s e)
      → IsKept (as_root (call f))
  unfolding as_root push_root pop_root ◌>>=◌ pure call
  IsKept-root_call f keeps = record { at = λ w e. keeps root w.kernel e }

  pub IsKept-bind :
      {B : Type 0} (m : M B) (f : B → M A) → IsKept m → ((b : B) → IsKept (f b)) → IsKept (m >>= f)
  unfolding ◌>>=◌
  IsKept-bind m f bm bf = record { at = λ w e. (bf (m w).0).at (m w).1 e ∙ bm.at w e }

  pub IsKept-if : (b : Bool) (m n : M A) → IsKept m → IsKept n → IsKept (if b then m else n)
  IsKept-if true m n bm bn = bm
  IsKept-if false m n bm bn = bn

  pub IsKept-on_ptr :
      {B : Type 0} (p : Ptr B) (f : B → M A) (g : ℤ → M A)
      → ((b : B) → IsKept (f b))
      → ((e : ℤ) → IsKept (g e))
      → IsKept (on_ptr p f g)
  IsKept-on_ptr (ptr b) f g kf kg = kf b
  IsKept-on_ptr (err_ptr e) f g kf kg = kg e

  pub IsKept-on_option :
      {B : Type 0} (p : Option B) (n : M A) (f : B → M A)
      → IsKept n
      → ((b : B) → IsKept (f b))
      → IsKept (on_option p n f)
  IsKept-on_option none n f bn bf = bn
  IsKept-on_option (some b) n f bn bf = bf b

module _ ⦃K : Kernel⦄ ⦃V : Vfs⦄ where
  pub IsKept-kmalloc : IsKept kmalloc
  unfolding kmalloc
  IsKept-kmalloc = record { at = λ w e. V.kmalloc_keeps w.kernel e }

  pub IsKept-kfree : IsKept kfree
  unfolding kfree
  IsKept-kfree = record { at = λ w e. refl }

  pub IsKept-with_buffer :
      {A : Type 0} (failed : A) (m : M A) → IsKept m → IsKept (with_buffer failed m)
  unfolding with_buffer
  IsKept-with_buffer failed m k = IsKept-bind _ _ IsKept-kmalloc λ got.
      IsKept-if got _ _ (IsKept-bind _ _ k λ a. IsKept-bind _ _ IsKept-kfree λ u. IsKept-pure a)
        (IsKept-pure failed)

  pub IsKept-call_ :
      (f : K.State → K.State)
      → ((s : K.State) (e : V.Entry) → V.has (f s) e ≡ V.has s e)
      → IsKept (call_ f)
  unfolding call_
  IsKept-call_ f keeps = record { at = λ w e. keeps w.kernel e }

  pub IsKept-current_fsuid : IsKept current_fsuid
  unfolding current_fsuid
  IsKept-current_fsuid = record { at = λ w e. refl }

  pub IsKept-current_fsgid : IsKept current_fsgid
  unfolding current_fsgid
  IsKept-current_fsgid = record { at = λ w e. refl }

pub ruleset kept_rules = (
  IsKept-pure, IsKept-ask, IsKept-oops, IsKept-bind, IsKept-if, IsKept-on_ptr, IsKept-on_option,
  IsKept-with_buffer, IsKept-current_fsuid, IsKept-current_fsgid,
)
