-- ===== src/View/Absent.antt =====
-- Commands that leave a place without a file where there is none, and those that leave one there.
use hepunion.Base.{
  ◌≡◌, refl, ◌∙◌, Bool, true, false, Option, none, some, Ptr, ptr, err_ptr, ℤ, if◌then◌else◌,
}
use hepunion.Kernel.{Kernel, Creds}
use hepunion.Exec.{
  World, M, pure, ◌>>=◌, call, call_, ask, as_root, push_root, pop_root, oops, with_buffer, on_ptr,
  on_option,
}
use hepunion.View.{Vfs}
use hepunion.View.Kept.{IsKept, IsKept-kmalloc, IsKept-kfree, IsKept-pure, IsKept-ask, IsKept-oops}

module _ ⦃K : Kernel⦄ ⦃V : Vfs⦄ where
  pub record Stays (t : V.Entry) (v : Bool) {A : Type 0} (m : M A) : Type 0 where
    pub at : (w : World) → V.has w.kernel t ≡ v → V.has (m w).1.kernel t ≡ v

  abbrev pub StaysOut : V.Entry → {A : Type 0} → M A → Type 0
  StaysOut t m = Stays t false m

module _ ⦃K : Kernel⦄ ⦃V : Vfs⦄ {t : V.Entry} {v : Bool} {A : Type 0} where
  pub IsKept→Stays : (m : M A) → IsKept m → Stays t v m
  IsKept→Stays m k = record { at = λ w h. k.at w t ∙ h }

  pub Stays-pure : (a : A) → Stays t v (pure a)
  Stays-pure a = IsKept→Stays _ (IsKept-pure a)

  pub Stays-ask : (f : K.State → A) → Stays t v (ask f)
  Stays-ask f = IsKept→Stays _ (IsKept-ask f)

  pub Stays-oops : (a : A) → Stays t v (oops a)
  Stays-oops a = IsKept→Stays _ (IsKept-oops a)

  pub Stays-call :
      (f : Creds → K.State → A × K.State)
      → ((c : Creds) (s : K.State) → V.has s t ≡ v → V.has (f c s).1 t ≡ v)
      → Stays t v (call f)
  unfolding call
  Stays-call f adds = record { at = λ w h. adds _ w.kernel h }

  pub Stays-bind :
      {B : Type 0} (m : M B) (f : B → M A)
      → Stays t v m
      → ((b : B) → Stays t v (f b))
      → Stays t v (m >>= f)
  unfolding ◌>>=◌
  Stays-bind m f bm bf = record { at = λ w h. (bf (m w).0).at (m w).1 (bm.at w h) }

  -- The same where something is known of the value that is handed on.
  pub Stays-bind_of :
      {B : Type 0} (P : B → Type 0) (m : M B) (f : B → M A)
      → Stays t v m
      → ((w : World) → P (m w).0)
      → ((b : B) → P b → Stays t v (f b))
      → Stays t v (m >>= f)
  unfolding ◌>>=◌
  Stays-bind_of P m f bm known bf = record {
    at = λ w h. (bf (m w).0 (known w)).at (m w).1 (bm.at w h);
  }

  pub Stays-if : (b : Bool) (m n : M A) → Stays t v m → Stays t v n → Stays t v (if b then m else n)
  Stays-if true m n bm bn = bm
  Stays-if false m n bm bn = bn

  pub Stays-on_ptr :
      {B : Type 0} (p : Ptr B) (f : B → M A) (g : ℤ → M A)
      → ((b : B) → p ≡ ptr b → Stays t v (f b))
      → ((e : ℤ) → Stays t v (g e))
      → Stays t v (on_ptr p f g)
  Stays-on_ptr (ptr b) f g kf kg = kf b refl
  Stays-on_ptr (err_ptr e) f g kf kg = kg e

  pub Stays-on_option :
      {B : Type 0} (p : Option B) (n : M A) (f : B → M A)
      → Stays t v n
      → ((b : B) → Stays t v (f b))
      → Stays t v (on_option p n f)
  Stays-on_option none n f bn bf = bn
  Stays-on_option (some b) n f bn bf = bf b

module _ ⦃K : Kernel⦄ ⦃V : Vfs⦄ {t : V.Entry} {v : Bool} where
  pub Stays-call_ :
      (f : K.State → K.State)
      → ((s : K.State) (e : V.Entry) → V.has (f s) e ≡ V.has s e)
      → Stays t v (call_ f)
  unfolding call_
  Stays-call_ f keeps = record { at = λ w h. keeps w.kernel t ∙ h }

  pub Stays-push_root : Stays t v push_root
  unfolding push_root
  Stays-push_root = record { at = λ w h. h }

  pub Stays-pop_root : Stays t v pop_root
  unfolding pop_root
  Stays-pop_root = record { at = λ w h. h }

  pub Stays-as_root : {A : Type 0} (m : M A) → Stays t v m → Stays t v (as_root m)
  unfolding as_root
  Stays-as_root m k =
      Stays-bind _ _ Stays-push_root
        λ u. Stays-bind _ _ k λ a. Stays-bind _ _ Stays-pop_root λ u'. Stays-pure a

  pub Stays-with_buffer :
      {A : Type 0} (failed : A) (m : M A) → Stays t v m → Stays t v (with_buffer failed m)
  unfolding with_buffer
  Stays-with_buffer failed m k = Stays-bind _ _ (IsKept→Stays _ IsKept-kmalloc) λ got.
      Stays-if got _ _
        (Stays-bind _ _ k λ a. Stays-bind _ _ (IsKept→Stays _ IsKept-kfree) λ u. Stays-pure a)
        (Stays-pure failed)
