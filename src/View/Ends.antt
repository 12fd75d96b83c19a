-- ===== src/View/Ends.antt =====
-- Commands whose success, a status of 0, says something of the state that they leave.
use hepunion.Base.{
  suc, ◌≡◌, sym, ◌∙◌, ℤ, pos, is_neg, true, false, Bool-cases, inl, inr, arith, Option, none, some,
  if◌then◌else◌,
}
use hepunion.Base.Errno.{enomem}
use hepunion.Kernel.{Kernel}
use hepunion.Exec.{World, M, pure, ◌>>=◌, ◌>>◌, kfree, with_buffer, on_option}

module _ ⦃K : Kernel⦄ where
  -- From a state with `P`, success ends in one with `Q`.
  pub record Ends (P Q : K.State → Type 0) (m : M ℤ) : Type 0 where
    pub at : (w : World) → P w.kernel → (m w).0 ≡ pos 0 → Q (m w).1.kernel

  pub Ends-known :
      {Q : K.State → Type 0} {R : Type 0} (m : M ℤ) → (R → Ends (λ s. Unit) Q m) → Ends (λ s. R) Q m
  Ends-known m ends = record { at = λ w known. (ends known).at w tt }

module _ ⦃K : Kernel⦄ {P Q : K.State → Type 0} where
  pub Ends-fails : (e : ℤ) → is_neg e ≡ true → Ends P Q (pure e)
  unfolding pure
  Ends-fails e failed = record { at = λ w h ok. absurd (ground (arith, failed, ok)) }

  -- What comes first keeps `P`.
  pub Ends-bind :
      {A : Type 0} (m : M A) (f : A → M ℤ)
      → ((w : World) → P w.kernel → P (m w).1.kernel)
      → ((a : A) → Ends P Q (f a))
      → Ends P Q (m >>= f)
  unfolding ◌>>=◌
  Ends-bind m f keeps ends = record { at = λ w h ok. (ends (m w).0).at (m w).1 (keeps w h) ok }

  pub Ends-from :
      (R : K.State → Type 0) (m : M ℤ) → ((s : K.State) → P s → R s) → Ends R Q m → Ends P Q m
  Ends-from R m weaker ends = record { at = λ w h. ends.at w (weaker w.kernel h) }

  -- What comes first makes `R` of the value that is handed on and the state.
  pub Ends-into :
      {A : Type 0} (R : A → K.State → Type 0) (m : M A) (f : A → M ℤ)
      → ((w : World) → P w.kernel → R (m w).0 (m w).1.kernel)
      → ((a : A) → Ends (R a) Q (f a))
      → Ends P Q (m >>= f)
  unfolding ◌>>=◌
  Ends-into R m f makes ends = record { at = λ w h ok. (ends (m w).0).at (m w).1 (makes w h) ok }

  -- Something is known of the value that is handed on.
  pub Ends-bind_of :
      {A : Type 0} (R : A → Type 0) (m : M A) (f : A → M ℤ)
      → ((w : World) → P w.kernel → P (m w).1.kernel)
      → ((w : World) → P w.kernel → R (m w).0)
      → ((a : A) → R a → Ends P Q (f a))
      → Ends P Q (m >>= f)
  unfolding ◌>>=◌
  Ends-bind_of R m f keeps known ends = record {
    at = λ w h ok. (ends (m w).0 (known w h)).at (m w).1 (keeps w h) ok;
  }

  pub Ends-stays : (m : M ℤ) → ((w : World) → P w.kernel → Q (m w).1.kernel) → Ends P Q m
  Ends-stays m makes = record { at = λ w h ok. makes w h }

  pub Ends-on_option :
      {A : Type 0} (o : Option A) (n : M ℤ) (f : A → M ℤ)
      → Ends P Q n
      → ((a : A) → Ends P Q (f a))
      → Ends P Q (on_option o n f)
  Ends-on_option none n f bn bf = bn
  Ends-on_option (some a) n f bn bf = bf a

  -- An error is returned, whatever goes before it.
  pub Ends-fails_after : {A : Type 0} (m : M A) (e : ℤ) → is_neg e ≡ true → Ends P Q (m >> pure e)
  unfolding ◌>>=◌ pure
  Ends-fails_after m e failed = record { at = λ w h ok. absurd (ground (arith, failed, ok)) }

  -- What follows keeps `Q` and the status.
  pub Ends-then :
      (m : M ℤ) (f : ℤ → M ℤ)
      → Ends P Q m
      → ((e : ℤ) (w : World) → Q w.kernel → Q (f e w).1.kernel)
      → ((e : ℤ) (w : World) → (f e w).0 ≡ e)
      → Ends P Q (m >>= f)
  unfolding ◌>>=◌
  Ends-then m f ends keeps same = record {
    at = λ w h ok. let out = m w in keeps out.0 out.1 (ends.at w h (sym (same out.0 out.1) ∙ ok));
  }

  -- `if (err < 0) return err;`
  pub Ends-unless_neg :
      (e : ℤ) (m : M ℤ)
      → (is_neg e ≡ false → Ends P Q m)
      → Ends P Q (if is_neg e then pure e else m)
  Ends-unless_neg e m ends = elim (Bool-cases (is_neg e)) [
    | inl failed ↦ rw failed (Ends-fails e failed)
    | inr ok ↦ rw ok (ends ok)
  ]

  pub Ends-with_buffer :
      (m : M ℤ)
      → ((s : K.State) → P s → P (K.kmalloc s).1)
      → Ends P Q m
      → Ends P Q (with_buffer enomem m)
  unfolding with_buffer ◌>>=◌ pure kfree
  Ends-with_buffer m keeps ends = record {
    at = λ w h ok.
        let v : World = record w { kernel = (K.kmalloc w.kernel).1; live = suc w.live } in
        elim (Bool-cases (K.kmalloc w.kernel).0) [
          | inl got ↦ rw got (ends.at v (keeps w.kernel h) (rw got at ok))
          | inr none_left ↦ absurd (cc (rw none_left at ok))
        ];
  }
