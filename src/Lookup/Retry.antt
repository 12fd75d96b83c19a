-- ===== src/Lookup/Retry.antt =====
-- fs/hepunion/helpers.c, `lstat`: the rounds of its retry loop.
use hepunion.Base.{ℕ, suc, ◌≡◌, refl, ℤ, Bool, true, false, Option, some, List}
use hepunion.Base.{Ptr, ptr, err_ptr, if◌then◌else◌}
use hepunion.Kernel.{Kernel, Kstat}
use hepunion.Exec.{World, M, pure, ◌>>=◌, on_ptr, on_option}
use hepunion.Lookup.{lstat_retry, lstat, lookup_reval}
use Prim.Native.Nat.{bit_or}

module _ ⦃K : Kernel⦄ {A : Type 0} where
  -- `m` has an answer, whatever state it starts in.
  record IsAnswered (m : M (Option A)) : Type 0 where
    at : (w : World) → (a : A) × ((m w).0 ≡ some a)

  IsAnswered-pure : (a : A) → IsAnswered (pure (some a))
  unfolding pure
  IsAnswered-pure a = record { at = λ w. (a, refl) }

  IsAnswered-bind :
      {B : Type 0} (m : M B) (f : B → M (Option A))
      → ((b : B) → IsAnswered (f b))
      → IsAnswered (m >>= f)
  unfolding ◌>>=◌
  IsAnswered-bind m f h = record { at = λ w. (h (m w).0).at (m w).1 }

  IsAnswered-on_ptr :
      {B : Type 0} (p : Ptr B) (f : B → M (Option A)) (g : ℤ → M (Option A))
      → ((b : B) → IsAnswered (f b))
      → ((e : ℤ) → IsAnswered (g e))
      → IsAnswered (on_ptr p f g)
  IsAnswered-on_ptr (ptr b) f g h k = h b
  IsAnswered-on_ptr (err_ptr e) f g h k = k e

  IsAnswered-if :
      (b : Bool) (m n : M (Option A))
      → IsAnswered m
      → IsAnswered n
      → IsAnswered (if b then m else n)
  IsAnswered-if true m n h k = h
  IsAnswered-if false m n h k = k

ruleset answer_rules = (IsAnswered-pure, IsAnswered-bind, IsAnswered-on_ptr, IsAnswered-if)

module _ ⦃K : Kernel⦄
    (once : (error : ℤ) (flags : ℕ)
      → K.retry_estale error (bit_or flags lookup_reval) ≡ false) where
  last_round :
      (rounds flags : ℕ) (pathname : List ℕ) (stat : Kstat)
      → lstat_retry (suc rounds) (bit_or flags lookup_reval) pathname stat
        ≡ lstat_retry 1 (bit_or flags lookup_reval) pathname stat
  unfolding lstat_retry
  last_round rounds flags pathname stat = simp once

  last_round-IsAnswered :
      (rounds flags : ℕ) (pathname : List ℕ) (stat : Kstat)
      → IsAnswered (lstat_retry (suc rounds) (bit_or flags lookup_reval) pathname stat)
  unfolding lstat_retry
  last_round-IsAnswered rounds flags pathname stat = simp once (search answer_rules depth 9)

  two_rounds-IsAnswered :
      (pathname : List ℕ) (stat : Kstat) → IsAnswered (lstat_retry 2 0 pathname stat)
  two_rounds-IsAnswered pathname stat =
      unfold lstat_retry in search (answer_rules, last_round-IsAnswered 0 0) depth 9

  two_rounds :
      (rounds flags : ℕ) (pathname : List ℕ) (stat : Kstat)
      → lstat_retry (suc (suc rounds)) flags pathname stat ≡ lstat_retry 2 flags pathname stat
  unfolding lstat_retry
  two_rounds rounds flags pathname stat = simp once

  -- If the kernel never asks for a retry after a lookup with `LOOKUP_REVAL`, the loop of `lstat`
  -- has an answer within any bound of two rounds or more, and `lstat` returns that answer and that
  -- state.
  pub lstat_retry_enough :
      (rounds : ℕ) (pathname : List ℕ) (stat : Kstat) (w : World)
      → (answer : ℤ × Kstat) × ((lstat_retry (suc (suc rounds)) 0 pathname stat w).0 ≡ some answer)
        × (lstat pathname stat w ≡ (answer, (lstat_retry (suc (suc rounds)) 0 pathname stat w).1))
  unfolding lstat ◌>>=◌
  lstat_retry_enough rounds pathname stat w =
      let (answer, e) = (two_rounds-IsAnswered pathname stat).at w in
      rw (two_rounds rounds 0 pathname stat) (answer, e, rw (e, on_option))
