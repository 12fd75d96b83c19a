-- ===== src/Readdir/Order.antt =====
-- fs/hepunion/opts.c: repeated calls of `hepunion_readdir` on a context that has been read.
use hepunion.Base.{ℕ, zero, suc, ◌≡◌, refl, false, Option, none, some, List, []}
use hepunion.Base.{◌∷◌, take, drop, get_elem?, take-nil, inl, inr, if◌then◌else◌, ◌⊎◌}
use hepunion.Kernel.{Kernel}
use hepunion.Exec.{World, M, pure, ◌>>=◌}
use hepunion.SpecialPath.{Branches}
use hepunion.Readdir.{ReaddirFile, OpendirContext, hepunion_readdir, is_empty, is_some}

abbrev emit : Option ReaddirFile → List ReaddirFile → List ReaddirFile
emit none rest = rest
emit (some f) rest = f ∷ rest

-- What stands at a position, and what follows it.
at_position :
    (fs : List ReaddirFile) (p : ℕ)
    → ((get_elem? fs p ≡ none) × (drop p fs ≡ []))
      ⊎ ((f : ReaddirFile) × (get_elem? fs p ≡ some f) × (drop p fs ≡ f ∷ drop (suc p) fs))
at_position [] zero = inl (refl, refl)
at_position [] (suc p) = inl (refl, refl)
at_position (f ∷ fs) zero = inr (f, refl, refl)
at_position (f ∷ fs) (suc p) = at_position fs p

module _ ⦃K : Kernel⦄ (b : Branches) where
  -- `n` calls in a row, as `getdents` makes them, and the entries that they give to `filldir`.
  unfoldable pub list_from : ℕ → OpendirContext → ℕ → M (List ReaddirFile)
  list_from zero ctx p = pure []
  list_from (suc n) ctx p = do
    answer ← hepunion_readdir b ctx p
    rest ← list_from n answer.1 answer.2
    pure (emit answer.3 rest)

  list_from-zero : (p : ℕ) (ctx : OpendirContext) (w : World) → list_from 0 ctx p w ≡ ([], w)
  unfolding list_from pure
  list_from-zero p ctx w = refl

  -- One call on a context that has been read.
  list_from-suc :
      (n p : ℕ) (ctx : OpendirContext) (w : World)
      → is_empty ctx.files ≡ false
      → list_from (suc n) ctx p w ≡ (
          let o = get_elem? ctx.files p in
          let rest = list_from n ctx (if is_some o then suc p else p) w in (emit o rest.0, rest.1))
  unfolding list_from hepunion_readdir ◌>>=◌ pure
  list_from-suc n p ctx w h = rw h

  -- On a context whose list of files is not empty, `n` calls of `hepunion_readdir` from position
  -- `p` hand out the first `n` entries of the list from there on, each once and in the order of
  -- the list, and leave the state of driver and kernel as it is.
  pub list_from-take :
      (n p : ℕ) (ctx : OpendirContext) (w : World)
      → is_empty ctx.files ≡ false
      → list_from n ctx p w ≡ (take n (drop p ctx.files), w)
  list_from-take zero p ctx w h = list_from-zero p ctx w
  list_from-take (suc n) p ctx w h = elim (at_position ctx.files p) [
    | inl (e, d) ↦ rw (list_from-suc n p ctx w h, e, list_from-take n p ctx w h, d, take-nil n refl)
    | inr (f, e, d) ↦ rw (list_from-suc n p ctx w h, e, list_from-take n (suc p) ctx w h, d)
  ]
