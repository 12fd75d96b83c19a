-- ===== src/View/Made.antt =====
-- fs/hepunion/opts.c: what the handlers for a new name on the RW branch share.
use hepunion.Base.{
  [], ℕ, ◌≡◌, ◌≢◌, ℤ, pos, is_neg, true, false, List, ◌∷◌, ◌++◌, arith, length-append,
}
use hepunion.Kernel.{Kernel}
use hepunion.Exec.{World, M, pure}
use hepunion.Names.{slash}
use hepunion.SpecialPath.{Branches}
use hepunion.Whiteout.{unlink_whiteout}
use hepunion.Tree.{find_path_worker}
use hepunion.Exec.{◌>>=◌, ◌>>◌}
use hepunion.Base.{if◌then◌else◌}
use hepunion.View.{Vfs, IsNamed}
use hepunion.View.Writes.{VfsWrites}
use hepunion.View.Absent.{Stays, Stays-pure, Stays-bind, Stays-with_buffer}
use hepunion.View.Removed.{unlink-Stays}
use hepunion.View.Rooted.{find_path_worker-rooted}
use hepunion.View.Ends.{Ends, Ends-known, Ends-from, Ends-into, Ends-stays, Ends-unless_neg}

module _ ⦃K : Kernel⦄ ⦃V : Vfs⦄ ⦃W : VfsWrites⦄ (b : Branches) (p wh_path : List ℕ)
    (named : IsNamed b (slash ∷ p) wh_path)
    (apart : V.entry wh_path ≢ V.entry (b.read_write_branch ++ slash ∷ p))
    (memory : (s : K.State) → (K.kmalloc s).0 ≡ true) where
  abbrev pub rw_path : List ℕ
  rw_path = b.read_write_branch ++ slash ∷ p

  -- The file stands on the RW branch.
  abbrev pub IsMade : K.State → Type 0
  IsMade s = V.has s (V.entry rw_path) ≡ true

  -- The root of the RW branch is there.
  abbrev pub IsRooted : K.State → Type 0
  IsRooted s = V.has s (V.entry (b.read_write_branch ++ slash ∷ [])) ≡ true

  abbrev pub Anywhere : K.State → Type 0
  Anywhere s = Unit

  -- Behind the success of `find_path`, the rest gets the path on the RW branch.
  pub find_path-Ends :
      (real_path : List ℕ) (rest : List ℕ → M ℤ)
      → ((q : List ℕ) → q ≡ rw_path → Ends Anywhere IsMade (rest q))
      → Ends IsRooted IsMade (
          find_path_worker b (slash ∷ p) real_path >>= λ made.
          if is_neg made.0 then pure made.0 else rest made.1)
  find_path-Ends real_path rest ends =
      let rw_len = length-append b.read_write_branch (slash ∷ p) in
      let ro_len = length-append b.read_only_branch (slash ∷ p) in
      Ends-into (λ made s. is_neg made.0 ≡ false → made.1 ≡ rw_path) _ _
        (λ w.
          find_path_worker-rooted b (omega (arith, rw_len, named.rw_fits))
            (omega (arith, ro_len, named.ro_fits)) memory p real_path w named.rw_fits)
        λ made. Ends-known _ λ is. Ends-unless_neg made.0 _ λ ok. ends made.1 (is ok)

  pub unlink_whiteout-Stays : Stays (V.entry rw_path) true (unlink_whiteout b (slash ∷ p))
  unfolding unlink_whiteout
  unlink_whiteout-Stays = Stays-with_buffer _ _ (rw named.marked (unlink-Stays wh_path apart))

  -- What has made the file is followed by the removal of the whiteout.
  pub unlink_whiteout-Ends :
      (m : M ℤ)
      → ((w : World) → is_neg (m w).0 ≡ false → IsMade (m w).1.kernel)
      → Ends Anywhere IsMade (
          m >>= λ err.
          if is_neg err then pure err else (unlink_whiteout b (slash ∷ p) >> pure (pos 0)))
  unlink_whiteout-Ends m makes =
      Ends-into (λ err s. is_neg err ≡ false → IsMade s) _ _ (λ w h. makes w)
        λ err. Ends-unless_neg err _ λ ok.
          Ends-from IsMade _ (λ s made. made ok)
            (Ends-stays _ ((Stays-bind _ _ unlink_whiteout-Stays λ u. Stays-pure (pos 0)).at))
