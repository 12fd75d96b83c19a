-- ===== src/Readdir/Union.antt =====
-- fs/hepunion/opts.c: the names in the lists that the two `filldir` callbacks fill.
use hepunion.Base.{ℕ, ℤ, pos, ◌≡◌, refl, Bool, false, not, ◌&&◌, ◌||◌, List, [], ◌∷◌}
use hepunion.Base.{arith, same, same→eq, same_refl, Bool-cases, inl, inr, drop, ◌==◌, ap}
use hepunion.Kernel.{Kernel, Dirent}
use hepunion.Exec.{World, M, pure, ◌>>=◌, with_buffer}
use hepunion.Names.{is_me, is_whiteout}
use hepunion.SpecialPath.{Branches}
use hepunion.Readdir.{OpendirContext, names_file, names_whiteout, read_rw_branch, read_ro_branch}
use hepunion.Readdir.{fill}

-- The names that the RW branch shows, and those that it hides.
unfoldable pub shown : List Dirent → List ℕ → Bool
shown [] name = false
shown (e ∷ es) name =
    (not (is_me e.name) && (not (is_whiteout e.name) && same name e.name)) || shown es name

unfoldable pub hidden : List Dirent → List ℕ → Bool
hidden [] name = false
hidden (e ∷ es) name =
    (not (is_me e.name) && (is_whiteout e.name && same name (drop 4 e.name))) || hidden es name

unfoldable pub has_entry : List Dirent → List ℕ → Bool
has_entry [] name = false
has_entry (e ∷ es) name = same name e.name || has_entry es name

-- What a callback that succeeds on an entry has done to the context.
module _ ⦃K : Kernel⦄ (b : Branches) (ctx : OpendirContext) (e : Dirent) (w : World) where
  pub record RwStep (out : OpendirContext) (name : List ℕ) : Type 0 where
    pub files : names_file name out.files ≡ (
        (not (is_me e.name) && (not (is_whiteout e.name) && same name e.name))
        || names_file name ctx.files)
    pub whiteouts :
        (ctx.ro_len == 0) ≡ false
        → names_whiteout name out.whiteouts ≡ (
            (not (is_me e.name) && (is_whiteout e.name && same name (drop 4 e.name)))
            || names_whiteout name ctx.whiteouts)
    pub ro_len : out.ro_len ≡ ctx.ro_len

  record RoStep (out : OpendirContext) (name : List ℕ) : Type 0 where
    files : names_file name out.files ≡ (
        (same name e.name && not (names_whiteout name ctx.whiteouts)) || names_file name ctx.files)
    whiteouts : out.whiteouts ≡ ctx.whiteouts

  pub rw_step :
      (name : List ℕ)
      → (read_rw_branch b ctx e w).0.0 ≡ pos 0
      → RwStep (read_rw_branch b ctx e w).0.1 name
  unfolding read_rw_branch ◌>>=◌ with_buffer names_file names_whiteout
  rw_step name h = record { files = ground arith; whiteouts = ground arith; ro_len = ground arith }

  ro_step :
      (name : List ℕ)
      → (read_ro_branch b ctx e w).0.0 ≡ pos 0
      → RoStep (read_ro_branch b ctx e w).0.1 name
  unfolding read_ro_branch ◌>>=◌
  ro_step name h = elim (Bool-cases (same name e.name)) [
    | inl eq ↦
        let p : name ≡ e.name = same→eq name e.name eq in
        record { files = rw p (ground (arith, same_refl e.name)); whiteouts = ground arith }
    | inr ne ↦ record { files = ground arith; whiteouts = ground arith }
  ]

fill_step :
    ⦃K : Kernel⦄ (ctx : OpendirContext) (e : Dirent) (es : List Dirent)
    (callback : OpendirContext → Dirent → M (ℤ × OpendirContext)) (w : World)
    → (fill callback ctx (e ∷ es) w).0.0 ≡ pos 0
    → ((callback ctx e w).0.0 ≡ pos 0)
      × ((fill callback (callback ctx e w).0.1 es (callback ctx e w).1).0.0 ≡ pos 0)
unfolding fill ◌>>=◌ pure
fill_step ctx e es callback w h = ground arith

-- The fold of the steps over a directory.
module _ ⦃K : Kernel⦄ (b : Branches) where
  fill_rw :
      (ctx : OpendirContext) (es : List Dirent) (w : World) (name : List ℕ)
      → (ctx.ro_len == 0) ≡ false
      → (fill (read_rw_branch b) ctx es w).0.0 ≡ pos 0
      → let out = (fill (read_rw_branch b) ctx es w).0.1 in
        (names_file name out.files ≡ (shown es name || names_file name ctx.files))
        × (names_whiteout name out.whiteouts
            ≡ (hidden es name || names_whiteout name ctx.whiteouts))
  unfolding fill shown hidden ◌>>=◌ pure
  fill_rw ctx [] w name ro h = (refl, refl)
  fill_rw ctx (e ∷ es) w name ro h =
      let step = read_rw_branch b ctx e w in
      let z = fill_step ctx e es (read_rw_branch b) w h in
      let s = rw_step b ctx e w name z.0 in
      let ih = fill_rw step.0.1 es step.1 name (rw s.ro_len ro) z.1 in
      rw z.0 (ground (arith, ih.0, s.files), ground (arith, ih.1, s.whiteouts ro))

  fill_ro :
      (ctx : OpendirContext) (es : List Dirent) (w : World) (name : List ℕ)
      → (fill (read_ro_branch b) ctx es w).0.0 ≡ pos 0
      → let out = (fill (read_ro_branch b) ctx es w).0.1 in
        names_file name out.files ≡ (
          (has_entry es name && not (names_whiteout name ctx.whiteouts))
          || names_file name ctx.files)
  unfolding fill has_entry ◌>>=◌ pure
  fill_ro ctx [] w name h = refl
  fill_ro ctx (e ∷ es) w name h =
      let step = read_ro_branch b ctx e w in
      let z = fill_step ctx e es (read_ro_branch b) w h in
      let s = ro_step b ctx e w name z.0 in
      let ih = fill_ro step.0.1 es step.1 name z.1 in
      rw z.0 (ground (arith, ih, s.files, ap (names_whiteout name) s.whiteouts))

  -- The entries of the RW directory are given to the first callback and then those of the RO
  -- directory to the second, from a context whose lists are empty and that has an RO directory.
  -- If both reads end with status 0, the list has a name exactly if the RW branch shows it (an
  -- entry that is neither metadata nor a whiteout), or if the RO branch has it and the RW branch
  -- has no whiteout of it. The two reads may start in any states.
  pub fill_union :
      (ctx : OpendirContext) (upper lower : List Dirent) (v w : World) (name : List ℕ)
      → ctx.files ≡ []
      → ctx.whiteouts ≡ []
      → (ctx.ro_len == 0) ≡ false
      → (fill (read_rw_branch b) ctx upper v).0.0 ≡ pos 0
      → (fill (read_ro_branch b) (fill (read_rw_branch b) ctx upper v).0.1 lower w).0.0 ≡ pos 0
      → names_file name
          (fill (read_ro_branch b) (fill (read_rw_branch b) ctx upper v).0.1 lower w).0.1.files
        ≡ (shown upper name || (has_entry lower name && not (hidden upper name)))
  unfolding names_file names_whiteout
  fill_union ctx upper lower v w name f0 w0 ro h k =
      let up = fill_rw ctx upper v name ro h in
      let low = fill_ro (fill (read_rw_branch b) ctx upper v).0.1 lower w name k in
      ground (arith, up.0, up.1, low, ap (names_file name) f0, ap (names_whiteout name) w0)
