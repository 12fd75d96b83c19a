-- ===== src/View/Linked.antt =====
-- fs/hepunion/opts.c, `hepunion_symlink` and `hepunion_link`: what the union shows of a link that they
-- have made.
use hepunion.Base.{
  ℕ, ◌≡◌, ◌≢◌, refl, sym, ◌∙◌, ℤ, pos, is_neg, is_zero, true, false, some, List, [], ◌∷◌, ◌++◌,
  Bool-cases, ◌⊎◌, inl, inr, arith, length, path_max, le→ltb,
}
use hepunion.Kernel.{Kernel}
use hepunion.Exec.{World, M, pure}
use hepunion.Names.{slash, is_flag_set, must_read_only}
use hepunion.SpecialPath.{Branches}
use hepunion.SpecialPath.Bytes.{c_string}
use hepunion.CString.Laws.{snprintf_fits}
use hepunion.Find.{read_write, make_rw_path}
use hepunion.Workers.{dbg_symlink, dbg_link, on_ro_branch}
use hepunion.Paths.{get_relative_path_for_file}
use hepunion.Ops.Make.{on_rw, make_symlink, hepunion_symlink, link_to, make_link, hepunion_link}
use hepunion.View.{Vfs, IsNamed, union_lookup}
use hepunion.View.Writes.{VfsWrites}
use hepunion.View.Kept.{IsKept-ask}
use hepunion.View.Looks.{can_remove-IsKept, find_present-IsKept, get_dentry_path-IsKept}
use hepunion.View.Links.{symlink-makes, link-makes}
use hepunion.View.Handlers.{
  IsOfPlaces, kept, validate_inode-IsKept, validate_dentry-IsKept, in_buffers-Ends,
  for_new_name-Ends, new_name-Ends,
}
use hepunion.View.Made.{find_path-Ends, unlink_whiteout-Ends}
use hepunion.View.Ends.{Ends, Ends-bind, Ends-unless_neg, Ends-with_buffer}
use mathlib.Core.Path.{subst}

module _ ⦃K : Kernel⦄ ⦃V : Vfs⦄ ⦃W : VfsWrites⦄ (b : Branches) (old q : List ℕ) where
  dbg_symlink-makes :
      (w : World)
      → is_neg (dbg_symlink b old q w).0 ≡ false
      → V.has (dbg_symlink b old q w).1.kernel (V.entry q) ≡ true
  unfolding dbg_symlink pure
  dbg_symlink-makes w = elim (Bool-cases (on_ro_branch b q)) [
    | inl ro ↦ rw ro (λ ok. absurd (cc ok))
    | inr allowed ↦ rw allowed (symlink-makes old q w)
  ]

  dbg_link-makes :
      (w : World)
      → is_neg (dbg_link b old q w).0 ≡ false
      → V.has (dbg_link b old q w).1.kernel (V.entry q) ≡ true
  unfolding dbg_link pure
  dbg_link-makes w = elim (Bool-cases (on_ro_branch b q)) [
    | inl ro ↦ rw ro (λ ok. absurd (cc ok))
    | inr allowed ↦ rw allowed (link-makes old q w)
  ]

module _ ⦃K : Kernel⦄ ⦃V : Vfs⦄ ⦃W : VfsWrites⦄ (b : Branches) (p wh_path : List ℕ)
    (named : IsNamed b (slash ∷ p) wh_path)
    (apart : V.entry wh_path ≢ V.entry (b.read_write_branch ++ slash ∷ p))
    (memory : (s : K.State) → (K.kmalloc s).0 ≡ true) where
  abbrev At : List ℕ → Type 0
  At q = q ≡ b.read_write_branch ++ slash ∷ p

  abbrev Made : K.State → Type 0
  Made s = V.has s (V.entry (b.read_write_branch ++ slash ∷ p)) ≡ true

  abbrev Rooted : K.State → Type 0
  Rooted s = V.has s (V.entry (b.read_write_branch ++ slash ∷ [])) ≡ true

  Rooted-of : IsOfPlaces Rooted
  Rooted-of s s' same h = same _ ∙ h

  make_symlink-Ends :
      (symname q : List ℕ) → At q → Ends (λ s. Unit) Made (make_symlink b symname (slash ∷ p) q)
  unfolding make_symlink
  make_symlink-Ends symname q at = unlink_whiteout-Ends b p wh_path named apart memory _ (
      subst
        (λ r.
          (w : World)
          → is_neg (dbg_symlink b symname q w).0 ≡ false
          → V.has (dbg_symlink b symname q w).1.kernel (V.entry r) ≡ true)
        at (dbg_symlink-makes b symname q))

  on_rw-Ends :
      (rest : List ℕ → M ℤ)
      → ((q : List ℕ) → At q → Ends (λ s. Unit) Made (rest q))
      → Ends Rooted Made (on_rw b (slash ∷ p) rest)
  unfolding on_rw make_rw_path
  on_rw-Ends rest ends =
      let rw' = b.read_write_branch ++ slash ∷ p in
      let short = le→ltb path_max (length rw') (omega (arith, named.rw_fits)) in
      rw (short, snprintf_fits rw' named.rw_fits)
        (Ends-bind _ _ (kept {P = Rooted} Rooted-of (can_remove-IsKept b (slash ∷ p) rw'))
          λ allowed.
            Ends-unless_neg allowed _
              λ may. find_path-Ends b p wh_path named apart memory rw' rest ends)

  hepunion_symlink-Ends :
      (dir : K.Inode) (dentry : K.Dentry) (symname : List ℕ)
      → ((old : List ℕ) (v : World)
          → (get_relative_path_for_file b dir dentry old true v).0 ≡ (pos 0, slash ∷ p))
      → Ends Rooted Made (hepunion_symlink b dir dentry symname)
  unfolding hepunion_symlink
  hepunion_symlink-Ends dir dentry symname called =
      new_name-Ends b p dir dentry _ Rooted-of (λ s s' same h. same _ ∙ h) called
        λ real_path. on_rw-Ends _ (make_symlink-Ends symname)

  link_to-makes :
      (origin : ℤ) (real_from q : List ℕ) (w : World)
      → At q
      → is_neg (link_to b origin real_from (slash ∷ p) q w).0 ≡ false
      → Made (link_to b origin real_from (slash ∷ p) q w).1.kernel
  unfolding link_to make_rw_path
  link_to-makes origin real_from q w at =
      let rw' = b.read_write_branch ++ slash ∷ p in
      let short = le→ltb path_max (length rw') (omega (arith, named.rw_fits)) in
      elim (Bool-cases (is_zero origin)) [
        | inl from_ro ↦ rw (from_ro, at) (dbg_symlink-makes b real_from rw' w)
        | inr from_rw ↦
            rw (from_rw, short, snprintf_fits rw' named.rw_fits) (dbg_link-makes b real_from rw' w)
      ]

  make_link-Ends :
      (origin : ℤ) (real_from real_to : List ℕ)
      → Ends Rooted Made (make_link b origin real_from (slash ∷ p) real_to)
  unfolding make_link
  make_link-Ends origin real_from real_to =
      Ends-bind _ _ (kept {P = Rooted} Rooted-of (can_remove-IsKept b (slash ∷ p) real_to))
        λ allowed. Ends-unless_neg allowed _ λ may.
          find_path-Ends b p wh_path named apart memory real_to _ λ q at.
            unlink_whiteout-Ends b p wh_path named apart memory _
              λ w. link_to-makes origin real_from q w at

  hepunion_link-Ends :
      (old_dentry : K.Dentry) (dir : K.Inode) (dentry : K.Dentry)
      → ((old : List ℕ) (v : World)
          → (get_relative_path_for_file b dir dentry old true v).0 ≡ (pos 0, slash ∷ p))
      → Ends Rooted Made (hepunion_link b old_dentry dir dentry)
  unfolding hepunion_link
  hepunion_link-Ends old_dentry dir dentry called =
      in_buffers-Ends {P = Rooted} {Q = Made} _ Rooted-of (λ s s' same h. same _ ∙ h)
        (Ends-bind _ _ (kept {P = Rooted} Rooted-of (validate_inode-IsKept dir)) λ u.
          Ends-bind _ _ (kept {P = Rooted} Rooted-of (validate_dentry-IsKept old_dentry)) λ u.
            Ends-bind _ _ (kept {P = Rooted} Rooted-of (validate_dentry-IsKept dentry)) λ u.
              Ends-bind _ _ (kept {P = Rooted} Rooted-of (IsKept-ask K.left_over)) λ old.
                Ends-bind _ _
                  (kept {P = Rooted} Rooted-of (get_dentry_path-IsKept b old_dentry old true))
                  λ source. Ends-unless_neg source.0 _ λ known.
                    Ends-with_buffer _ (λ s h. V.kmalloc_keeps s _ ∙ h)
                      (Ends-with_buffer _ (λ s h. V.kmalloc_keeps s _ ∙ h)
                        (Ends-bind _ _
                          (kept {P = Rooted} Rooted-of
                            (find_present-IsKept b (c_string source.1) [] 0))
                          λ origin. Ends-unless_neg origin.0 _ λ there.
                            for_new_name-Ends b p dir dentry _ Rooted-of called
                              λ real_path. make_link-Ends origin.0 origin.1 real_path)))

  -- Where there is memory, the paths of the new name fit their buffers, its whiteout is at another
  -- place, and the root of the RW branch is there: if hepunion_symlink or hepunion_link returns 0,
  -- then the union shows the name on the RW branch, whatever it showed before, for all flags without
  -- MUST_READ_ONLY.
  pub union_lookup-linked :
      (dir : K.Inode) (dentry old_dentry : K.Dentry) (symname : List ℕ) (handler : M ℤ) (w : World)
      → (flags : ℕ)
      → ((old : List ℕ) (v : World)
          → (get_relative_path_for_file b dir dentry old true v).0 ≡ (pos 0, slash ∷ p))
      → (handler ≡ hepunion_symlink b dir dentry symname)
        ⊎ (handler ≡ hepunion_link b old_dentry dir dentry)
      → V.has w.kernel (V.entry (b.read_write_branch ++ slash ∷ [])) ≡ true
      → (handler w).0 ≡ pos 0
      → is_flag_set flags must_read_only ≡ false
      → union_lookup b (handler w).1.kernel (slash ∷ p) wh_path flags ≡ some read_write
  union_lookup-linked dir dentry old_dentry symname handler w flags called one rooted ok any =
      let ends : Ends Rooted Made handler = elim one [
        | inl is ↦
            subst (Ends Rooted Made) (sym is) (hepunion_symlink-Ends dir dentry symname called)
        | inr is ↦
            subst (Ends Rooted Made) (sym is) (hepunion_link-Ends old_dentry dir dentry called)
      ] in
      let made : Made (handler w).1.kernel = ends.at w rooted ok in rw (any, made) refl
