-- ===== src/View/Upper.antt =====
-- fs/hepunion/opts.c, `hepunion_unlink`: what a removal leaves, whichever branch the file was on.
use hepunion.Base.{
  ℕ, zero, suc, ◌+◌, ◌<◌, ◌≡◌, ◌≢◌, refl, sym, ap, ◌∙◌, ℤ, pos, negsuc, is_neg, Bool, true, false,
  none, some, List, [], ◌∷◌, ◌++◌, ◌⊎◌, inl, inr, Bool-cases, arith, length, path_max,
  if◌then◌else◌,
}
use hepunion.Base.Errno.{einval}
use hepunion.Kernel.{Kernel}
use hepunion.Exec.{World, oops}
use hepunion.Names.{slash, is_flag_set, must_read_only, must_read_write, create_copyup_flag}
use hepunion.SpecialPath.{Branches}
use hepunion.CString.Laws.{snprintf_fits}
use hepunion.Find.{read_only, read_write, make_rw_path}
use hepunion.Find.Located.{IsLocated, find_file_with-IsLocated}
use hepunion.Hiding.{unlink_rw_file}
use hepunion.Tree.{find_present}
use hepunion.Paths.{get_relative_path_for_file}
use hepunion.Ops.Remove.{unlink_by_branch, hepunion_unlink}
use mathlib.Core.Path.{subst}
use hepunion.View.{Vfs, IsNamed, ro_lookup, union_lookup, answer}
use hepunion.View.Writes.{VfsWrites}
use hepunion.View.Hides.{IsApart, unlink_ro_file-Hides}
use hepunion.View.Handlers.{hepunion_unlink-Ends}
use hepunion.View.Found.{find_present-Answers}
use hepunion.View.Cleared.{unlink_rw_file-Ends}
use hepunion.View.Ends.{Ends, Ends-fails}

-- What the RO branch shows is not READ_WRITE.
lower_answer : (shown : Bool) → some read_write ≢ (if shown then some read_only else none)
lower_answer true h = absurd (ground arith)
lower_answer false h = absurd cc

module _ ⦃K : Kernel⦄ ⦃V : Vfs⦄ ⦃W : VfsWrites⦄ (b : Branches) (p wh_path : List ℕ)
    (named : IsNamed b (slash ∷ p) wh_path) (apart : IsApart b p wh_path)
    (fits : length b.read_write_branch + 1 < path_max)
    (memory : (s : K.State) → (K.kmalloc s).0 ≡ true) where
  abbrev rw_path : List ℕ
  rw_path = b.read_write_branch ++ slash ∷ p

  abbrev IsGone : K.State → Type 0
  IsGone s = V.has s (V.entry rw_path) ≡ false

  abbrev Anywhere : K.State → Type 0
  Anywhere s = Unit

  -- What `find_file` says of the file, and of the state.
  abbrev Status : ℤ × List ℕ → K.State → Type 0
  Status found s =
      (is_neg found.0 ≡ true)
      ⊎ (((found.0 ≡ read_only) × IsGone s) ⊎ ((found.0 ≡ read_write) × (found.1 ≡ rw_path)))

  Status-of :
      (out : ℤ × List ℕ) (w : World) (s : K.State)
      → IsLocated b (slash ∷ p) 0 out
      → (answer out.0 ≡ union_lookup b w.kernel (slash ∷ p) wh_path 0) ⊎ (is_neg out.0 ≡ true)
      → V.has s (V.entry rw_path) ≡ V.has w.kernel (V.entry rw_path)
      → Status out s
  unfolding is_flag_set make_rw_path
  Status-of (negsuc n, r) w s at says same = inl refl
  Status-of (pos zero, r) w s at (inr failed) same = absurd (cc)
  Status-of (pos zero, r) w s at (inl says) same =
      elim (Bool-cases (V.has w.kernel (V.entry rw_path))) [
        | inl there ↦ absurd (ground (arith, rw there at says))
        | inr missing ↦ inr (inl (refl, same ∙ missing))
      ]
  Status-of (pos (suc zero), r) w s at says same =
      inr (inr (refl, at.0 ∙ snprintf_fits rw_path (named.rw_fits)))
  Status-of (pos (suc (suc n)), r) w s at says same = absurd at

  find_present-Status :
      (w : World)
      → Status (find_present b (slash ∷ p) [] 0 w).0 (find_present b (slash ∷ p) [] 0 w).1.kernel
  unfolding is_flag_set find_present
  find_present-Status w =
      let (says, same) = find_present-Answers b (slash ∷ p) wh_path 0 named memory [] w refl in
      let at =
        find_file_with-IsLocated b (λ q ro rw'. oops (einval, rw')) (slash ∷ p) [] 0 w refl in
      Status-of _ w _ at
        (elim says [ inl is ↦ inl is | inr (v, near, denied, is) ↦ inr (ap is_neg is ∙ denied) ])
        (same (V.entry rw_path))

  unlink_by_branch-Ends :
      (found : ℤ × List ℕ) → Ends (Status found) IsGone (unlink_by_branch b (slash ∷ p) found)
  unfolding unlink_by_branch
  unlink_by_branch-Ends (negsuc e, real_path) = Ends-fails (negsuc e) refl
  unlink_by_branch-Ends (pos zero, real_path) = record {
    at = λ w status ok. elim status [
      | inl failed ↦ absurd (cc)
      | inr (inl (is, gone)) ↦
          ((unlink_ro_file-Hides b p wh_path named apart fits real_path).at w gone ok).0
      | inr (inr (is, at)) ↦ absurd (ground (arith, is))
    ];
  }
  unlink_by_branch-Ends (pos (suc n), real_path) = record {
    at = λ w status ok. elim status [
      | inl failed ↦ absurd (cc)
      | inr (inl (is, gone)) ↦ absurd (ground (arith, is))
      | inr (inr (is, at)) ↦
          (subst (λ q. Ends Anywhere IsGone (unlink_rw_file b (slash ∷ p) q false)) (sym at)
              (unlink_rw_file-Ends b p wh_path named apart fits)).at
            w tt ok
    ];
  }

  hepunion_unlink-Gone :
      (dir : K.Inode) (dentry : K.Dentry)
      → ((old : List ℕ) (v : World)
          → (get_relative_path_for_file b dir dentry old true v).0 ≡ (pos 0, slash ∷ p))
      → Ends Anywhere IsGone (hepunion_unlink b dir dentry)
  hepunion_unlink-Gone dir dentry =
      hepunion_unlink-Ends b p dir dentry Status (λ s s' same h. tt) (λ s s' same h. same _ ∙ h)
        (λ w h. find_present-Status w) unlink_by_branch-Ends

  -- Where there is memory, the paths fit their buffers, and neither the whiteout nor a directory
  -- above the file is at the file's own place: if hepunion_unlink returns 0, whichever branch it has
  -- found the file on, then the RW branch has no file at the path, the union shows of it what the RO
  -- branch shows, and find_file of it does not return READ_WRITE, for all flags without
  -- MUST_READ_ONLY, MUST_READ_WRITE and CREATE_COPYUP.
  pub union_lookup-hepunion_unlink :
      (dir : K.Inode) (dentry : K.Dentry) (w : World) (real_path : List ℕ) (flags : ℕ)
      → ((old : List ℕ) (v : World)
          → (get_relative_path_for_file b dir dentry old true v).0 ≡ (pos 0, slash ∷ p))
      → (hepunion_unlink b dir dentry w).0 ≡ pos 0
      → is_flag_set flags must_read_only ≡ false
      → is_flag_set flags must_read_write ≡ false
      → is_flag_set flags create_copyup_flag ≡ false
      → let after = (hepunion_unlink b dir dentry w).1 in
        (V.has after.kernel (V.entry rw_path) ≡ false)
        × (union_lookup b after.kernel (slash ∷ p) wh_path flags
            ≡ ro_lookup b after.kernel (slash ∷ p) wh_path flags)
        × ((find_present b (slash ∷ p) real_path flags after).0.0 ≢ read_write)
  union_lookup-hepunion_unlink dir dentry w real_path flags called ok any free plain =
      let after = (hepunion_unlink b dir dentry w).1 in
      let gone : IsGone after.kernel = (hepunion_unlink-Gone dir dentry called).at w tt ok in
      let lower : union_lookup b after.kernel (slash ∷ p) wh_path flags
          ≡ ro_lookup b after.kernel (slash ∷ p) wh_path flags =
        rw (any, gone, free) refl in
      (
        gone,
        lower,
        λ found.
            elim (find_present-Answers b (slash ∷ p) wh_path flags named memory real_path after
              plain).0 [
                | inl same ↦ lower_answer _ (sym (ap answer found) ∙ same ∙ lower)
                | inr (v, near, denied, is) ↦
                    let failed = ap is_neg (sym is ∙ found) in absurd (cc denied)
              ],
      )
