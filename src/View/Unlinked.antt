-- ===== src/View/Unlinked.antt =====
-- fs/hepunion/opts.c, `hepunion_unlink`: what the union shows of a file that it has removed.
use hepunion.Base.{
  ℕ, zero, suc, ◌+◌, ◌<◌, ◌≡◌, refl, ap, ◌∙◌, ℤ, pos, negsuc, is_neg, Bool, true, false, none, some,
  List, [], ◌∷◌, ◌++◌, ◌⊎◌, inl, inr, Bool-cases, arith, length, path_max, if◌then◌else◌,
}
use hepunion.Kernel.{Kernel}
use hepunion.Exec.{World}
use hepunion.Names.{
  slash, is_flag_set, must_read_only, must_read_write, ignore_whiteout, create_copyup_flag,
}
use hepunion.SpecialPath.{Branches}
use hepunion.Find.{read_only}
use hepunion.Tree.{find_present}
use hepunion.Paths.{get_relative_path_for_file}
use hepunion.Ops.Remove.{unlink_by_branch, hepunion_unlink}
use hepunion.View.{Vfs, IsNamed, ro_lookup, union_lookup, answer}
use hepunion.View.Writes.{VfsWrites}
use hepunion.View.Looks.{find_present-IsKept}
use hepunion.View.Absent.{IsKept→Stays}
use hepunion.View.Found.{find_present-Answers}
use hepunion.View.Handlers.{hepunion_unlink-Ends}
use hepunion.View.Hides.{IsApart, IsHidden, Hides, unlink_ro_file-Hides}
use hepunion.View.Ends.{Ends-fails}

module _ ⦃K : Kernel⦄ ⦃V : Vfs⦄ (b : Branches) (p wh_path : List ℕ) where
  -- A hidden path is not in the union, whichever flags look for it but IGNORE_WHITEOUT.
  hidden_nowhere :
      (w : World) (flags : ℕ)
      → is_flag_set flags ignore_whiteout ≡ false
      → IsHidden b p wh_path w.kernel
      → union_lookup b w.kernel (slash ∷ p) wh_path flags ≡ none
  hidden_nowhere w flags looked hidden =
      let ro : ro_lookup b w.kernel (slash ∷ p) wh_path flags ≡ none =
        elim (Bool-cases (V.has w.kernel (V.entry (b.read_only_branch ++ slash ∷ p)))) [
          | inl there ↦ rw (there, looked, hidden.1) refl
          | inr missing ↦ rw missing refl
        ] in
      elim (Bool-cases (is_flag_set flags must_read_only)) [
        | inl only ↦ rw only ro
        | inr any ↦ elim (Bool-cases (is_flag_set flags must_read_write)) [
          | inl write ↦ rw (any, hidden.0, write) refl
          | inr read ↦ rw (any, hidden.0, read) ro
        ]
      ]

-- An answer that the RO branch alone can give.
ro_answer :
    (e : ℤ) (shown : Bool)
    → answer e ≡ (if shown then some read_only else none)
    → (is_neg e ≡ true) ⊎ (e ≡ pos 0)
ro_answer (negsuc n) shown h = inl refl
ro_answer (pos n) true h = inr (ground arith)
ro_answer (pos n) false h = absurd cc

answer-none : (e : ℤ) → answer e ≡ none → is_neg e ≡ true
answer-none (negsuc n) h = refl
answer-none (pos n) h = absurd cc

module _ ⦃K : Kernel⦄ ⦃V : Vfs⦄ ⦃W : VfsWrites⦄ (b : Branches) (p wh_path : List ℕ)
    (named : IsNamed b (slash ∷ p) wh_path) (apart : IsApart b p wh_path)
    (fits : length b.read_write_branch + 1 < path_max)
    (memory : (s : K.State) → (K.kmalloc s).0 ≡ true) where
  -- Without the file on RW, `find_file` fails or finds it on RO.
  found_below :
      (w : World)
      → V.has w.kernel (V.entry (b.read_write_branch ++ slash ∷ p)) ≡ false
      → (is_neg (find_present b (slash ∷ p) [] 0 w).0.0 ≡ true)
        ⊎ ((find_present b (slash ∷ p) [] 0 w).0.0 ≡ pos 0)
  unfolding is_flag_set
  found_below w h = elim (find_present-Answers b (slash ∷ p) wh_path 0 named memory [] w refl).0 [
    | inl same ↦ ro_answer _ _ (rw h at same)
    | inr (v, near, denied, is) ↦ inl (ap is_neg is ∙ denied)
  ]

  unlink_by_branch-Hides :
      (found : ℤ × List ℕ)
      → (is_neg found.0 ≡ true) ⊎ (found.0 ≡ pos 0)
      → Hides b p wh_path (unlink_by_branch b (slash ∷ p) found)
  unfolding unlink_by_branch
  unlink_by_branch-Hides (negsuc e, real_path) below = Ends-fails (negsuc e) refl
  unlink_by_branch-Hides (pos zero, real_path) below =
      unlink_ro_file-Hides b p wh_path named apart fits real_path
  unlink_by_branch-Hides (pos (suc n), real_path) (inl below) = absurd (cc)
  unlink_by_branch-Hides (pos (suc n), real_path) (inr below) = absurd (ground arith)

  hepunion_unlink-Hides :
      (dir : K.Inode) (dentry : K.Dentry)
      → ((old : List ℕ) (v : World)
          → (get_relative_path_for_file b dir dentry old true v).0 ≡ (pos 0, slash ∷ p))
      → Hides b p wh_path (hepunion_unlink b dir dentry)
  hepunion_unlink-Hides dir dentry called =
      hepunion_unlink-Ends b p dir dentry
        (λ found s.
          (V.has s (V.entry (b.read_write_branch ++ slash ∷ p)) ≡ false)
          × ((is_neg found.0 ≡ true) ⊎ (found.0 ≡ pos 0)))
        (λ s s' same h. same _ ∙ h) (λ s s' same h. (same _ ∙ h.0, same _ ∙ h.1))
        (λ w h. ((IsKept→Stays _ (find_present-IsKept b (slash ∷ p) [] 0)).at w h, found_below w h))
        (λ found. record { at = λ w h. (unlink_by_branch-Hides found h.1).at w h.0 }) called

  -- Where there is memory, the paths fit their buffers, and neither the whiteout nor a directory
  -- above the file is at the file's own place: if the RW branch has no file at the path that the
  -- handler is called for, and hepunion_unlink returns 0, then the union no longer shows that path,
  -- and find_file of it fails, for all flags without IGNORE_WHITEOUT and CREATE_COPYUP.
  pub find_present-hepunion_unlink :
      (dir : K.Inode) (dentry : K.Dentry) (w : World) (real_path : List ℕ) (flags : ℕ)
      → ((old : List ℕ) (v : World)
          → (get_relative_path_for_file b dir dentry old true v).0 ≡ (pos 0, slash ∷ p))
      → V.has w.kernel (V.entry (b.read_write_branch ++ slash ∷ p)) ≡ false
      → (hepunion_unlink b dir dentry w).0 ≡ pos 0
      → is_flag_set flags ignore_whiteout ≡ false
      → is_flag_set flags create_copyup_flag ≡ false
      → let after = (hepunion_unlink b dir dentry w).1 in
        (union_lookup b after.kernel (slash ∷ p) wh_path flags ≡ none)
        × (is_neg (find_present b (slash ∷ p) real_path flags after).0.0 ≡ true)
  find_present-hepunion_unlink dir dentry w real_path flags called off ok looked plain =
      let after = (hepunion_unlink b dir dentry w).1 in
      let hidden = (hepunion_unlink-Hides dir dentry called).at w off ok in
      let nowhere = hidden_nowhere b p wh_path after flags looked hidden in
      (
        nowhere,
        elim (find_present-Answers b (slash ∷ p) wh_path flags named memory real_path after
            plain).0 [
              | inl same ↦ answer-none _ (same ∙ nowhere)
              | inr (v, near, denied, is) ↦ ap is_neg is ∙ denied
            ],
      )
