-- ===== src/View/Rooted.antt =====
-- fs/hepunion/cow.c, `find_path`: with the root of the RW branch in place, it leaves the path of the
-- file on that branch.
use hepunion.Base.{
  ℕ, zero, suc, ◌+◌, ◌<◌, ◌≡◌, refl, ◌∙◌, pos, is_neg, true, false, some, List, [], ◌∷◌, ◌++◌,
  Option-cases, inl, inr, arith, length, length-append, path_max,
}
use hepunion.Kernel.{Kernel}
use hepunion.Exec.{World, pure, ◌>>=◌, kmalloc}
use hepunion.CString.{strrchr, snprintf}
use hepunion.CString.Laws.{snprintf_fits, lacks_strrchr}
use hepunion.Names.{slash, is_flag_set}
use hepunion.SpecialPath.{Branches}
use hepunion.Access.{can_traverse, traverse_from}
use hepunion.Find.{read_write, find_file_with, make_rw_path}
use hepunion.Tree.{find_present, find_path_worker}
use hepunion.Tree.RealPath.{branch_short, find_path_worker-real_path}
use hepunion.View.{Vfs}
use hepunion.View.Kept.{IsKept-kmalloc}
use hepunion.View.Found.{buffered, check_exist-has}

module _ ⦃K : Kernel⦄ ⦃V : Vfs⦄ (b : Branches) (rw_fits : length b.read_write_branch + 1 < path_max)
    (ro_fits : length b.read_only_branch + 1 < path_max)
    (memory : (s : K.State) → (K.kmalloc s).0 ≡ true) where
  can_traverse-root : (w : World) → (can_traverse b (slash ∷ []) w).0 ≡ pos 0
  unfolding can_traverse traverse_from strrchr snprintf pure
  can_traverse-root w =
      rw
        (
          buffered _ _ w (memory _),
          buffered _ _ (kmalloc w).1 (memory _),
          (branch_short b b.read_only_branch ro_fits).1,
        )
        refl

  find_present-root :
      (w : World)
      → V.has w.kernel (V.entry (b.read_write_branch ++ slash ∷ [])) ≡ true
      → (find_present b (slash ∷ []) [] 0 w).0.0 ≡ read_write
  unfolding find_present find_file_with make_rw_path snprintf is_flag_set ◌>>=◌ pure
  find_present-root w there =
      let (whole, short) = branch_short b b.read_write_branch rw_fits in
      elim (check_exist-has (b.read_write_branch ++ slash ∷ []) w) [
        | inl (here, ok) ↦ rw (short, whole, ok, can_traverse-root _) refl
        | inr (missing, failed) ↦ absurd (cc (there, missing))
      ]

  find_path_worker-top :
      (p real_path : List ℕ) (w : World)
      → strrchr (slash ∷ p) slash ≡ some 0
      → length (b.read_write_branch ++ slash ∷ p) < path_max
      → V.has w.kernel (V.entry (b.read_write_branch ++ slash ∷ [])) ≡ true
      → (find_path_worker b (slash ∷ p) real_path w).0.1 ≡ b.read_write_branch ++ slash ∷ p
  unfolding find_path_worker make_rw_path ◌>>=◌ pure
  find_path_worker-top p real_path w top fits there =
      let v = (kmalloc w).1 in
      let u = (kmalloc v).1 in
      let x = (kmalloc u).1 in
      let here = IsKept-kmalloc.at u _ ∙ IsKept-kmalloc.at v _ ∙ IsKept-kmalloc.at w _ ∙ there in
      rw
        (
          top,
          buffered _ _ w (memory _),
          buffered _ _ v (memory _),
          buffered _ _ u (memory _),
          find_present-root x here,
          snprintf_fits (b.read_write_branch ++ slash ∷ p) fits,
        )
        refl

  pub find_path_worker-rooted :
      (p real_path : List ℕ) (w : World)
      → length (b.read_write_branch ++ slash ∷ p) < path_max
      → V.has w.kernel (V.entry (b.read_write_branch ++ slash ∷ [])) ≡ true
      → is_neg (find_path_worker b (slash ∷ p) real_path w).0.0 ≡ false
      → (find_path_worker b (slash ∷ p) real_path w).0.1 ≡ b.read_write_branch ++ slash ∷ p
  find_path_worker-rooted p real_path w fits there ok =
      elim (Option-cases (strrchr (slash ∷ p) slash)) [
        | inl no_slash ↦ absurd (cc ((lacks_strrchr slash (slash ∷ p) no_slash).0))
        | inr (zero, top) ↦ find_path_worker-top p real_path w top fits there
        | inr (suc i, below) ↦
            elim (find_path_worker-real_path b p real_path (suc i) w
              (λ q f c s e. V.kern_path_fails q f c s e) below
              (omega (arith, fits, length-append b.read_write_branch (slash ∷ p))) ro_fits ok) [
                | inl is ↦ is
                | inr (top, is) ↦ absurd (omega (arith, top))
              ]
      ]
