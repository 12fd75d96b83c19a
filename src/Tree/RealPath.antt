-- ===== src/Tree/RealPath.antt =====
-- fs/hepunion/cow.c, `find_path`: what it leaves in `real_path`.
use hepunion.Base.{ℕ, zero, suc, ◌+◌, ◌-◌, ◌<◌, ◌≡◌, refl, ap, ◌∙◌, ℤ, pos, is_neg, false, some}
use hepunion.Base.{
  List, [], ◌∷◌, ◌++◌, ◌⊎◌, inl, inr, arith, length, ltb, path_max, take, drop, take-append-drop,
  take-length_le, Option-cases, Bool-cases, ◌==◌, if◌then◌else◌, length-append, le→ltb,
}
use hepunion.Base.Errno.{enomem}
use hepunion.Kernel.{Kernel}
use hepunion.Exec.{World, pure, ◌>>=◌}
use hepunion.CString.{strrchr}
use hepunion.CString.Laws.{snprintf_fits}
use hepunion.Names.{slash}
use hepunion.SpecialPath.{Branches}
use hepunion.Find.Located.{holds_with_buffer}
use hepunion.Tree.{tree_loop, make_tree, find_path_worker, find_present, is_read_write}
use hepunion.Find.{make_rw_path}
use mathlib.Core.List.{append_assoc}
use hepunion.Tree.Reached.{PtrErrors, reached, tree_loop-reached}

strrchr-behind :
    (p : List ℕ) (i : ℕ) → strrchr (slash ∷ p) slash ≡ some (suc i) → strrchr p slash ≡ some i
unfolding strrchr
strrchr-behind p i h = elim (Option-cases (strrchr p slash)) [
  | inl e ↦ absurd (ground arith)
  | inr (j, e) ↦ ground arith
]

module _ ⦃K : Kernel⦄ (b : Branches) where
  -- What success leaves in `real_path` for the path behind its first slash.
  abbrev IsReal : List ℕ → ℕ → ℤ × List ℕ → Type 0
  IsReal p last out =
      is_neg out.0 ≡ false
      → (out.1 ≡ b.read_write_branch ++ slash ∷ p)
        ⊎ ((last ≡ 0) × (out.1 ≡ b.read_write_branch ++ slash ∷ []))

  loop-IsReal :
      (p : List ℕ) (i : ℕ) (made : ℤ × List ℕ)
      → strrchr p slash ≡ some i
      → (is_neg made.0 ≡ false → made ≡ (pos 0, reached (b.read_write_branch ++ slash ∷ []) [] p))
      → IsReal p (suc i) (made.0, if is_neg made.0 then made.1 else made.1 ++ drop i p)
  loop-IsReal p i made e h ok =
      let real = h ok in
      inl (
        rw (ok, real, e)
          (append_assoc (b.read_write_branch ++ slash ∷ []) (take i p) (drop i p)
            ∙ ap (λ r. (b.read_write_branch ++ slash ∷ []) ++ r) (take-append-drop i p)
            ∙ append_assoc b.read_write_branch (slash ∷ []) p))

  pub branch_short :
      (branch : List ℕ)
      → length branch + 1 < path_max
      → (take (path_max - 1) (branch ++ slash ∷ []) ≡ branch ++ slash ∷ [])
        × (ltb path_max (length (branch ++ slash ∷ [])) ≡ false)
  branch_short branch fits =
      let len = length-append branch (slash ∷ []) in
      (
        take-length_le (path_max - 1) (branch ++ slash ∷ []) (omega (arith, len)),
        le→ltb path_max (length (branch ++ slash ∷ [])) (omega (arith, len)),
      )

  make_tree-root :
      (path real_path : List ℕ) (w : World)
      → length b.read_write_branch + 1 < path_max
      → length b.read_only_branch + 1 < path_max
      → (make_tree b path 0 real_path w).0 ≡ (pos 0, b.read_write_branch ++ slash ∷ [])
  unfolding make_tree ◌>>=◌ pure
  make_tree-root path real_path w rw_fits ro_fits =
      let (rw_text, rw_short) = branch_short b.read_write_branch rw_fits in
      let ro_short = (branch_short b.read_only_branch ro_fits).1 in
      rw (rw_text, rw_short, ro_short) refl

  make_tree-loop :
      (path real_path : List ℕ) (i : ℕ) (w : World)
      → length b.read_write_branch + 1 < path_max
      → length b.read_only_branch + 1 < path_max
      → let made =
          (tree_loop b
            (b.read_only_branch ++ slash ∷ [])
            (b.read_write_branch ++ slash ∷ [])
            []
            (drop 1 path)
            w).0 in
        (make_tree b path (suc i) real_path w).0
        ≡ (made.0, if is_neg made.0 then made.1 else made.1 ++ drop (suc i) path)
  unfolding make_tree ◌>>=◌ pure
  make_tree-loop path real_path i w rw_fits ro_fits =
      let (rw_text, rw_short) = branch_short b.read_write_branch rw_fits in
      let (ro_text, ro_short) = branch_short b.read_only_branch ro_fits in
      let inside : (suc i == 0) ≡ false = ground arith in
      rw (rw_text, ro_text, rw_short, ro_short, inside) refl

  make_tree-IsReal :
      (p real_path : List ℕ) (last : ℕ) (w : World)
      → PtrErrors
      → strrchr (slash ∷ p) slash ≡ some last
      → length b.read_write_branch + 1 < path_max
      → length b.read_only_branch + 1 < path_max
      → IsReal p last (make_tree b (slash ∷ p) last real_path w).0
  make_tree-IsReal p real_path zero w errors e rw_fits ro_fits =
      λ ok. inr (refl, ap (λ x. x.1) (make_tree-root (slash ∷ p) real_path w rw_fits ro_fits))
  make_tree-IsReal p real_path (suc i) w errors e rw_fits ro_fits =
      rw (make_tree-loop (slash ∷ p) real_path i w rw_fits ro_fits) (
        loop-IsReal p i _ (strrchr-behind p i e) (
          tree_loop-reached b (b.read_only_branch ++ slash ∷ []) (b.read_write_branch ++ slash ∷ [])
            [] p w errors))

  find_path_worker-IsReal :
      (p real_path : List ℕ) (last : ℕ) (w : World)
      → PtrErrors
      → strrchr (slash ∷ p) slash ≡ some last
      → length b.read_write_branch + length p + 1 < path_max
      → length b.read_only_branch + 1 < path_max
      → IsReal p last (find_path_worker b (slash ∷ p) real_path w).0
  unfolding find_path_worker make_rw_path ◌>>=◌ pure
  find_path_worker-IsReal p real_path last w errors e rw_fits ro_fits =
      let failed : ℤ × List ℕ = (enomem, real_path) in
      let len = length-append b.read_write_branch (slash ∷ p) in
      rw e (
        holds_with_buffer (IsReal p last) failed _ w (λ h. absurd cc)
          λ w₁.
            holds_with_buffer (IsReal p last) failed _ w₁ (λ h. absurd cc)
              λ w₂.
                holds_with_buffer (IsReal p last) failed _ w₂ (λ h. absurd cc)
                  λ w₃.
                    let present = find_present b (slash ∷ take last p) [] 0 w₃ in
                    elim (Bool-cases (is_read_write present.0.0)) [
                      | inl there ↦
                          let text : (make_rw_path b (slash ∷ p)).1
                              ≡ b.read_write_branch ++ slash ∷ p =
                            snprintf_fits (b.read_write_branch ++ slash ∷ p) (omega (arith, len)) in
                          rw (there, text) (λ ok. inl refl)
                      | inr missing ↦ rw missing (
                          make_tree-IsReal p real_path last present.1 errors e (omega arith)
                            ro_fits)
                    ])

  -- Where an error pointer carries an error and the branches are short enough for the buffers,
  -- `find_path` that succeeds on a path that starts with a slash leaves the path on the RW branch,
  -- or, where the path has no other slash, it may leave the root of the RW branch.
  pub find_path_worker-real_path :
      (p real_path : List ℕ) (last : ℕ) (w : World)
      → PtrErrors
      → strrchr (slash ∷ p) slash ≡ some last
      → length b.read_write_branch + length p + 1 < path_max
      → length b.read_only_branch + 1 < path_max
      → is_neg (find_path_worker b (slash ∷ p) real_path w).0.0 ≡ false
      → let out = (find_path_worker b (slash ∷ p) real_path w).0.1 in
        (out ≡ b.read_write_branch ++ slash ∷ p)
        ⊎ ((last ≡ 0) × (out ≡ b.read_write_branch ++ slash ∷ []))
  find_path_worker-real_path = find_path_worker-IsReal
