-- ===== src/Tree/Reached.antt =====
-- fs/hepunion/cow.c, `find_path`: the loop over the directories of a path.
use hepunion.Base.{
  ℕ, ◌≡◌, refl, ap, sym, ◌∙◌, ℤ, pos, is_neg, true, false, Ptr, ptr, err_ptr, Option, none, some,
}
use hepunion.Base.{List, [], ◌∷◌, ◌++◌, ◌⊎◌, inl, inr, arith, take, Option-cases, Bool-cases, ◌==◌}
use hepunion.Kernel.{Kernel, Creds}
use hepunion.Exec.{World, pure, ◌>>=◌, call, as_root, push_root, pop_root}
use hepunion.CString.{strrchr}
use hepunion.Names.{slash}
use hepunion.SpecialPath.{Branches}
use hepunion.Lookup.{lstat, get_path_dentry, lookup_directory}
use hepunion.Attributes.{unset}
use hepunion.Workers.{dbg_mkdir}
use hepunion.Tree.{make_directory, tree_loop}
use mathlib.Core.List.{append_assoc, append-nil}

pub Ptr-cases : {A : Type 0} (p : Ptr A) → ((a : A) × (p ≡ ptr a)) ⊎ ((e : ℤ) × (p ≡ err_ptr e))
Ptr-cases (ptr a) = inl (a, refl)
Ptr-cases (err_ptr e) = inr (e, refl)

module _ ⦃K : Kernel⦄ where
  -- An error pointer carries an error.
  abbrev pub PtrErrors : Type 0
  PtrErrors =
      (p : List ℕ) (f : ℕ) (c : Creds) (k : K.State) (e : ℤ)
      → (K.kern_path p f c k).0 ≡ err_ptr e
      → is_neg e ≡ true

  pub get_path_dentry_error :
      (p : List ℕ) (f : ℕ) (w : World) (e : ℤ)
      → PtrErrors
      → (get_path_dentry p f w).0 ≡ err_ptr e
      → is_neg e ≡ true
  unfolding get_path_dentry ◌>>=◌ pure as_root call push_root pop_root
  get_path_dentry_error p f w e errors h =
      let c : Creds = record { fsuid = 0; fsgid = 0 } in errors p f c w.kernel e (ground arith)

-- The string up to the last slash of the text that is walked through.
abbrev upto : List ℕ → List ℕ → List ℕ → Option ℕ → List ℕ
upto real_path segment path none = real_path
upto real_path segment path (some i) = real_path ++ (segment ++ take i path)

abbrev pub reached : List ℕ → List ℕ → List ℕ → List ℕ
reached real_path segment path = upto real_path segment path (strrchr path slash)

reached-slash :
    (real segment rest : List ℕ)
    → reached (real ++ segment) (slash ∷ []) rest ≡ reached real segment (slash ∷ rest)
unfolding strrchr
reached-slash real segment rest = elim (Option-cases (strrchr rest slash)) [
  | inl e ↦ rw (e, append-nil segment) refl
  | inr (i, e) ↦ rw (e, append_assoc real segment (slash ∷ take i rest)) refl
]

reached-other :
    (c : ℕ) (real segment rest : List ℕ)
    → (c == slash) ≡ false
    → reached real (segment ++ c ∷ []) rest ≡ reached real segment (c ∷ rest)
unfolding strrchr
reached-other c real segment rest other = elim (Option-cases (strrchr rest slash)) [
  | inl e ↦ rw (e, other) refl
  | inr (i, e) ↦ rw (e, append_assoc segment (c ∷ []) (take i rest)) refl
]

module _ ⦃K : Kernel⦄ (b : Branches) where
  -- What leaves the loop early is an error.
  make_directory_error :
      (read_only real_path : List ℕ) (w : World) (err : ℤ)
      → PtrErrors
      → (make_directory b read_only real_path w).0 ≡ some err
      → is_neg err ≡ true
  unfolding make_directory ◌>>=◌ pure call
  make_directory_error read_only real_path w err errors h =
      let here = lstat real_path unset w in
      let old = lstat read_only here.0.1 here.1 in
      let made = dbg_mkdir b real_path old.0.1.mode old.1 in
      let found = get_path_dentry real_path lookup_directory made.1 in
      elim (Bool-cases (is_neg here.0.0)) [
        | inr there ↦ absurd (ground (arith, there))
        | inl missing ↦ elim (Bool-cases (is_neg old.0.0)) [
          | inl failed ↦ ground (arith, missing, failed)
          | inr known ↦ elim (Bool-cases (is_neg made.0)) [
            | inl failed ↦ ground (arith, missing, known, failed)
            | inr new ↦ elim (Ptr-cases found.0) [
              | inl (dentry, e) ↦ ground (arith, missing, known, new, e)
              | inr (code, e) ↦
                  let failed =
                    get_path_dentry_error real_path lookup_directory made.1 code errors e in
                  ground (arith, missing, known, new, e, failed)
            ]
          ]
        ]
      ]

  tree_loop-nil :
      (read_only real_path segment : List ℕ) (w : World)
      → (tree_loop b read_only real_path segment [] w).0 ≡ (pos 0, reached real_path segment [])
  unfolding tree_loop pure strrchr
  tree_loop-nil read_only real_path segment w = refl

  -- The three ways through one step of the loop.
  step-stays :
      (read_only real_path segment rest : List ℕ) (w : World)
      → (make_directory b (read_only ++ segment) (real_path ++ segment) w).0 ≡ none
      → tree_loop b read_only real_path segment (slash ∷ rest) w
        ≡ tree_loop b
            (read_only ++ segment)
            (real_path ++ segment)
            (slash ∷ [])
            rest
            (make_directory b (read_only ++ segment) (real_path ++ segment) w).1
  unfolding tree_loop ◌>>=◌ pure
  step-stays read_only real_path segment rest w stays = rw stays refl

  step-leaves :
      (read_only real_path segment rest : List ℕ) (w : World) (err : ℤ)
      → (make_directory b (read_only ++ segment) (real_path ++ segment) w).0 ≡ some err
      → (tree_loop b read_only real_path segment (slash ∷ rest) w).0.0 ≡ err
  unfolding tree_loop ◌>>=◌ pure
  step-leaves read_only real_path segment rest w err leaves = rw leaves refl

  step-other :
      (c : ℕ) (read_only real_path segment rest : List ℕ) (w : World)
      → (c == slash) ≡ false
      → tree_loop b read_only real_path segment (c ∷ rest) w
        ≡ tree_loop b read_only real_path (segment ++ c ∷ []) rest w
  unfolding tree_loop ◌>>=◌ pure
  step-other c read_only real_path segment rest w other = rw other refl

  at_slash :
      (read_only real_path segment rest : List ℕ) (w : World)
      → PtrErrors
      → ((ro real : List ℕ) (v : World)
          → is_neg (tree_loop b ro real (slash ∷ []) rest v).0.0 ≡ false
          → (tree_loop b ro real (slash ∷ []) rest v).0 ≡ (pos 0, reached real (slash ∷ []) rest))
      → is_neg (tree_loop b read_only real_path segment (slash ∷ rest) w).0.0 ≡ false
      → (tree_loop b read_only real_path segment (slash ∷ rest) w).0
        ≡ (pos 0, reached real_path segment (slash ∷ rest))
  at_slash read_only real_path segment rest w errors ih h =
      let left = make_directory b (read_only ++ segment) (real_path ++ segment) w in
      elim (Option-cases left.0) [
        | inl stays ↦
            let step = step-stays read_only real_path segment rest w stays in
            ap (λ x. x.0) step
            ∙ ih (read_only ++ segment) (real_path ++ segment) left.1
                (ap (λ x. is_neg x.0.0) (sym step) ∙ h)
            ∙ ap (λ p. (pos 0, p)) (reached-slash real_path segment rest)
        | inr (err, leaves) ↦
            let failed =
              make_directory_error (read_only ++ segment) (real_path ++ segment) w err errors
                leaves in
            let ends = step-leaves read_only real_path segment rest w err leaves in absurd (cc)
      ]

  pub tree_loop-reached :
      (read_only real_path segment path : List ℕ) (w : World)
      → PtrErrors
      → is_neg (tree_loop b read_only real_path segment path w).0.0 ≡ false
      → (tree_loop b read_only real_path segment path w).0 ≡ (pos 0, reached real_path segment path)
  tree_loop-reached read_only real_path segment [] w errors h =
      tree_loop-nil read_only real_path segment w
  tree_loop-reached read_only real_path segment (c ∷ rest) w errors h =
      elim (Bool-cases (c == slash)) [
        | inl is_slash ↦
            let e : c ≡ slash = ground arith in
            let ih = λ (ro real : List ℕ) (v : World).
              tree_loop-reached ro real (slash ∷ []) rest v errors in
            rw e (at_slash read_only real_path segment rest w errors ih (rw (← e) h))
        | inr other ↦
            let step = step-other c read_only real_path segment rest w other in
            ap (λ x. x.0) step
            ∙ tree_loop-reached read_only real_path (segment ++ c ∷ []) rest w errors
                (ap (λ x. is_neg x.0.0) (sym step) ∙ h)
            ∙ ap (λ p. (pos 0, p)) (reached-other c real_path segment rest other)
      ]
