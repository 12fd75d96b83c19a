-- ===== src/View/Handlers.antt =====
-- fs/hepunion/opts.c: the frame of a handler, and that of `hepunion_unlink`, around the removal.
use hepunion.Base.{
  is_neg, ℕ, ◌≡◌, refl, ℤ, pos, is_zero, true, List, [], ◌∷◌, inl, inr, Bool-cases, if◌then◌else◌,
}
use hepunion.Kernel.{Kernel}
use hepunion.Exec.{World, M, pure, ◌>>◌, call_, will_use_buffers, release_buffers}
use hepunion.Names.{slash}
use hepunion.SpecialPath.{Branches}
use hepunion.Tree.{find_present}
use hepunion.Paths.{get_relative_path_for_file}
use hepunion.Ops.{in_buffers, validate_inode, validate_dentry, validate_both}
use hepunion.Ops.Remove.{unlink_by_branch, hepunion_unlink}
use hepunion.View.{Vfs}
use hepunion.View.Writes.{VfsWrites}
use hepunion.View.Kept.{
  IsKept, IsKept-pure, IsKept-ask, IsKept-bind, IsKept-if, IsKept-call_, kept_rules,
}
use hepunion.View.Looks.{get_relative_path_for_file-IsKept}
use hepunion.View.Hides.{value-then, value-pure}
use hepunion.Ops.Make.{for_new_name}
use hepunion.Base.Errno.{eexist}
use hepunion.View.Looks.{find_present-IsKept}
use hepunion.View.Ends.{Ends-fails, Ends, Ends-bind, Ends-into, Ends-bind_of, Ends-then}

module _ ⦃K : Kernel⦄ ⦃V : Vfs⦄ where
  -- What is said of the places alone.
  abbrev pub IsOfPlaces : (K.State → Type 0) → Type 0
  IsOfPlaces P = (s s' : K.State) → ((e : V.Entry) → V.has s' e ≡ V.has s e) → P s → P s'

  pub kept :
      {P : K.State → Type 0} {A : Type 0} {m : M A}
      → IsOfPlaces P
      → IsKept m
      → (w : World) → P w.kernel
      → P (m w).1.kernel
  kept of k w = of w.kernel _ (k.at w)

  pub validate_inode-IsKept : (inode : K.Inode) → IsKept (validate_inode inode)
  unfolding validate_inode
  validate_inode-IsKept inode = search kept_rules depth 9

  pub validate_dentry-IsKept : (dentry : K.Dentry) → IsKept (validate_dentry dentry)
  unfolding validate_dentry
  validate_dentry-IsKept dentry = search kept_rules depth 9

  pub validate_both-IsKept : (dir : K.Inode) (dentry : K.Dentry) → IsKept (validate_both dir dentry)
  unfolding validate_both
  validate_both-IsKept dir dentry =
      IsKept-bind _ _ (validate_inode-IsKept dir) λ u. validate_dentry-IsKept dentry

  pub will_use_buffers-IsKept : IsKept will_use_buffers
  unfolding will_use_buffers
  will_use_buffers-IsKept = record { at = λ w e. refl }

  pub release_buffers-IsKept : IsKept release_buffers
  unfolding release_buffers
  release_buffers-IsKept = record { at = λ w e. refl }

  -- The buffers that a handler works in.
  pub in_buffers-Ends :
      {P Q : K.State → Type 0} (m : M ℤ)
      → IsOfPlaces P
      → IsOfPlaces Q
      → Ends P Q m
      → Ends P Q (in_buffers m)
  unfolding in_buffers
  in_buffers-Ends {P} {Q} m p_of q_of ends =
      Ends-bind _ _ (kept {P = P} p_of will_use_buffers-IsKept) λ u.
        Ends-then _ _ ends
          (λ e. kept {P = Q} q_of (IsKept-bind _ _ release_buffers-IsKept λ u. IsKept-pure e))
          (λ e v. value-then release_buffers e v)

module _ ⦃K : Kernel⦄ ⦃V : Vfs⦄ (b : Branches) (p : List ℕ) (dir : K.Inode)
    (dentry : K.Dentry) where
  -- What a handler for a new name ends in, from what `rest` ends in.
  pub for_new_name-Ends :
      {P Q : K.State → Type 0} (rest : List ℕ → List ℕ → M ℤ)
      → IsOfPlaces P
      → ((old : List ℕ) (v : World)
          → (get_relative_path_for_file b dir dentry old true v).0 ≡ (pos 0, slash ∷ p))
      → ((real_path : List ℕ) → Ends P Q (rest (slash ∷ p) real_path))
      → Ends P Q (for_new_name b dir dentry rest)
  unfolding for_new_name
  for_new_name-Ends {P} {Q} rest p_of called ends =
      Ends-bind _ _ (kept {P = P} p_of (IsKept-ask K.left_over)) λ old.
        Ends-bind_of (λ target. target ≡ (pos 0, slash ∷ p)) _ _
          (kept {P = P} p_of (get_relative_path_for_file-IsKept b dir dentry old true))
          (λ w h. called old w)
          λ target is. rw is (
            Ends-bind _ _ (kept {P = P} p_of (find_present-IsKept b (slash ∷ p) [] 0)) λ found.
              elim (Bool-cases (is_neg found.0)) [
                | inr there ↦ rw there (Ends-fails eexist refl)
                | inl missing ↦ rw missing (ends found.1)
              ])

  -- The same in the buffers, behind the checks of the handler.
  pub new_name-Ends :
      {P Q : K.State → Type 0} (rest : List ℕ → List ℕ → M ℤ)
      → IsOfPlaces P
      → IsOfPlaces Q
      → ((old : List ℕ) (v : World)
          → (get_relative_path_for_file b dir dentry old true v).0 ≡ (pos 0, slash ∷ p))
      → ((real_path : List ℕ) → Ends P Q (rest (slash ∷ p) real_path))
      → Ends P Q (in_buffers (validate_both dir dentry >> for_new_name b dir dentry rest))
  new_name-Ends {P} {Q} rest p_of q_of called ends = in_buffers-Ends {P = P} {Q = Q} _ p_of q_of (
      Ends-bind _ _ (kept {P = P} p_of (validate_both-IsKept dir dentry))
        λ u. for_new_name-Ends rest p_of called ends)

module _ ⦃K : Kernel⦄ ⦃V : Vfs⦄ ⦃W : VfsWrites⦄ (b : Branches) (p : List ℕ) (dir : K.Inode)
    (dentry : K.Dentry) where
  -- Behind a removal.
  abbrev drop_links : ℤ → M ℤ
  drop_links e = if is_zero e then call_ (K.drop_nlinks dir dentry) >> pure e else pure e

  drop_links-IsKept : (e : ℤ) → IsKept (drop_links e)
  drop_links-IsKept e =
      IsKept-if (is_zero e) _ _
        (IsKept-bind _ _ (IsKept-call_ _ (W.drop_nlinks_keeps dir dentry)) λ u. IsKept-pure e)
        (IsKept-pure e)

  drop_links-value : (e : ℤ) (w : World) → (drop_links e w).0 ≡ e
  drop_links-value e w = elim (Bool-cases (is_zero e)) [
    | inl ok ↦ rw ok (value-then (call_ (K.drop_nlinks dir dentry)) e w)
    | inr failed ↦ rw failed (value-pure e w)
  ]

  -- What `hepunion_unlink` ends in, from what `find_file` makes and what the removal ends in.
  pub hepunion_unlink-Ends :
      {P Q : K.State → Type 0} (R : ℤ × List ℕ → K.State → Type 0)
      → IsOfPlaces P
      → IsOfPlaces Q
      → ((w : World)
          → P w.kernel
          → R (find_present b (slash ∷ p) [] 0 w).0 (find_present b (slash ∷ p) [] 0 w).1.kernel)
      → ((found : ℤ × List ℕ) → Ends (R found) Q (unlink_by_branch b (slash ∷ p) found))
      → ((old : List ℕ) (v : World)
          → (get_relative_path_for_file b dir dentry old true v).0 ≡ (pos 0, slash ∷ p))
      → Ends P Q (hepunion_unlink b dir dentry)
  unfolding hepunion_unlink in_buffers
  hepunion_unlink-Ends {P} {Q} R p_of q_of finds removes called =
      Ends-bind _ _ (kept {P = P} p_of will_use_buffers-IsKept) λ u.
        Ends-then _ _
          (Ends-bind _ _ (kept {P = P} p_of (validate_both-IsKept dir dentry)) λ u.
            Ends-bind _ _ (kept {P = P} p_of (IsKept-ask K.left_over)) λ old.
              Ends-bind_of (λ target. target ≡ (pos 0, slash ∷ p)) _ _
                (kept {P = P} p_of (get_relative_path_for_file-IsKept b dir dentry old true))
                (λ v h. called old v)
                λ target is. rw is (
                  Ends-into R _ _ finds λ found.
                    Ends-then _ _ (removes found) (λ e. kept {P = Q} q_of (drop_links-IsKept e))
                      drop_links-value))
          (λ e. kept {P = Q} q_of (IsKept-bind _ _ release_buffers-IsKept λ u. IsKept-pure e))
          (λ e v. value-then release_buffers e v)
