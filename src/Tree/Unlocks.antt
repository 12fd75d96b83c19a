-- ===== src/Tree/Unlocks.antt =====
-- fs/hepunion/cow.c, `find_path`: the count of `id_lock` on directories that exist already.
use hepunion.Base.{
  ℕ, zero, suc, ◌≡◌, refl, ap, ◌∙◌, ℤ, is_neg, false, List, [], ◌∷◌, ◌++◌, none, Bool-cases, inl,
  inr, ◌==◌, if◌then◌else◌, arith,
}
use hepunion.Kernel.{Kernel}
use hepunion.Exec.{World, pure, ◌>>=◌, dec, pop_root}
use hepunion.Names.{slash}
use hepunion.SpecialPath.{Branches}
use hepunion.Lookup.{lstat}
use hepunion.Lookup.Tidy.{lstat-IsTidy}
use hepunion.Attributes.{unset}
use hepunion.Tree.{make_directory, tree_loop}
use hepunion.View.{Vfs}
use hepunion.View.Kept.{SameView}
use hepunion.View.Looks.{lstat-IsKept}
use mathlib.Core.List.{append_assoc, append-nil}

-- The slashes of a text.
unfoldable pub slashes : List ℕ → ℕ
slashes [] = 0
slashes (c ∷ path) = let n = slashes path in if c == slash then suc n else n

-- So many releases of a lock.
unfoldable pub dec_times : ℕ → ℤ → ℤ
dec_times zero count = count
dec_times (suc n) count = dec_times n (dec count)

module _ ⦃K : Kernel⦄ ⦃V : Vfs⦄ (b : Branches) where
  make_directory_pops :
      (read_only real_path : List ℕ) (w : World)
      → is_neg (lstat real_path unset w).0.0 ≡ false
      → let out = make_directory b read_only real_path w in
        (out.0 ≡ none) × (out.1.id_lock ≡ dec w.id_lock) × SameView w out.1
  unfolding make_directory ◌>>=◌ pure pop_root
  make_directory_pops read_only real_path w exists =
      let tidy = (lstat-IsTidy real_path unset).at w in
      let kept = (lstat-IsKept real_path unset).at w in rw exists (refl, ap dec tidy.id_lock, kept)

  -- Where `lstat` finds the directories that the loop of `find_path` comes to, which are the text
  -- up to each slash of the path behind what stands before it, in every state with the same places as
  -- the first, the loop releases `id_lock` once for each of these slashes, without taking it.
  pub tree_loop_unlocks :
      (read_only real_path segment path : List ℕ) (w : World)
      → ((dir rest : List ℕ) (v : World)
          → path ≡ dir ++ slash ∷ rest
          → SameView w v
          → is_neg (lstat (real_path ++ (segment ++ dir)) unset v).0.0 ≡ false)
      → (tree_loop b read_only real_path segment path w).1.id_lock
        ≡ dec_times (slashes path) w.id_lock
  unfolding tree_loop slashes dec_times ◌>>=◌ pure
  tree_loop_unlocks read_only real_path segment [] w finds = refl
  tree_loop_unlocks read_only real_path segment (c ∷ rest) w finds =
      elim (Bool-cases (c == slash)) [
        | inl here ↦
            let is : c ≡ slash = ground (arith, here) in
            let found : is_neg (lstat (real_path ++ segment) unset w).0.0 ≡ false =
              rw (append-nil segment) at (finds [] rest w (ap (λ x. x ∷ rest) is) (λ e. refl)) in
            let pops = make_directory_pops (read_only ++ segment) (real_path ++ segment) w found in
            rw (here, pops.0)
              (tree_loop_unlocks (read_only ++ segment) (real_path ++ segment) (slash ∷ []) rest _
                  (λ dir after v split same. rw (append_assoc real_path segment (slash ∷ dir)) (
                    finds (slash ∷ dir) after v (rw is (ap (λ r. slash ∷ r) split))
                      (λ e. same e ∙ pops.2 e)))
                ∙ ap (dec_times (slashes rest)) pops.1)
        | inr there ↦ rw there (
            tree_loop_unlocks read_only real_path (segment ++ c ∷ []) rest w
              λ dir after v split same.
                rw (append_assoc segment (c ∷ []) dir)
                  (finds (c ∷ dir) after v (ap (λ r. c ∷ r) split) same))
      ]
