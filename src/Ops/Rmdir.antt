-- ===== src/Ops/Rmdir.antt =====
-- fs/hepunion/opts.c, `hepunion_rmdir` of a directory that is on the RO branch only.
use hepunion.Base.{
  ℕ, zero, suc, ◌≡◌, refl, ap, ◌∙◌, ℤ, pos, negsuc, is_neg, some, List, [], ◌++◌, ◌⊎◌, inl, inr,
  arith, true,
}
use hepunion.Kernel.{Kernel}
use hepunion.Exec.{
  World, M, pure, ◌>>=◌, ask, oops, release_buffers, kmalloc, kfree, with_buffer, will_use_buffers,
}
use hepunion.SpecialPath.{Branches}
use hepunion.CString.Laws.{snprintf_fits}
use hepunion.Access.{can_remove}
use hepunion.Find.{read_only, make_ro_path}
use hepunion.Find.Located.{IsLocated, find_file_with-IsLocated}
use hepunion.Base.Errno.{einval, enomem}
use hepunion.Names.{is_flag_set}
use hepunion.Tree.{find_present}
use hepunion.Paths.{get_relative_path_for_file}
use hepunion.Ops.{in_buffers, validate_both}
use hepunion.Ops.Remove.{rmdir_ro, rmdir_by_branch, hepunion_rmdir}
use hepunion.View.{Vfs, IsNamed, union_lookup, answer}
use hepunion.View.Kept.{SameView, IsKept-kmalloc, IsKept-kfree}
use hepunion.View.Looks.{can_remove-IsKept, find_present-IsKept, get_relative_path_for_file-IsKept}
use hepunion.View.Handlers.{will_use_buffers-IsKept, validate_both-IsKept, release_buffers-IsKept}
use hepunion.View.Found.{IsDenied, find_present-Answers}

module _ ⦃K : Kernel⦄ where
  with_buffer-runs :
      {A : Type 0} (failed : A) (m : M A) (w : World)
      → (K.kmalloc w.kernel).0 ≡ true
      → with_buffer failed m w ≡ ((m (kmalloc w).1).0, (kfree (m (kmalloc w).1).1).1)
  unfolding with_buffer ◌>>=◌ pure
  with_buffer-runs failed m w got =
      let e : (kmalloc w).0 ≡ true = unfold kmalloc in got in rw e refl

module _ ⦃K : Kernel⦄ ⦃V : Vfs⦄ (b : Branches) (path wh_path : List ℕ)
    (named : IsNamed b path wh_path) (memory : (s : K.State) → (K.kmalloc s).0 ≡ true)
    (dir : K.Inode) (dentry : K.Dentry) where
  -- The state in which the handler looks for the directory, and that in which it then checks the
  -- rights.
  abbrev ready : World → World
  ready w =
      let v = (validate_both dir dentry (will_use_buffers w).1).1 in
      (kmalloc (get_relative_path_for_file b dir dentry (K.left_over v.kernel) true v).1).1

  abbrev pub looked : World → World
  looked w = (find_present b path [] 0 (ready w)).1

  ready-SameView : (w : World) → SameView w (ready w)
  ready-SameView w e =
      let u = (will_use_buffers w).1 in
      let v = (validate_both dir dentry u).1 in
      let old = K.left_over v.kernel in
      let x = (get_relative_path_for_file b dir dentry old true v).1 in
      IsKept-kmalloc.at x e
      ∙ (get_relative_path_for_file-IsKept b dir dentry old true).at v e
      ∙ (validate_both-IsKept dir dentry).at u e
      ∙ will_use_buffers-IsKept.at w e

  -- The status and the state in which the work on the directory ends.
  abbrev worked : World → ℤ × World
  worked w = rmdir_by_branch b path (find_present b path [] 0 (ready w)).0 (looked w)

  hepunion_rmdir-worked :
      (w : World)
      → ((old : List ℕ) (v : World)
          → (get_relative_path_for_file b dir dentry old true v).0 ≡ (pos 0, path))
      → hepunion_rmdir b dir dentry w ≡ ((worked w).0, (release_buffers (kfree (worked w).1).1).1)
  unfolding hepunion_rmdir in_buffers ◌>>=◌ pure ask
  hepunion_rmdir-worked w called =
      let v = (validate_both dir dentry (will_use_buffers w).1).1 in
      let old = K.left_over v.kernel in
      let x = (get_relative_path_for_file b dir dentry old true v).1 in
      rw (called old v) (
        ap (λ (r : ℤ × World). (r.0, (release_buffers r.1).1))
          (with_buffer-runs enomem
            (λ y. let found = find_present b path [] 0 y in rmdir_by_branch b path found.0 found.1)
            x (memory _)))

  rmdir_failed :
      (found : ℤ × List ℕ) (w : World)
      → is_neg found.0 ≡ true
      → rmdir_by_branch b path found w ≡ (found.0, w)
  unfolding rmdir_by_branch pure
  rmdir_failed (negsuc e, real_path) w failed = refl
  rmdir_failed (pos n, real_path) w failed = absurd cc

  rmdir_allowed :
      (found : ℤ × List ℕ) (w : World)
      → IsLocated b path 0 found
      → answer found.0 ≡ some read_only
      → (can_remove b path (b.read_only_branch ++ path) w).0 ≡ pos 0
      → rmdir_by_branch b path found w
        ≡ (pos 0, (can_remove b path (b.read_only_branch ++ path) w).1)
  unfolding rmdir_by_branch rmdir_ro make_ro_path ◌>>=◌ pure
  rmdir_allowed (negsuc e, real_path) w at is allowed = absurd cc
  rmdir_allowed (pos zero, real_path) w at is allowed =
      rw (at.0, snprintf_fits (b.read_only_branch ++ path) named.ro_fits, allowed) refl
  rmdir_allowed (pos (suc n), real_path) w at is allowed = absurd (ground (arith, is))

  -- What is said of an ending.
  abbrev Remains : World → ℤ → World → Type 0
  Remains w out after =
      ((out ≡ pos 0) ⊎ IsDenied b path wh_path 0 named memory w out) × SameView w after

  worked-Remains :
      (w : World)
      → union_lookup b w.kernel path wh_path 0 ≡ some read_only
      → (can_remove b path (b.read_only_branch ++ path) (looked w)).0 ≡ pos 0
      → Remains w (worked w).0 (worked w).1
  unfolding is_flag_set find_present
  worked-Remains w shown allowed =
      let v = ready w in
      let near = ready-SameView w in
      let found = find_present b path [] 0 v in
      let seen : SameView w found.1 = λ e. (find_present-IsKept b path [] 0).at v e ∙ near e in
      let at = find_file_with-IsLocated b (λ q ro rw'. oops (einval, rw')) path [] 0 v refl in
      elim (find_present-Answers b path wh_path 0 named memory [] v refl).0 [
        | inl says ↦
            let same : union_lookup b v.kernel path wh_path 0 ≡ some read_only =
              rw
                (
                  near (V.entry (b.read_write_branch ++ path)),
                  near (V.entry (b.read_only_branch ++ path)),
                  near (V.entry wh_path),
                )
                shown in
            rw (rmdir_allowed found.0 found.1 at (says ∙ same) allowed) (
              inl refl,
              λ e. (can_remove-IsKept b path (b.read_only_branch ++ path)).at found.1 e ∙ seen e,
            )
        | inr (u, close, denied, is) ↦
            rw (rmdir_failed found.0 found.1 (ap is_neg is ∙ denied))
              (inr (u, (λ e. close e ∙ near e), denied, is), seen)
      ]

  -- Where there is memory, the paths fit their buffers, the union shows the directory on the RO
  -- branch, and the caller may remove it in the state in which the handler checks that: whether or
  -- not the directory is empty, `hepunion_rmdir` returns 0 or the error of `can_traverse` and leaves
  -- all places of the file systems as they are, so that the union still shows the directory.
  pub union_lookup-hepunion_rmdir :
      (w : World)
      → ((old : List ℕ) (v : World)
          → (get_relative_path_for_file b dir dentry old true v).0 ≡ (pos 0, path))
      → union_lookup b w.kernel path wh_path 0 ≡ some read_only
      → (can_remove b path (b.read_only_branch ++ path) (looked w)).0 ≡ pos 0
      → let out = hepunion_rmdir b dir dentry w in
        ((out.0 ≡ pos 0) ⊎ IsDenied b path wh_path 0 named memory w out.0)
        × SameView w out.1
        × (union_lookup b out.1.kernel path wh_path 0 ≡ some read_only)
  union_lookup-hepunion_rmdir w called shown allowed =
      let (ended, near) = worked-Remains w shown allowed in
      let freed = (kfree (worked w).1).1 in
      let same : SameView w (release_buffers freed).1 =
        λ e. release_buffers-IsKept.at freed e ∙ IsKept-kfree.at (worked w).1 e ∙ near e in
      let still : union_lookup b (release_buffers freed).1.kernel path wh_path 0 ≡ some read_only =
        rw
          (
            same (V.entry (b.read_write_branch ++ path)),
            same (V.entry (b.read_only_branch ++ path)),
            same (V.entry wh_path),
          )
          shown in
      rw (hepunion_rmdir-worked w called) (ended, same, still)
