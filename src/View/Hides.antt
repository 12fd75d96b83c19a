-- ===== src/View/Hides.antt =====
-- fs/hepunion/wh.c: a whiteout that is made hides its path, which stays out of the RW branch.
use hepunion.Base.{
  ℕ, ◌+◌, ◌<◌, ◌≡◌, ◌≢◌, refl, ap, sym, ◌∙◌, ℤ, pos, is_neg, is_zero, true, false, List, [], ◌∷◌,
  ◌++◌, Bool-cases, inl, inr, length, take, path_max,
}
use hepunion.Kernel.{Kernel, Creds}
use hepunion.Exec.{World, M, pure, ◌>>=◌, ◌>>◌, call, as_root, push_root, pop_root}
use hepunion.Names.{slash}
use hepunion.SpecialPath.{Branches}
use hepunion.Workers.{dbg_creat, on_ro_branch, creat_flags}
use hepunion.Whiteout.{create_whiteout_worker, root_owned}
use hepunion.Hiding.{create_whiteout}
use hepunion.Tree.{find_path_null}
use hepunion.Ops.Remove.{cover, unlink_ro_file}
use hepunion.View.Looks.{can_remove-IsKept, find_me-IsKept}
use hepunion.Tree.Reached.{Ptr-cases}
use hepunion.Attributes.{unset}
use mathlib.Core.Path.{subst}
use hepunion.View.{Vfs, root, IsNamed}
use hepunion.View.Writes.{VfsWrites}
use hepunion.View.Absent.{IsKept→Stays}
use hepunion.View.Removed.{unlink-StaysOut}
use hepunion.View.Ends.{Ends, Ends-bind, Ends-unless_neg, Ends-with_buffer}
use hepunion.View.Gone.{find_path_null-StaysOut}

module _ ⦃K : Kernel⦄ ⦃V : Vfs⦄ (b : Branches) (p wh_path : List ℕ) where
  -- The whiteout stands at another place than the file, and the directories above the file too.
  pub record IsApart : Type 0 where
    pub whiteout : V.entry wh_path ≢ V.entry (b.read_write_branch ++ slash ∷ p)
    pub above :
        (n : ℕ)
        → n < length (b.read_write_branch ++ slash ∷ p)
        → V.entry (take n (b.read_write_branch ++ slash ∷ p))
          ≢ V.entry (b.read_write_branch ++ slash ∷ p)

  abbrev pub IsHidden : K.State → Type 0
  IsHidden s =
      (V.has s (V.entry (b.read_write_branch ++ slash ∷ p)) ≡ false)
      × (V.has s (V.entry wh_path) ≡ true)

  -- From a state without the file on RW, success ends in one where the path is hidden.
  abbrev pub Hides : M ℤ → Type 0
  Hides m = Ends (λ s. V.has s (V.entry (b.read_write_branch ++ slash ∷ p)) ≡ false) IsHidden m

module _ ⦃K : Kernel⦄ where
  pub value-pure : (e : ℤ) (w : World) → (pure e w).0 ≡ e
  unfolding pure
  value-pure e w = refl

  pub value-then : {A : Type 0} (m : M A) (e : ℤ) (w : World) → ((m >> pure e) w).0 ≡ e
  unfolding ◌>>=◌ pure
  value-then m e w = refl

module _ ⦃K : Kernel⦄ ⦃V : Vfs⦄ ⦃W : VfsWrites⦄ (b : Branches) (p wh_path : List ℕ)
    (named : IsNamed b (slash ∷ p) wh_path) (apart : IsApart b p wh_path)
    (fits : length b.read_write_branch + 1 < path_max) where
  create_whiteout_worker-Hides : Hides b p wh_path (create_whiteout_worker b wh_path)
  unfolding create_whiteout_worker dbg_creat ◌>>=◌ pure call as_root push_root pop_root
  create_whiteout_worker-Hides = record {
    at = λ w h ok. elim (Bool-cases (on_ro_branch b wh_path)) [
      | inl ro ↦ absurd (cc (rw ro at ok))
      | inr allowed ↦
          let c : Creds = record { fsuid = w.fsuid; fsgid = w.fsgid } in
          let opened = K.filp_open wh_path creat_flags 0o400 c w.kernel in
          elim (Ptr-cases opened.0) [
            | inr (e, failed) ↦
                let neg = W.creat_fails wh_path 0o400 c w.kernel e failed in
                absurd (cc (neg, rw (allowed, failed) at ok))
            | inl (fd, made) ↦
                let there = W.creat_makes wh_path 0o400 c w.kernel fd made in
                let off = W.creat_adds wh_path 0o400 c w.kernel _ apart.whiteout h in
                let set = K.notify_change (K.f_dentry fd) root_owned root opened.1 in
                let kept = W.notify_change_keeps (K.f_dentry fd) root_owned root opened.1 in
                elim (Bool-cases (is_zero set.0)) [
                  | inl done ↦ rw (allowed, made, done) (kept _ ∙ off, kept _ ∙ there)
                  | inr failed ↦
                      let is : set.0 ≡ pos 0 = rw (allowed, made, failed) at ok in
                      absurd (cc (rw is at failed))
                ]
          ]
    ];
  }

  create_whiteout-hides :
      (w : World)
      → V.has w.kernel (V.entry (b.read_write_branch ++ slash ∷ p)) ≡ false
      → (create_whiteout b (slash ∷ p) [] w).0.0 ≡ pos 0
      → IsHidden b p wh_path (create_whiteout b (slash ∷ p) [] w).1.kernel
  unfolding create_whiteout ◌>>=◌ pure
  create_whiteout-hides w h =
      let found = find_path_null b (slash ∷ p) w in
      elim (Bool-cases (is_neg found.0)) [
        | inl failed ↦ rw (named.marked, failed) (λ ok. absurd (cc (rw ok at failed)))
        | inr ok ↦
            rw (named.marked, ok)
              (create_whiteout_worker-Hides.at found.1
                ((find_path_null-StaysOut b p fits apart.above).at w h))
      ]

  -- The whiteout is made last, and what follows a failure returns its error.
  hide_last-Hides :
      (f : ℤ × List ℕ → M ℤ)
      → ((made : ℤ × List ℕ) (w : World) → is_neg made.0 ≡ true → (f made w).0 ≡ made.0)
      → ((made : ℤ × List ℕ) → is_neg made.0 ≡ false → f made ≡ pure made.0)
      → Hides b p wh_path (create_whiteout b (slash ∷ p) [] >>= f)
  unfolding ◌>>=◌ pure
  hide_last-Hides f fails goes = record {
    at = λ w h ok.
        let out = create_whiteout b (slash ∷ p) [] w in
        elim (Bool-cases (is_neg out.0.0)) [
          | inl failed ↦ absurd (cc (failed, sym (fails out.0 out.1 failed) ∙ ok))
          | inr made ↦
              let e : f out.0 out.1 ≡ (out.0.0, out.1) =
                ap (λ (m : M ℤ). m out.1) (goes out.0 made) in
              subst (λ (r : ℤ × World). IsHidden b p wh_path r.1.kernel) (sym e)
                (create_whiteout-hides w h (ap (λ r. r.0) (sym e) ∙ ok))
        ];
  }

  cover-Hides : Hides b p wh_path (cover b (slash ∷ p))
  unfolding cover pure
  cover-Hides = Ends-bind _ _ ((IsKept→Stays _ (find_me-IsKept b (slash ∷ p) [] unset)).at) λ found.
      elim (Bool-cases (is_neg found.0)) [
        | inl missing ↦ rw missing (hide_last-Hides _ (λ made w failed. refl) (λ made ok. refl))
        | inr there ↦ rw there (
            Ends-bind _ _ ((unlink-StaysOut found.1).at) λ gone. Ends-unless_neg gone _ λ ok.
              (hide_last-Hides _ (λ made w failed. rw failed (value-then _ _ w))
                (λ made ok. rw ok refl)))
      ]

  pub unlink_ro_file-Hides :
      (real_path : List ℕ) → Hides b p wh_path (unlink_ro_file b (slash ∷ p) real_path)
  unfolding unlink_ro_file
  unlink_ro_file-Hides real_path =
      let kept = λ (s : K.State) (h : V.has s (V.entry (b.read_write_branch ++ slash ∷ p)) ≡ false).
        V.kmalloc_keeps s _ ∙ h in
      Ends-bind _ _ ((IsKept→Stays _ (can_remove-IsKept b (slash ∷ p) real_path)).at) λ allowed.
        Ends-unless_neg allowed _
          λ ok. Ends-with_buffer _ kept (Ends-with_buffer _ kept cover-Hides)
