-- ===== src/Copyup/Placed.antt =====
-- fs/hepunion/cow.c: where `create_copyup` leaves the copy of a file.
use hepunion.Base.{ℕ, zero, suc, ◌+◌, ◌<◌, ◌≡◌, ℤ, is_neg, true, false, some}
use hepunion.Base.{List, [], ◌∷◌, ◌++◌, ◌⊎◌, inl, inr, length, path_max, Option-cases, Bool-cases}
use hepunion.Base.Errno.{enomem}
use hepunion.Kernel.{Kernel}
use hepunion.Exec.{World, M, pure, ◌>>=◌, oops}
use hepunion.CString.{strrchr}
use hepunion.Names.{slash}
use hepunion.SpecialPath.{Branches}
use hepunion.Attributes.{unset, get_file_attr_worker}
use hepunion.Find.Located.{holds_with_buffer}
use hepunion.Tree.{find_path_worker}
use hepunion.Tree.Reached.{PtrErrors}
use hepunion.Tree.RealPath.{find_path_worker-real_path}
use hepunion.Copyup.{copy_by_type, copyup_with, create_copyup_at, create_copyup}
use hepunion.Copyup.Depth.{create_copyup-bound, shut_number}

module _ ⦃K : Kernel⦄ (b : Branches) (p : List ℕ) (last : ℕ) where
  -- The path on the RW branch, or the root of that branch for a name at the root.
  abbrev pub IsOnRw : List ℕ → Type 0
  IsOnRw out =
      (out ≡ b.read_write_branch ++ slash ∷ p)
      ⊎ ((last ≡ 0) × (out ≡ b.read_write_branch ++ slash ∷ []))

  -- What `find_path` has to be able to do.
  pub record Walks : Type 0 where
    pub errors : PtrErrors
    pub last_slash : strrchr (slash ∷ p) slash ≡ some last
    pub rw_fits : length b.read_write_branch + length p + 1 < path_max
    pub ro_fits : length b.read_only_branch + 1 < path_max

  -- A copy that is made is there.
  abbrev pub IsCopied : ℤ × List ℕ → Type 0
  IsCopied out = is_neg out.0 ≡ false → IsOnRw out.1

  failed-IsCopied : (e : ℤ) (out : List ℕ) → is_neg e ≡ true → IsCopied (e, out)
  failed-IsCopied e out failed ok = absurd cc

  copyup_with-IsCopied :
      (rounds : ℕ) (children : K.File → M ℤ) (ro_path rw_path : List ℕ) (w : World)
      → Walks
      → IsCopied (copyup_with b rounds children (slash ∷ p) ro_path rw_path w).0
  unfolding copyup_with ◌>>=◌ pure
  copyup_with-IsCopied rounds children ro_path rw_path w k =
      let failed : ℤ × List ℕ = (enomem, rw_path) in
      holds_with_buffer IsCopied failed _ w (λ h. absurd cc)
        λ w₁.
          holds_with_buffer IsCopied failed _ w₁ (λ h. absurd cc)
            λ w₂.
              holds_with_buffer IsCopied failed _ w₂ (λ h. absurd cc)
                λ w₃.
                  let attr = get_file_attr_worker b (slash ∷ p) ro_path unset w₃ in
                  let found = find_path_worker b (slash ∷ p) rw_path attr.1 in
                  let left = copy_by_type b rounds children ro_path found.0.1 attr.0.1 found.1 in
                  elim (Bool-cases (is_neg attr.0.0)) [
                    | inl e ↦ rw e (failed-IsCopied attr.0.0 rw_path e)
                    | inr known ↦ elim (Bool-cases (is_neg found.0.0)) [
                      | inl e ↦ rw (known, e) (failed-IsCopied found.0.0 found.0.1 e)
                      | inr walked ↦
                          let placed =
                            find_path_worker-real_path b p rw_path last attr.1 k.errors k.last_slash
                              k.rw_fits k.ro_fits walked in
                          elim (Option-cases left.0) [
                            | inl done ↦ rw (known, walked, done) (λ h. placed)
                            | inr (err, stopped) ↦ rw (known, walked, stopped) (λ h. placed)
                          ]
                    ]
                  ]

  create_copyup_at-IsCopied :
      (rounds depth : ℕ) (ro_path rw_path : List ℕ) (w : World)
      → Walks
      → IsCopied (create_copyup_at b rounds depth (slash ∷ p) ro_path rw_path w).0
  unfolding create_copyup_at oops
  create_copyup_at-IsCopied rounds zero ro_path rw_path w k = λ h. absurd cc
  create_copyup_at-IsCopied rounds (suc depth) ro_path rw_path w k =
      copyup_with-IsCopied rounds _ ro_path rw_path w k

  pub create_copyup-IsCopied :
      (rounds : ℕ) (ro_path rw_path : List ℕ) (w : World)
      → Walks
      → IsCopied (create_copyup b rounds (slash ∷ p) ro_path rw_path w).0
  create_copyup-IsCopied rounds ro_path rw_path w k =
      let (top, is_top) = shut_number (suc (suc path_max)) in
      rw (create_copyup-bound b rounds top is_top)
        (create_copyup_at-IsCopied rounds top ro_path rw_path w k)
