-- ===== src/Mount/Unmounted.antt =====
-- fs/hepunion/main.c and opts.c: what a mount allocates, and what is left of it when it fails or after
-- `hepunion_kill_sb`.
use hepunion.Base.{
  Ptr, ptr, err_ptr, ℕ, suc, ◌+◌, ◌-◌, ◌≡◌, refl, ap, ◌∙◌, ℤ, pos, is_neg, is_zero, true, false,
  Option, none, some,
}
use hepunion.Base.{List, arith, ◌⊎◌, inl, inr, Bool-cases, Option-cases}
use hepunion.Kernel.{Kernel, Creds, BranchSuper}
use hepunion.Exec.{World, M, pure, ◌>>=◌, call, call_, ask, oops, kmalloc, kfree, on_ptr, on_option}
use hepunion.Mount.{BranchNames, no_branches, get_branch_names}
use hepunion.Mount.Super.{
  SuperBlock, root_init, make_root, open_branches, get_branches, free_set, free_branches, init_info,
  hepunion_read_super, hepunion_put_super, hepunion_kill_sb,
}
use hepunion.Mount.Accounted.{held, get_branch_names-IsOwned}

module _ ⦃K : Kernel⦄ where
  -- A step that allocates nothing and keeps the information of the super block.
  record IsPlain (info : Option BranchNames) (m : M (ℤ × SuperBlock)) : Type 0 where
    at : (w : World) → ((m w).1.live ≡ w.live) × ((m w).0.1.s_fs_info ≡ info)

  make_root-IsPlain :
      (sb : SuperBlock) (seen : BranchSuper) → IsPlain sb.s_fs_info (make_root sb seen)
  unfolding make_root ◌>>=◌ pure call call_ oops
  make_root-IsPlain sb seen = record {
    at = λ w. elim (Option-cases (K.new_inode w.kernel).0) [
      | inl null ↦ rw null (refl, refl)
      | inr (inode, made) ↦
          let k = K.init_root inode (root_init seen) (K.new_inode w.kernel).1 in
          elim (Option-cases (K.d_make_root inode k).0) [
            | inl null ↦ rw (made, null) (refl, refl)
            | inr (root, rooted) ↦ rw (made, rooted) (refl, refl)
          ]
    ];
  }

  IsPlain-call :
      {A : Type 0} (info : Option BranchNames) (f : Creds → K.State → A × K.State)
      → (m : A → M (ℤ × SuperBlock)) → ((a : A) → IsPlain info (m a))
      → IsPlain info (call f >>= m)
  unfolding call ◌>>=◌
  IsPlain-call info f m good = record {
    at = λ w.
        let answer = f (record { fsuid = w.fsuid; fsgid = w.fsgid }) w.kernel in
        (good answer.0).at (record w { kernel = answer.1 });
  }

  IsPlain-ask :
      {A : Type 0} (info : Option BranchNames) (f : K.State → A) (m : A → M (ℤ × SuperBlock))
      → ((a : A) → IsPlain info (m a))
      → IsPlain info (ask f >>= m)
  unfolding ask ◌>>=◌
  IsPlain-ask info f m good = record { at = λ w. (good (f w.kernel)).at w }

  IsPlain-on_ptr :
      {A : Type 0} (p : Ptr A) (info : Option BranchNames)
      → (m : A → M (ℤ × SuperBlock)) (sb : SuperBlock) → ((a : A) → IsPlain info (m a))
      → sb.s_fs_info ≡ info
      → IsPlain info (on_ptr p m (λ err. pure (err, sb)))
  unfolding pure
  IsPlain-on_ptr (ptr a) info m sb good same = good a
  IsPlain-on_ptr (err_ptr e) info m sb good same = record { at = λ w. (refl, same) }

  open_branches-IsPlain :
      (sb : SuperBlock) (ro rw_ : List ℕ) → IsPlain sb.s_fs_info (open_branches sb ro rw_)
  unfolding open_branches
  open_branches-IsPlain sb ro rw_ =
      let info = sb.s_fs_info in
      IsPlain-call info _ _ λ opened.
        IsPlain-on_ptr opened info _ sb
          (λ filp. IsPlain-ask info _ _ λ seen. IsPlain-call info _ _ λ closed.
            IsPlain-call info _ _ λ reopened.
              IsPlain-on_ptr reopened info _ _
                (λ second. IsPlain-call info _ _ λ closed. make_root-IsPlain _ seen) refl)
          refl

  holds_on_option :
      (P : (ℤ × SuperBlock) × World → Type 0) (o : Option (List ℕ)) (m : M (ℤ × SuperBlock))
      → (k : List ℕ → M (ℤ × SuperBlock)) (v : World) → (o ≡ none → P (m v))
      → ((a : List ℕ) → o ≡ some a → P (k a v))
      → P (on_option o m k v)
  holds_on_option P none m k v h g = h refl
  holds_on_option P (some a) m k v h g = g a refl

  -- What `get_branches` has allocated at its end: the branches that it sets, both of them on success,
  -- and after an error perhaps one path more.
  abbrev IsFilled : World → (ℤ × SuperBlock) × World → Type 0
  IsFilled w out =
      (names : BranchNames) × (out.0.1.s_fs_info ≡ some names)
      × ((out.1.live ≡ w.live + held names) ⊎ (out.1.live ≡ suc (w.live + held names)))
      × ((is_neg out.0.0 ≡ true) ⊎ ((held names ≡ 2) × (out.1.live ≡ w.live + held names)))

  get_branches-IsFilled :
      (sb : SuperBlock) (arg : List ℕ) (w : World) → IsFilled w (get_branches sb arg w)
  unfolding get_branches ◌>>=◌ pure
  get_branches-IsFilled sb arg w =
      let parsed = get_branch_names arg w in
      let names = parsed.0.1 in
      let owned = (get_branch_names-IsOwned arg).at w in
      elim (Bool-cases (is_neg parsed.0.0)) [
        | inl failed ↦ rw failed (
          names,
          refl,
          elim owned [ inl even ↦ inl (omega arith) | inr (err, odd) ↦ inr (omega arith) ],
          inl failed,
        )
        | inr parsed_ok ↦
            let even : parsed.1.live ≡ w.live + held names = elim owned [
              | inl even ↦ omega arith
              | inr (err, odd) ↦ absurd cc
            ] in
            rw parsed_ok (
              holds_on_option (IsFilled w) names.read_only_branch _ _ parsed.1
                (λ no_ro. (names, refl, inl even, inl refl))
                (λ ro is_ro.
                  holds_on_option (IsFilled w) names.read_write_branch _ _ parsed.1
                    (λ no_rw. (names, refl, inl even, inl refl))
                    (λ rw' is_rw.
                      let named = record sb { s_fs_info = some names } in
                      let opened = (open_branches-IsPlain named ro rw').at parsed.1 in
                      let both : held names ≡ 2 = rw (is_ro, is_rw) refl in
                      (names, opened.1, inl (opened.0 ∙ even), inr (both, opened.0 ∙ even)))))
      ]

  free_branches-live :
      (names : BranchNames) (v : World)
      → (free_branches (some names) v).1.live ≡ v.live - held names
  unfolding free_branches free_set ◌>>=◌ kfree pure
  free_branches-live names v = elim (Option-cases names.read_only_branch) [
    | inl no_ro ↦ elim (Option-cases names.read_write_branch) [
      | inl no_rw ↦ rw (no_ro, no_rw) (omega arith)
      | inr (rw', is_rw) ↦ rw (no_ro, is_rw) (omega arith)
    ]
    | inr (ro, is_ro) ↦ elim (Option-cases names.read_write_branch) [
      | inl no_rw ↦ rw (is_ro, no_rw) (omega arith)
      | inr (rw', is_rw) ↦ rw (is_ro, is_rw) (omega arith)
    ]
  ]

  hepunion_kill_sb-live :
      (sb : SuperBlock) (names : BranchNames) (v : World)
      → sb.s_fs_info ≡ some names
      → (hepunion_kill_sb hepunion_put_super sb v).1.live ≡ v.live - held names - 1
  unfolding hepunion_kill_sb hepunion_put_super ◌>>=◌ pure kfree
  hepunion_kill_sb-live sb names v mounted =
      rw mounted (ap (λ n. n - 1) (free_branches-live names v))

  -- A mount with options succeeds with three allocations, which hepunion_kill_sb gives back where
  -- kill_litter_super calls hepunion_put_super, or fails with no information in the super block and
  -- at most one allocation left.
  pub mount_accounted :
      (sb : SuperBlock) (raw_data : List ℕ) (w : World)
      → let out = hepunion_read_super sb (some raw_data) w in
        ((out.0.0 ≡ pos 0)
          × (out.1.live ≡ w.live + 3)
          × ((hepunion_kill_sb hepunion_put_super out.0.1 out.1).1.live ≡ w.live))
        ⊎ ((is_zero out.0.0 ≡ false)
            × (out.0.1.s_fs_info ≡ none)
            × ((out.1.live ≡ w.live) ⊎ (out.1.live ≡ w.live + 1)))
  unfolding hepunion_read_super ◌>>=◌ pure kmalloc kfree
  mount_accounted sb raw_data w = elim (Bool-cases (K.kmalloc w.kernel).0) [
    | inr none_left ↦ rw none_left (inr (refl, refl, inl refl))
    | inl got ↦
        let v : World = record w { kernel = (K.kmalloc w.kernel).1; live = suc w.live } in
        let u = (init_info v).1 in
        let out = get_branches (record sb { s_fs_info = some no_branches }) raw_data u in
        let (names, info, owned, status) =
          get_branches-IsFilled (record sb { s_fs_info = some no_branches }) raw_data u in
        elim (Bool-cases (is_zero out.0.0)) [
          | inl ok ↦ elim status [
            | inl failed ↦ absurd (ground (arith, ok, failed))
            | inr (both, exact) ↦
                rw (got, ok)
                  (inl (
                    refl,
                    omega arith,
                    hepunion_kill_sb-live out.0.1 names out.1 info ∙ omega arith,
                  ))
          ]
          | inr failed ↦
              let freed = free_branches-live names out.1 in
              rw (got, failed)
                (inr (
                  failed,
                  refl,
                  rw info
                      (elim owned [ inl even ↦ inl (omega arith) | inr odd ↦ inr (omega arith) ]),
                ))
        ]
  ]
