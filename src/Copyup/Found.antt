-- ===== src/Copyup/Found.antt =====
-- fs/hepunion/helpers.c: where `find_file` leaves the copy of a file.
use hepunion.Base.{ℕ, ◌+◌, ◌<◌, ◌≡◌, refl, ℤ, pos, negsuc, is_neg, is_zero, true, some}
use hepunion.Base.{List, ◌∷◌, inl, inr, length, ltb, path_max, Bool-cases, if◌then◌else◌}
use hepunion.Base.Errno.{enomem}
use hepunion.Kernel.{Kernel}
use hepunion.Exec.{World, M, pure, ◌>>=◌}
use hepunion.CString.{strrchr}
use hepunion.Names.{slash, is_flag_set, create_copyup_flag, must_read_only, must_read_write}
use hepunion.SpecialPath.{Branches}
use hepunion.Lookup.{check_exist}
use hepunion.Access.{can_traverse}
use hepunion.Find.{
  make_ro_path, make_rw_path, check_visible, find_read_only, find_to_copy, find_lower,
  find_file_with,
}
use hepunion.Find.Located.{holds_with_buffer}
use hepunion.Tree.Reached.{PtrErrors}
use hepunion.Copyup.{create_copyup, find_file}
use hepunion.Copyup.Placed.{Walks, IsOnRw, IsCopied, create_copyup-IsCopied}

module _ ⦃K : Kernel⦄ (b : Branches) (p : List ℕ) (last : ℕ)
    (copy : List ℕ → List ℕ → List ℕ → M (ℤ × List ℕ)) where
  -- The call of `create_copyup` is such a copy.
  abbrev Copies : Type 0
  Copies =
      (ro_path rw_path : List ℕ) (v : World)
      → IsCopied b p last (copy (slash ∷ p) ro_path rw_path v).0

  -- The status READ_WRITE_COPYUP is that of a copy that is there.
  abbrev IsPlaced : ℤ × List ℕ → Type 0
  IsPlaced out = out.0 ≡ pos 2 → IsOnRw b p last out.1

  failed-IsPlaced : (e : ℤ) (out : List ℕ) → is_neg e ≡ true → IsPlaced (e, out)
  failed-IsPlaced (negsuc n) out failed ok = absurd cc
  failed-IsPlaced (pos n) out failed ok = absurd cc

  copied-IsPlaced :
      (out : ℤ × List ℕ)
      → IsCopied b p last out
      → IsPlaced (if is_zero out.0 then pos 2 else out.0, out.1)
  copied-IsPlaced (negsuc n, out) copied ok = absurd cc
  copied-IsPlaced (pos n, out) copied ok = copied refl

  find_to_copy-IsPlaced :
      (real_path : List ℕ) (flags : ℕ) (w : World)
      → Copies
      → IsPlaced (find_to_copy b copy (slash ∷ p) real_path flags w).0
  unfolding find_to_copy ◌>>=◌ pure
  find_to_copy-IsPlaced real_path flags w k =
      let ro_path = (make_ro_path b (slash ∷ p)).1 in
      let found = check_exist ro_path 0 w in
      let seen = check_visible b (slash ∷ p) flags found.1 in
      elim (Bool-cases (ltb path_max (make_ro_path b (slash ∷ p)).0)) [
        | inl long ↦ rw long (λ h. absurd cc)
        | inr short ↦ elim (Bool-cases (is_neg found.0)) [
          | inl e ↦ rw (short, e) (failed-IsPlaced found.0 real_path e)
          | inr there ↦ elim (Bool-cases (is_neg seen.0)) [
            | inl e ↦ rw (short, there, e) (failed-IsPlaced seen.0 real_path e)
            | inr allowed ↦
                rw (short, there, allowed)
                  (copied-IsPlaced (copy (slash ∷ p) ro_path real_path seen.1).0
                    (k ro_path real_path seen.1))
          ]
        ]
      ]

  find_read_only-IsPlaced :
      (flags : ℕ) (w : World) → IsPlaced (find_read_only b (slash ∷ p) flags w).0
  unfolding find_read_only ◌>>=◌ pure
  find_read_only-IsPlaced flags w =
      let ro_path = (make_ro_path b (slash ∷ p)).1 in
      let found = check_exist ro_path 0 w in
      let seen = check_visible b (slash ∷ p) flags found.1 in
      elim (Bool-cases (ltb path_max (make_ro_path b (slash ∷ p)).0)) [
        | inl long ↦ rw long (λ h. absurd cc)
        | inr short ↦ elim (Bool-cases (is_neg found.0)) [
          | inl e ↦ rw (short, e) (failed-IsPlaced found.0 ro_path e)
          | inr there ↦ elim (Bool-cases (is_neg seen.0)) [
            | inl e ↦ rw (short, there, e) (failed-IsPlaced seen.0 ro_path e)
            | inr allowed ↦ rw (short, there, allowed) (λ h. absurd cc)
          ]
        ]
      ]

  find_lower-IsPlaced :
      (real_path : List ℕ) (flags : ℕ) (err : ℤ) (w : World)
      → Copies
      → is_neg err ≡ true
      → IsPlaced (find_lower b copy (slash ∷ p) real_path flags err w).0
  unfolding find_lower
  find_lower-IsPlaced real_path flags err w k failed =
      holds_with_buffer IsPlaced (enomem, real_path) _ w (λ h. absurd cc)
        λ v.
          holds_with_buffer IsPlaced (err, real_path) _ v (failed-IsPlaced err real_path failed)
            λ u. elim (Bool-cases (is_flag_set flags create_copyup_flag)) [
              | inl copy ↦ rw copy (find_to_copy-IsPlaced real_path flags u k)
              | inr plain ↦ rw plain (find_read_only-IsPlaced flags u)
            ]

  find_file_with-IsPlaced :
      (real_path : List ℕ) (flags : ℕ) (w : World)
      → Copies
      → IsPlaced (find_file_with b copy (slash ∷ p) real_path flags w).0
  unfolding find_file_with ◌>>=◌ pure
  find_file_with-IsPlaced real_path flags w k =
      let rw_path = (make_rw_path b (slash ∷ p)).1 in
      let found = check_exist rw_path 0 w in
      let seen = can_traverse b (slash ∷ p) found.1 in
      elim (Bool-cases (is_flag_set flags must_read_only)) [
        | inl only ↦ rw only (find_lower-IsPlaced real_path flags enomem w k refl)
        | inr any ↦ elim (Bool-cases (ltb path_max (make_rw_path b (slash ∷ p)).0)) [
          | inl long ↦ rw (any, long) (λ h. absurd cc)
          | inr short ↦ elim (Bool-cases (is_neg found.0)) [
            | inl missing ↦ elim (Bool-cases (is_flag_set flags must_read_write)) [
              | inl write ↦
                  rw (any, short, missing, write) (failed-IsPlaced found.0 rw_path missing)
              | inr read ↦
                  rw (any, short, missing, read)
                    (find_lower-IsPlaced rw_path flags found.0 found.1 k missing)
            ]
            | inr there ↦ elim (Bool-cases (is_neg seen.0)) [
              | inl e ↦ rw (any, short, there, e) (failed-IsPlaced seen.0 rw_path e)
              | inr allowed ↦ rw (any, short, there, allowed) (λ h. absurd cc)
            ]
          ]
        ]
      ]

module _ ⦃K : Kernel⦄ (b : Branches) (p : List ℕ) (last : ℕ) where
  -- Where an error pointer carries an error and the branches are short enough for the buffers, a
  -- status of READ_WRITE_COPYUP of `find_file` comes with the path of the copy on the RW branch in
  -- `real_path`, or, for a path that has no slash but its first byte, with that path or the root of
  -- the RW branch.
  pub find_file_copyup :
      (rounds : ℕ) (real_path : List ℕ) (flags : ℕ) (w : World)
      → PtrErrors
      → strrchr (slash ∷ p) slash ≡ some last
      → length b.read_write_branch + length p + 1 < path_max
      → length b.read_only_branch + 1 < path_max
      → (find_file b rounds (slash ∷ p) real_path flags w).0.0 ≡ pos 2
      → IsOnRw b p last (find_file b rounds (slash ∷ p) real_path flags w).0.1
  unfolding find_file
  find_file_copyup rounds real_path flags w errors last_slash rw_fits ro_fits =
      let walks : Walks b p last = record {
        errors = errors;
        last_slash = last_slash;
        rw_fits = rw_fits;
        ro_fits = ro_fits;
      } in
      find_file_with-IsPlaced b p last (create_copyup b rounds) real_path flags w
        (λ ro_path rw_path v. create_copyup-IsCopied b p last rounds ro_path rw_path v walks)
