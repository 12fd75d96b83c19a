-- ===== src/Find/Located.antt =====
-- fs/hepunion/helpers.c, `find_file`: what its status says of the path in `real_path`.
use hepunion.Base.{
  ℕ, zero, suc, ℤ, pos, negsuc, is_neg, ◌≡◌, refl, true, false, List, Bool-cases, inl, inr,
}
use hepunion.Base.{ltb, path_max}
use hepunion.Base.Errno.{enomem}
use hepunion.Names.{is_flag_set, create_copyup_flag, must_read_only, must_read_write}
use hepunion.Kernel.{Kernel}
use hepunion.Exec.{World, M, pure, ◌>>=◌, with_buffer, kmalloc}
use hepunion.SpecialPath.{Branches}
use hepunion.Lookup.{check_exist}
use hepunion.Access.{can_traverse}
use hepunion.Find.{
  make_ro_path, make_rw_path, check_visible, find_read_only, find_lower, find_file_with,
}

-- A negative status is an error. Otherwise it is READ_ONLY with the path on the RO branch, or
-- READ_WRITE with the path on the RW branch, as the flags allow.
abbrev pub IsLocated : Branches → List ℕ → ℕ → ℤ × List ℕ → Type 0
IsLocated b path flags (negsuc n, out) = Unit
IsLocated b path flags (pos zero, out) =
    (out ≡ (make_ro_path b path).1)
    × (is_flag_set flags must_read_only ≡ false → is_flag_set flags must_read_write ≡ false)
IsLocated b path flags (pos (suc zero), out) =
    (out ≡ (make_rw_path b path).1) × (is_flag_set flags must_read_only ≡ false)
IsLocated b path flags (pos (suc (suc n)), out) = ⊥

error-IsLocated :
    (b : Branches) (path : List ℕ) (flags : ℕ) (e : ℤ) (out : List ℕ)
    → is_neg e ≡ true
    → IsLocated b path flags (e, out)
error-IsLocated b path flags (negsuc n) out h = tt
error-IsLocated b path flags (pos n) out h = absurd cc

module _ ⦃K : Kernel⦄ {A : Type 0} where
  -- What holds of the value for no memory and of each value of `m` holds of the buffered `m`.
  pub holds_with_buffer :
      (P : A → Type 0) (failed : A) (m : M A) (w : World)
      → P failed
      → ((v : World) → P (m v).0)
      → P (with_buffer failed m w).0
  unfolding with_buffer ◌>>=◌ pure
  holds_with_buffer P failed m w p q = elim (Bool-cases (kmalloc w).0) [
    | inl got ↦ rw got (q _)
    | inr none_left ↦ rw none_left p
  ]

module _ ⦃K : Kernel⦄ (b : Branches) where
  find_read_only-IsLocated :
      (path : List ℕ) (flags : ℕ) (w : World)
      → (is_flag_set flags must_read_only ≡ false → is_flag_set flags must_read_write ≡ false)
      → IsLocated b path flags (find_read_only b path flags w).0
  unfolding find_read_only ◌>>=◌ pure
  find_read_only-IsLocated path flags w h =
      elim (Bool-cases (ltb path_max (make_ro_path b path).0)) [
        | inl long ↦ rw long tt
        | inr short ↦
            let found = check_exist (make_ro_path b path).1 0 w in
            let seen = check_visible b path flags found.1 in
            elim (Bool-cases (is_neg found.0)) [
              | inl missing ↦ rw (short, missing) (error-IsLocated b path flags found.0 _ missing)
              | inr there ↦ elim (Bool-cases (is_neg seen.0)) [
                | inl denied ↦
                    rw (short, there, denied) (error-IsLocated b path flags seen.0 _ denied)
                | inr allowed ↦ rw (short, there, allowed) (refl, h)
              ]
            ]
      ]

module _ ⦃K : Kernel⦄ (b : Branches)
    (create_copyup : List ℕ → List ℕ → List ℕ → M (ℤ × List ℕ)) where
  find_lower-IsLocated :
      (path real_path : List ℕ) (flags : ℕ) (err : ℤ) (w : World)
      → is_flag_set flags create_copyup_flag ≡ false
      → is_neg err ≡ true
      → (is_flag_set flags must_read_only ≡ false → is_flag_set flags must_read_write ≡ false)
      → IsLocated b path flags (find_lower b create_copyup path real_path flags err w).0
  unfolding find_lower
  find_lower-IsLocated path real_path flags err w plain failed h =
      let At : ℤ × List ℕ → Type 0 = IsLocated b path flags in
      rw plain (
        holds_with_buffer At (enomem, real_path) _ w tt
          λ v.
            holds_with_buffer At (err, real_path) _ v (error-IsLocated b path flags err _ failed)
              λ u. find_read_only-IsLocated b path flags u h)

  -- Where CREATE_COPYUP is not among the flags, the status of `find_file` is an error, or it is
  -- READ_ONLY with the path on the RO branch in `real_path`, which MUST_READ_WRITE without
  -- MUST_READ_ONLY excludes, or READ_WRITE with the path on the RW branch, which MUST_READ_ONLY
  -- excludes.
  pub find_file_with-IsLocated :
      (path real_path : List ℕ) (flags : ℕ) (w : World)
      → is_flag_set flags create_copyup_flag ≡ false
      → IsLocated b path flags (find_file_with b create_copyup path real_path flags w).0
  unfolding find_file_with ◌>>=◌ pure
  find_file_with-IsLocated path real_path flags w plain =
      elim (Bool-cases (is_flag_set flags must_read_only)) [
        | inl only ↦
            rw only (find_lower-IsLocated path real_path flags _ w plain refl (λ h. absurd cc))
        | inr any ↦ elim (Bool-cases (ltb path_max (make_rw_path b path).0)) [
          | inl long ↦ rw (any, long) tt
          | inr short ↦
              let found = check_exist (make_rw_path b path).1 0 w in
              let seen = can_traverse b path found.1 in
              elim (Bool-cases (is_neg found.0)) [
                | inl missing ↦ elim (Bool-cases (is_flag_set flags must_read_write)) [
                  | inl write ↦
                      rw (any, short, missing, write)
                        (error-IsLocated b path flags found.0 _ missing)
                  | inr read ↦
                      rw (any, short, missing, read)
                        (find_lower-IsLocated path (make_rw_path b path).1 flags found.0 found.1
                          plain missing (λ h. read))
                ]
                | inr there ↦ elim (Bool-cases (is_neg seen.0)) [
                  | inl denied ↦
                      rw (any, short, there, denied) (error-IsLocated b path flags seen.0 _ denied)
                  | inr allowed ↦ rw (any, short, there, allowed) (refl, any)
                ]
              ]
        ]
      ]
