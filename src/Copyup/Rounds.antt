-- ===== src/Copyup/Rounds.antt =====
-- fs/hepunion/cow.c: the loop of `create_copyup` that copies the contents of a file.
use hepunion.Base.{ℕ, zero, suc, ◌≤◌, ◌<◌, ◌≡◌, refl, ℤ, pos, is_neg, is_zero, false, some}
use hepunion.Base.{List, arith, Bool-cases, inl, inr}
use hepunion.Kernel.{Kernel, Creds}
use hepunion.Exec.{World, pure, ◌>>=◌, call, as_root, push_root, pop_root}
use hepunion.Copyup.{copy_data, maxsize}

module _ ⦃K : Kernel⦄ (ro_fd rw_fd : K.File) (left : K.State → ℕ) where
  -- The bytes that are left to read: a read that gives some takes them off, and a write to the
  -- copy adds none.
  pub record IsFinite : Type 0 where
    pub read :
        (c : Creds) (k : K.State)
        → is_neg (K.vfs_read ro_fd maxsize c k).0.0 ≡ false
        → is_zero (K.vfs_read ro_fd maxsize c k).0.0 ≡ false
        → suc (left (K.vfs_read ro_fd maxsize c k).1) ≤ left k
    pub write :
        (c : Creds) (k : K.State) (bytes : List ℕ) → left (K.vfs_write rw_fd bytes c k).1 ≤ left k

  -- Where each read that gives bytes makes less to read and no write makes more, the loop that
  -- copies the contents ends, with 0 or an error, within any number of rounds above what there is
  -- to read.
  pub copy_data-enough :
      (rounds : ℕ) (w : World)
      → IsFinite
      → left w.kernel < rounds
      → (err : ℤ) × ((copy_data rounds ro_fd rw_fd w).0 ≡ some err)
  unfolding copy_data ◌>>=◌ pure as_root call push_root pop_root
  copy_data-enough zero w finite lt = absurd (omega arith)
  copy_data-enough (suc rounds) w finite lt =
      let c : Creds = record { fsuid = 0; fsgid = 0 } in
      let got = K.vfs_read ro_fd maxsize c w.kernel in
      let put = K.vfs_write rw_fd got.0.1 c got.1 in
      elim (Bool-cases (is_neg got.0.0)) [
        | inl e ↦ (got.0.0, rw e refl)
        | inr read ↦ elim (Bool-cases (is_zero got.0.0)) [
          | inl e ↦ (pos 0, rw (read, e) refl)
          | inr more ↦ elim (Bool-cases (is_neg put.0)) [
            | inl e ↦ (put.0, rw (read, more, e) refl)
            | inr written ↦
                let less = finite.read c w.kernel read more in
                let kept = finite.write c got.1 got.0.1 in
                rw (read, more, written)
                  (copy_data-enough rounds _ finite (omega (arith, less, kept, lt)))
          ]
        ]
      ]
