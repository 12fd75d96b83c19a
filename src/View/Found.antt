-- ===== src/View/Found.antt =====
-- fs/hepunion/helpers.c, `find_file`: it answers by what the union shows.
use hepunion.Base.{
  ℕ, ◌≡◌, refl, sym, ap, ◌∙◌, ℤ, pos, is_neg, Bool, true, false, not, ◌||◌, Option, none, List,
  ◌++◌, ◌⊎◌, inl, inr, arith, length, path_max, Bool-cases, le→ltb, neg-ne-zero, take-length_le,
  ◌-◌,
}
use hepunion.Base.Errno.{enoent, enomem, einval}
use hepunion.Kernel.{Kernel}
use hepunion.Exec.{
  oops, World, M, pure, ◌>>=◌, call, call_, as_root, push_root, pop_root, kmalloc, with_buffer,
}
use hepunion.Names.{
  is_flag_set, create_copyup_flag, must_read_only, must_read_write, ignore_whiteout,
}
use hepunion.SpecialPath.{Branches}
use hepunion.Lookup.{check_exist}
use hepunion.Attributes.{find_whiteout}
use hepunion.Access.{can_traverse}
use hepunion.Find.{
  make_ro_path, make_rw_path, check_visible, find_read_only, find_lower, find_file_with,
}
use hepunion.Tree.Reached.{Ptr-cases}
use hepunion.View.{Vfs, root, is_ptr, ro_lookup, union_lookup, IsNamed, answer}
use hepunion.View.Kept.{SameView, IsKept-kmalloc}
use hepunion.Tree.{find_present}
use hepunion.View.Looks.{find_present-IsKept, check_exist-IsKept}

module _ ⦃K : Kernel⦄ ⦃V : Vfs⦄ where
  pub check_exist-has :
      (p : List ℕ) (w : World)
      → ((V.has w.kernel (V.entry p) ≡ true) × ((check_exist p 0 w).0 ≡ pos 0))
        ⊎ ((V.has w.kernel (V.entry p) ≡ false) × (is_neg (check_exist p 0 w).0 ≡ true))
  unfolding check_exist as_root push_root pop_root call call_ ◌>>=◌ pure
  check_exist-has p w =
      let found = K.kern_path p 0 root w.kernel in
      let finds = V.kern_path_finds p w.kernel in
      elim (Ptr-cases found.0) [
        | inl (d, there) ↦ rw there (inl (sym finds ∙ ap is_ptr there, refl))
        | inr (e, missing) ↦
            rw missing
              (inr (sym finds ∙ ap is_ptr missing, V.kern_path_fails p 0 root w.kernel e missing))
      ]

  -- With memory, a buffer changes nothing.
  pub buffered :
      {A : Type 0} (failed : A) (m : M A) (w : World)
      → (K.kmalloc w.kernel).0 ≡ true
      → (with_buffer failed m w).0 ≡ (m (kmalloc w).1).0
  unfolding with_buffer ◌>>=◌ pure
  buffered failed m w got = let e : (kmalloc w).0 ≡ true = unfold kmalloc in got in rw e refl

module _ ⦃K : Kernel⦄ ⦃V : Vfs⦄ (b : Branches) (path wh_path : List ℕ) (flags : ℕ)
    (named : IsNamed b path wh_path) (memory : (s : K.State) → (K.kmalloc s).0 ≡ true) where
  -- A right to traverse was missing, in a world with the places of `w`.
  abbrev pub IsDenied : World → ℤ → Type 0
  IsDenied w out =
      (v : World) × SameView w v
      × (is_neg (can_traverse b path v).0 ≡ true)
      × (out ≡ (can_traverse b path v).0)

  traversed :
      (w v : World)
      → SameView w v
      → (is_neg (can_traverse b path v).0 ≡ false) ⊎ IsDenied w (can_traverse b path v).0
  traversed w v same = elim (Bool-cases (is_neg (can_traverse b path v).0)) [
    | inl denied ↦ inr (v, same, denied, refl)
    | inr allowed ↦ inl allowed
  ]

  check_visible-has :
      (w : World)
      → let shown = is_flag_set flags ignore_whiteout || not (V.has w.kernel (V.entry wh_path)) in
        ((shown ≡ false) × ((check_visible b path flags w).0 ≡ enoent))
        ⊎ ((shown ≡ true)
            × ((is_neg (check_visible b path flags w).0 ≡ false)
                ⊎ IsDenied w (check_visible b path flags w).0))
  unfolding check_visible find_whiteout ◌>>=◌ pure
  check_visible-has w = elim (Bool-cases (is_flag_set flags ignore_whiteout)) [
    | inl ignored ↦ rw ignored (inr (refl, traversed w w (λ e. refl)))
    | inr looked ↦ elim (check_exist-has wh_path w) [
      | inl (there, ok) ↦ rw (looked, named.marked, there, ok) (inl (refl, refl))
      | inr (missing, failed) ↦
          rw (looked, named.marked, missing, neg-ne-zero _ failed)
            (inr
              (refl, traversed w (check_exist wh_path 0 w).1 ((check_exist-IsKept wh_path 0).at w)))
    ]
  ]

  -- The answer is that of the specification, or a refusal by `can_traverse`.
  abbrev pub Answers : World → Option ℤ → ℤ → Type 0
  Answers w spec out = (answer out ≡ spec) ⊎ IsDenied w out

  Answers-same :
      (w v : World) (spec spec' : Option ℤ) (out : ℤ)
      → SameView w v
      → spec' ≡ spec
      → Answers v spec' out
      → Answers w spec out
  Answers-same w v spec spec' out same e (inl ok) = inl (ok ∙ e)
  Answers-same w v spec spec' out same e (inr (u, near, denied, is)) =
      inr (u, λ x. near x ∙ same x, denied, is)

  error-answer : (e : ℤ) → is_neg e ≡ true → answer e ≡ none
  error-answer e failed = rw failed refl

  -- What hides a path in one world hides it in another with the same places.
  shown_back :
      (w v : World)
      → SameView w v
      → (t : Bool)
      → (is_flag_set flags ignore_whiteout || not (V.has v.kernel (V.entry wh_path))) ≡ t
      → (is_flag_set flags ignore_whiteout || not (V.has w.kernel (V.entry wh_path))) ≡ t
  shown_back w v same t h = rw (← same (V.entry wh_path)) h

  find_read_only-Answers :
      (w : World)
      → Answers w (ro_lookup b w.kernel path wh_path flags) (find_read_only b path flags w).0.0
  unfolding find_read_only make_ro_path ◌>>=◌ pure
  find_read_only-Answers w =
      let ro = b.read_only_branch ++ path in
      let short = le→ltb path_max (length ro) (omega (arith, named.ro_fits)) in
      let whole = take-length_le (path_max - 1) ro (omega (arith, named.ro_fits)) in
      let v = (check_exist ro 0 w).1 in
      let same = (check_exist-IsKept ro 0).at w in
      let back = shown_back w v same in
      elim (check_exist-has ro w) [
        | inr (missing, failed) ↦ rw (short, whole, missing, failed) (inl (error-answer _ failed))
        | inl (there, ok) ↦ elim (check_visible-has v) [
          | inl (hidden, gone) ↦ rw (short, whole, there, ok, gone) (inl (rw (back _ hidden) refl))
          | inr (shown, inl allowed) ↦
              rw (short, whole, there, ok, allowed) (inl (rw (back _ shown) refl))
          | inr (shown, inr (u, near, denied, is)) ↦
              rw (short, whole, there, ok, ap is_neg is ∙ denied)
                (inr (u, λ x. near x ∙ same x, denied, is))
        ]
      ]

  ro_lookup-same :
      (w v : World)
      → SameView w v
      → ro_lookup b v.kernel path wh_path flags ≡ ro_lookup b w.kernel path wh_path flags
  ro_lookup-same w v same =
      rw (same (V.entry (b.read_only_branch ++ path)), same (V.entry wh_path)) refl

  find_lower-Answers :
      (copy : List ℕ → List ℕ → List ℕ → M (ℤ × List ℕ)) (real_path : List ℕ) (err : ℤ) (w : World)
      → is_flag_set flags create_copyup_flag ≡ false
      → Answers w
          (ro_lookup b w.kernel path wh_path flags)
          (find_lower b copy path real_path flags err w).0.0
  unfolding find_lower
  find_lower-Answers copy real_path err w plain =
      let v = (kmalloc w).1 in
      let u = (kmalloc v).1 in
      let near = IsKept-kmalloc.at w in
      let same = λ (e : V.Entry). IsKept-kmalloc.at v e ∙ near e in
      rw (plain, buffered _ _ w (memory _), buffered _ _ v (memory _))
        (Answers-same w u _ _ _ same (ro_lookup-same w u same) (find_read_only-Answers u))

  find_file_with-Answers :
      (copy : List ℕ → List ℕ → List ℕ → M (ℤ × List ℕ)) (real_path : List ℕ) (w : World)
      → is_flag_set flags create_copyup_flag ≡ false
      → Answers w
          (union_lookup b w.kernel path wh_path flags)
          (find_file_with b copy path real_path flags w).0.0
  unfolding find_file_with find_lower make_rw_path ◌>>=◌ pure
  find_file_with-Answers copy real_path w plain =
      let rw' = b.read_write_branch ++ path in
      let short = le→ltb path_max (length rw') (omega (arith, named.rw_fits)) in
      let whole = take-length_le (path_max - 1) rw' (omega (arith, named.rw_fits)) in
      let v = (check_exist rw' 0 w).1 in
      let same = (check_exist-IsKept rw' 0).at w in
      elim (Bool-cases (is_flag_set flags must_read_only)) [
        | inl only ↦ rw only (find_lower-Answers copy real_path enomem w plain)
        | inr any ↦ elim (check_exist-has rw' w) [
          | inl (there, ok) ↦ elim (traversed w v same) [
            | inl allowed ↦ rw (any, short, whole, there, ok, allowed) (inl refl)
            | inr (u, near, denied, is) ↦
                rw (any, short, whole, there, ok, ap is_neg is ∙ denied) (inr (u, near, denied, is))
          ]
          | inr (missing, failed) ↦ elim (Bool-cases (is_flag_set flags must_read_write)) [
            | inl write ↦
                rw (any, short, whole, missing, failed, write) (inl (error-answer _ failed))
            | inr read ↦
                rw (any, short, whole, missing, failed, read)
                  (Answers-same w v _ _ _ same (ro_lookup-same w v same)
                    (find_lower-Answers copy rw' _ v plain))
          ]
        ]
      ]

  -- Where CREATE_COPYUP is not among the flags, there is memory, and the paths fit their buffers,
  -- `find_file` answers as the union shows the path in the state that it is called in: READ_WRITE for
  -- a file of the RW branch, unless MUST_READ_ONLY is set, READ_ONLY for one of the RO branch that no
  -- whiteout hides or with IGNORE_WHITEOUT, unless MUST_READ_WRITE alone is set, and otherwise an
  -- error. Or it returns the error of `can_traverse` in a state that shows the same paths. It leaves
  -- the paths as they are.
  pub find_present-Answers :
      (real_path : List ℕ) (w : World)
      → is_flag_set flags create_copyup_flag ≡ false
      → Answers w
          (union_lookup b w.kernel path wh_path flags)
          (find_present b path real_path flags w).0.0
        × SameView w (find_present b path real_path flags w).1
  unfolding find_present
  find_present-Answers real_path w plain = (
    find_file_with-Answers (λ p ro rw'. oops (einval, rw')) real_path w plain,
    (find_present-IsKept b path real_path flags).at w,
  )
