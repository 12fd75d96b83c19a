-- ===== src/Mount/Measured.antt =====
-- fs/hepunion/main.c, `get_branches`: the branches and their lengths after accepted options.
use hepunion.Base.{
  ℕ, suc, ◌-◌, ◌≤◌, ◌≡◌, refl, sym, ℤ, pos, negsuc, Bool, true, false, Option, none, some,
}
use hepunion.Base.{
  List, [], ◌∷◌, arith, if◌then◌else◌, length, take, drop, ◌⊎◌, length-take, Bool-cases,
  Option-cases, inl, inr, ltb, ◌==◌,
}
use hepunion.Base.Errno.{einval}
use hepunion.CString.{strchr, strncmp_eq}
use hepunion.Kernel.{Kernel}
use hepunion.Exec.{World, M, pure, ◌>>=◌, kmalloc, on_option}
use hepunion.SpecialPath.{IsMeasured}
use hepunion.Mount.{
  BranchNames, no_branches, slash_at, trimmed, make_path, path_then, both_set, second_branch,
  typed_first, untyped_first, get_branch_names,
}

strchr_in : (s : List ℕ) (c i : ℕ) → strchr s c ≡ some i → i ≤ length s
unfolding strchr
strchr_in [] c i h = cc
strchr_in (x ∷ s) c i h = elim (Bool-cases (x == c)) [
  | inl here ↦ ground arith
  | inr there ↦ elim (Option-cases (strchr s c)) [
    | inl nowhere ↦ ground arith
    | inr (j, found) ↦ ground (arith, strchr_in s c j found)
  ]
]

-- Where a branch is set, its length is that of its path.
record IsSized (n : BranchNames) : Type 0 where
  ro : (p : List ℕ) → n.read_only_branch ≡ some p → n.ro_len ≡ length p
  rw : (p : List ℕ) → n.read_write_branch ≡ some p → n.rw_len ≡ length p

-- Both branches are set, with their lengths.
abbrev pub IsMounted : BranchNames → Type 0
IsMounted n =
    (ro : List ℕ) × (rw : List ℕ) × (n.read_only_branch ≡ some ro)
    × (n.read_write_branch ≡ some rw)
    × IsMeasured (record {
      read_write_branch = rw;
      rw_len = n.rw_len;
      read_only_branch = ro;
      ro_len = n.ro_len;
    })

module _ ⦃K : Kernel⦄ where
  -- Success mounts both branches.
  record IsSound (m : M (ℤ × BranchNames)) : Type 0 where
    at : (w : World) → (m w).0.0 ≡ pos 0 → IsMounted (m w).0.1

  fails-IsSound : (k : ℕ) (n : BranchNames) → IsSound (pure (negsuc k, n))
  unfolding pure
  fails-IsSound k n = record { at = λ w h. absurd cc }

  IsSound-if :
      (t : Bool) (m n : M (ℤ × BranchNames)) → IsSound m → IsSound n → IsSound (if t then m else n)
  IsSound-if true m n h k = h
  IsSound-if false m n h k = k

  -- A branch that must not be set yet, and a test which of two ways to go.
  on_null-IsSound :
      (o : Option (List ℕ)) (m : M (ℤ × BranchNames)) (n : BranchNames)
      → IsSound m
      → IsSound (on_option o m (λ a. pure (einval, n)))
  on_null-IsSound none m n h = h
  on_null-IsSound (some a) m n h = fails-IsSound 21 n

  on_set-IsSound :
      (o : Option (List ℕ)) (m k : M (ℤ × BranchNames))
      → IsSound m
      → IsSound k
      → IsSound (on_option o m (λ a. k))
  on_set-IsSound none m k h g = h
  on_set-IsSound (some a) m k h g = g

  both_set-IsSound : (n : BranchNames) → IsSized n → IsSound (both_set n)
  unfolding both_set pure
  both_set-IsSound n sized = record {
    at = λ w. elim (Option-cases n.read_only_branch) [
      | inl no_ro ↦ rw no_ro (λ h. absurd cc)
      | inr (ro, is_ro) ↦ elim (Option-cases n.read_write_branch) [
        | inl no_rw ↦ rw (is_ro, no_rw) (λ h. absurd cc)
        | inr (rw', is_rw) ↦
            rw (is_ro, is_rw)
              (λ h.
                (ro, rw', refl, refl, record { rw = sized.rw rw' is_rw; ro = sized.ro ro is_ro }))
      ]
    ];
  }

  trimmed_in : (s : List ℕ) (n : ℕ) → n ≤ length s → trimmed s n ≤ length s
  trimmed_in s n le = elim (Bool-cases (slash_at s (n - 1))) [
    | inl slashed ↦ rw slashed (omega arith)
    | inr plain ↦ rw plain le
  ]

  make_path-cases :
      (s : List ℕ) (n : ℕ) (w : World)
      → n ≤ length s
      → ((k : ℕ) × ((make_path s n w).0 ≡ (negsuc k, none)))
        ⊎ ((p : List ℕ) × (l : ℕ) × ((make_path s n w).0 ≡ (pos l, some (p, l))) × (l ≡ length p))
  unfolding make_path pure ◌>>=◌
  make_path-cases s n w le = elim (Bool-cases (slash_at s 0)) [
    | inr relative ↦ rw relative (inl (21, refl))
    | inl absolute ↦ elim (Bool-cases (kmalloc w).0) [
      | inr none_left ↦ rw (absolute, none_left) (inl (11, refl))
      | inl got ↦
          rw (absolute, got)
            (inr (
              take (trimmed s n) s,
              trimmed s n,
              refl,
              sym (length-take (trimmed s n) s (trimmed_in s n le)),
            ))
    ]
  ]

  path_then-IsSound :
      (s : List ℕ) (n : ℕ) (names : BranchNames) (rest : List ℕ × ℕ → M (ℤ × BranchNames))
      → n ≤ length s
      → ((p : List ℕ) (l : ℕ) → l ≡ length p → IsSound (rest (p, l)))
      → IsSound (path_then s n names rest)
  unfolding path_then pure ◌>>=◌
  path_then-IsSound s n names rest le good = record {
    at = λ w. elim (make_path-cases s n w le) [
      | inl (k, failed) ↦ rw failed (λ h. absurd cc)
      | inr (p, l, made, measured) ↦ rw made ((good p l measured).at (make_path s n w).1)
    ];
  }

  IsSized-set_rw :
      (n : BranchNames) (p : List ℕ) (l : ℕ)
      → IsSized n
      → l ≡ length p
      → IsSized (record n { read_write_branch = some p; rw_len = l })
  IsSized-set_rw n p l sized e = record { ro = λ q h. sized.ro q h; rw = λ q h. cc }

  IsSized-set_ro :
      (n : BranchNames) (p : List ℕ) (l : ℕ)
      → IsSized n
      → l ≡ length p
      → IsSized (record n { read_only_branch = some p; ro_len = l })
  IsSized-set_ro n p l sized e = record { ro = λ q h. cc; rw = λ q h. sized.rw q h }

  no_branches-IsSized : IsSized no_branches
  no_branches-IsSized = record { ro = λ q h. absurd cc; rw = λ q h. absurd cc }

  second_branch-IsSound :
      (part2 : List ℕ) (type : Option ℕ) (forced_ro : Bool) (n : BranchNames)
      → ((t : ℕ) → type ≡ some t → t ≤ length part2)
      → IsSized n
      → IsSound (second_branch part2 type forced_ro n)
  unfolding second_branch
  second_branch-IsSound part2 (some t) forced_ro n in_ sized =
      path_then-IsSound part2 t n _ (in_ t refl) λ p l e.
        IsSound-if (strncmp_eq 2 (drop (suc t) part2) (b'R' ∷ b'W' ∷ [])) _ _
          (on_null-IsSound n.read_write_branch _ n
            (both_set-IsSound _ (IsSized-set_rw n p l sized e)))
          (IsSound-if (strncmp_eq 2 (drop (suc t) part2) (b'R' ∷ b'O' ∷ [])) _ _
            (IsSound-if forced_ro _ _ (fails-IsSound 21 n)
              (both_set-IsSound _ (IsSized-set_ro n p l sized e)))
            (fails-IsSound 21 n))
  second_branch-IsSound part2 none forced_ro n in_ sized =
      on_set-IsSound n.read_write_branch _ _
        (on_set-IsSound n.read_only_branch _ _ (both_set-IsSound n sized) (
          path_then-IsSound part2 (length part2) n _ (omega arith)
            λ p l e. both_set-IsSound _ (IsSized-set_rw n p l sized e)))
        (path_then-IsSound part2 (length part2) n _ (omega arith)
          λ p l e. both_set-IsSound _ (IsSized-set_ro n p l sized e))

  typed_first-IsSound :
      (arg : List ℕ) (colon type : ℕ) → type ≤ length arg → IsSound (typed_first arg colon type)
  unfolding typed_first
  typed_first-IsSound arg colon type le =
      let part2 = drop (suc colon) arg in
      let in_ : (t : ℕ) → strchr part2 b'=' ≡ some t → t ≤ length part2 = strchr_in part2 b'=' in
      path_then-IsSound arg type no_branches _ le λ p l e.
        IsSound-if (strncmp_eq 2 (drop (suc type) arg) (b'R' ∷ b'W' ∷ [])) _ _
          (second_branch-IsSound part2 _ false _ in_
            (IsSized-set_rw no_branches p l no_branches-IsSized e))
          (IsSound-if (strncmp_eq 2 (drop (suc type) arg) (b'R' ∷ b'O' ∷ [])) _ _
            (second_branch-IsSound part2 _ true _ in_
              (IsSized-set_ro no_branches p l no_branches-IsSized e))
            (fails-IsSound 21 no_branches))

  untyped_first-IsSound :
      (arg : List ℕ) (colon : ℕ) → colon ≤ length arg → IsSound (untyped_first arg colon)
  unfolding untyped_first
  untyped_first-IsSound arg colon le =
      let part2 = drop (suc colon) arg in
      let in_ : (t : ℕ) → strchr part2 b'=' ≡ some t → t ≤ length part2 = strchr_in part2 b'=' in
      path_then-IsSound arg colon no_branches _ le λ p l e.
        second_branch-IsSound part2 _ false _ in_
          (IsSized-set_ro no_branches p l no_branches-IsSized e)

  -- Where the options of a mount are accepted, both branches are set, and each length is that of
  -- its branch.
  pub get_branch_names-IsMounted :
      (arg : List ℕ) (w : World)
      → (get_branch_names arg w).0.0 ≡ pos 0
      → IsMounted (get_branch_names arg w).0.1
  unfolding get_branch_names
  get_branch_names-IsMounted arg w = elim (Option-cases (strchr arg b':')) [
    | inl no_colon ↦ rw no_colon ((fails-IsSound 21 no_branches).at w)
    | inr (colon, found) ↦
        let untyped = untyped_first-IsSound arg colon (strchr_in arg b':' colon found) in
        elim (Option-cases (strchr arg b'=')) [
          | inl no_type ↦ rw (found, no_type) (untyped.at w)
          | inr (type, found') ↦
              let typed = typed_first-IsSound arg colon type (strchr_in arg b'=' type found') in
              rw (found, found') ((IsSound-if (ltb type colon) _ _ typed untyped).at w)
        ]
  ]
