-- ===== src/Mount/Accounted.antt =====
-- fs/hepunion/main.c: the allocations of a mount, and what unmounting gives back.
use hepunion.Base.{ℕ, suc, ◌+◌, ◌≡◌, refl, ℤ, negsuc, is_neg, Bool, true, false, Option, none, some}
use hepunion.Base.{
  List, arith, if◌then◌else◌, length, take, drop, ◌⊎◌, inl, inr, ltb, Bool-cases, Option-cases,
}
use hepunion.CString.{strchr, strncmp_eq}
use hepunion.Kernel.{Kernel}
use hepunion.Exec.{World, M, pure, ◌>>=◌, kmalloc, on_option}
use hepunion.Mount.{
  BranchNames, no_branches, rw_type, ro_type, slash_at, trimmed, set_rw, set_ro, make_path,
  path_then, both_set, second_branch, typed_first, untyped_first, get_branch_names,
}

-- The branches that are set.
abbrev one : Option (List ℕ) → ℕ
one none = 0
one (some p) = 1

abbrev pub held : BranchNames → ℕ
held n = one n.read_only_branch + one n.read_write_branch

module _ ⦃K : Kernel⦄ where
  -- With `c` paths in hand at its start, a command ends with the paths that it sets, or, after an
  -- error, perhaps with one more.
  pub record IsOwned (c : ℕ) (m : M (ℤ × BranchNames)) : Type 0 where
    pub at :
        (w : World)
        → ((m w).1.live + c ≡ w.live + held (m w).0.1)
          ⊎ ((is_neg (m w).0.0 ≡ true) × ((m w).1.live + c ≡ suc (w.live + held (m w).0.1)))

  fails-IsOwned :
      (c k : ℕ) (n : BranchNames)
      → (c ≡ held n) ⊎ (c ≡ suc (held n))
      → IsOwned c (pure (negsuc k, n))
  unfolding pure
  fails-IsOwned c k n (inl same) = record { at = λ w. inl (omega arith) }
  fails-IsOwned c k n (inr more) = record { at = λ w. inr (refl, omega arith) }

  IsOwned-if :
      (c : ℕ) (t : Bool) (m n : M (ℤ × BranchNames))
      → IsOwned c m
      → IsOwned c n
      → IsOwned c (if t then m else n)
  IsOwned-if c true m n h k = h
  IsOwned-if c false m n h k = k

  on_option-IsOwned :
      (c : ℕ) (o : Option (List ℕ)) (m : M (ℤ × BranchNames)) (k : List ℕ → M (ℤ × BranchNames))
      → (o ≡ none → IsOwned c m)
      → ((a : List ℕ) → o ≡ some a → IsOwned c (k a))
      → IsOwned c (on_option o m k)
  on_option-IsOwned c none m k h g = h refl
  on_option-IsOwned c (some a) m k h g = g a refl

  both_set-IsOwned :
      (c : ℕ) (n : BranchNames)
      → (c ≡ held n) ⊎ ((c ≡ suc (held n)) × (n.read_write_branch ≡ none))
      → IsOwned c (both_set n)
  unfolding both_set pure
  both_set-IsOwned c n owes = record {
    at = λ w. elim (Option-cases n.read_only_branch) [
      | inl no_ro ↦
          let e : one n.read_only_branch ≡ 0 = rw no_ro refl in
          elim owes [
            | inl same ↦ rw no_ro (inl (omega arith))
            | inr (more, no_rw) ↦ rw no_ro (inr (refl, omega arith))
          ]
      | inr (ro, is_ro) ↦
          let e : one n.read_only_branch ≡ 1 = rw is_ro refl in
          elim (Option-cases n.read_write_branch) [
            | inl no_rw ↦
                let f : one n.read_write_branch ≡ 0 = rw no_rw refl in
                elim owes [
                  | inl same ↦ rw (is_ro, no_rw) (inl (omega arith))
                  | inr (more, unset) ↦ rw (is_ro, no_rw) (inr (refl, omega arith))
                ]
            | inr (rw', is_rw) ↦
                let f : one n.read_write_branch ≡ 1 = rw is_rw refl in
                elim owes [
                  | inl same ↦ rw (is_ro, is_rw) (inl (omega arith))
                  | inr (more, no_rw) ↦ absurd cc
                ]
          ]
    ];
  }

  path_then-IsOwned :
      (c : ℕ) (s : List ℕ) (n : ℕ) (names : BranchNames) (rest : List ℕ × ℕ → M (ℤ × BranchNames))
      → c ≡ held names
      → ((p : List ℕ × ℕ) → IsOwned (suc c) (rest p))
      → IsOwned c (path_then s n names rest)
  unfolding path_then make_path pure ◌>>=◌ kmalloc
  path_then-IsOwned c s n names rest same good = record {
    at = λ w. elim (Bool-cases (slash_at s 0)) [
      | inr relative ↦ rw relative (inl (omega arith))
      | inl absolute ↦ elim (Bool-cases (K.kmalloc w.kernel).0) [
        | inr none_left ↦ rw (absolute, none_left) (inl (omega arith))
        | inl got ↦
            let k = (K.kmalloc w.kernel).1 in
            rw (absolute, got)
              (elim ((good (take (trimmed s n) s, trimmed s n)).at
                (record w { kernel = k; live = suc w.live })) [
                  | inl even ↦ inl (omega arith)
                  | inr (failed, odd) ↦ inr (failed, omega arith)
                ])
      ]
    ];
  }

  set_rw-IsOwned :
      (n : BranchNames) (p : List ℕ × ℕ)
      → n.read_write_branch ≡ none
      → IsOwned (suc (held n)) (both_set (set_rw n p))
  set_rw-IsOwned n p no_rw =
      let f : one n.read_write_branch ≡ 0 = rw no_rw refl in
      both_set-IsOwned (suc (held n)) (set_rw n p) (inl (omega arith))

  set_ro-IsOwned :
      (n : BranchNames) (p : List ℕ × ℕ)
      → (n.read_only_branch ≡ none) ⊎ (n.read_write_branch ≡ none)
      → IsOwned (suc (held n)) (both_set (set_ro n p))
  set_ro-IsOwned n p (inl no_ro) =
      let e : one n.read_only_branch ≡ 0 = rw no_ro refl in
      both_set-IsOwned (suc (held n)) (set_ro n p) (inl (omega arith))
  set_ro-IsOwned n p (inr no_rw) = elim (Option-cases n.read_only_branch) [
    | inl no_ro ↦
        let e : one n.read_only_branch ≡ 0 = rw no_ro refl in
        both_set-IsOwned (suc (held n)) (set_ro n p) (inl (omega arith))
    | inr (ro, is_ro) ↦
        let e : one n.read_only_branch ≡ 1 = rw is_ro refl in
        both_set-IsOwned (suc (held n)) (set_ro n p) (inr (omega arith, no_rw))
  ]

  second_branch-IsOwned :
      (part2 : List ℕ) (type : Option ℕ) (forced_ro : Bool) (n : BranchNames)
      → (n.read_only_branch ≡ none) ⊎ (n.read_write_branch ≡ none)
      → IsOwned (held n) (second_branch part2 type forced_ro n)
  unfolding second_branch
  second_branch-IsOwned part2 (some t) forced_ro n room =
      path_then-IsOwned (held n) part2 t n _ refl λ p.
        IsOwned-if _ (strncmp_eq 2 (drop (suc t) part2) rw_type) _ _
          (on_option-IsOwned _ n.read_write_branch _ _ (set_rw-IsOwned n p)
            (λ rw' is_rw. fails-IsOwned _ 21 n (inr refl)))
          (IsOwned-if _ (strncmp_eq 2 (drop (suc t) part2) ro_type) _ _
            (IsOwned-if _ forced_ro _ _ (fails-IsOwned _ 21 n (inr refl)) (set_ro-IsOwned n p room))
            (fails-IsOwned _ 21 n (inr refl)))
  second_branch-IsOwned part2 none forced_ro n room =
      on_option-IsOwned _ n.read_write_branch _ _
        (λ no_rw.
          on_option-IsOwned _ n.read_only_branch _ _ (λ no_ro. both_set-IsOwned _ n (inl refl))
            (λ ro is_ro.
              path_then-IsOwned _ part2 (length part2) n _ refl λ p. set_rw-IsOwned n p no_rw))
        (λ rw' is_rw.
          path_then-IsOwned _ part2 (length part2) n _ refl λ p. set_ro-IsOwned n p room)

  typed_first-IsOwned : (arg : List ℕ) (colon type : ℕ) → IsOwned 0 (typed_first arg colon type)
  unfolding typed_first
  typed_first-IsOwned arg colon type =
      let part2 = drop (suc colon) arg in
      path_then-IsOwned 0 arg type no_branches _ refl λ p.
        IsOwned-if _ (strncmp_eq 2 (drop (suc type) arg) rw_type) _ _
          (second_branch-IsOwned part2 (strchr part2 b'=') false (set_rw no_branches p) (inl refl))
          (IsOwned-if _ (strncmp_eq 2 (drop (suc type) arg) ro_type) _ _
            (second_branch-IsOwned part2 (strchr part2 b'=') true (set_ro no_branches p) (inr refl))
            (fails-IsOwned 1 21 no_branches (inr refl)))

  untyped_first-IsOwned : (arg : List ℕ) (colon : ℕ) → IsOwned 0 (untyped_first arg colon)
  unfolding untyped_first
  untyped_first-IsOwned arg colon =
      let part2 = drop (suc colon) arg in
      path_then-IsOwned 0 arg colon no_branches _ refl
        λ p. second_branch-IsOwned part2 (strchr part2 b'=') false (set_ro no_branches p) (inr refl)

  -- The paths that the parse of the options allocates.
  pub get_branch_names-IsOwned : (arg : List ℕ) → IsOwned 0 (get_branch_names arg)
  unfolding get_branch_names
  get_branch_names-IsOwned arg = elim (Option-cases (strchr arg b':')) [
    | inl unsplit ↦ rw unsplit (fails-IsOwned 0 21 no_branches (inl refl))
    | inr (colon, split) ↦ elim (Option-cases (strchr arg b'=')) [
      | inl untyped ↦ rw (split, untyped) (untyped_first-IsOwned arg colon)
      | inr (type, typed) ↦
          rw (split, typed)
            (IsOwned-if _ (ltb type colon) _ _ (typed_first-IsOwned arg colon type)
              (untyped_first-IsOwned arg colon))
    ]
  ]
