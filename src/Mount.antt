-- ===== src/Mount.antt =====
-- fs/hepunion/main.c: how the options of a mount name the two branches (`make_path`, and
-- `get_branches` up to the opening of the branches).
pub mod Measured
pub mod Super
pub mod Accounted
pub mod Unmounted
use hepunion.Base.{
  ℕ, suc, ◌-◌, ℤ, pos, negsuc, Bool, true, false, ◌&&◌, Option, none, some, List, [],
}
use hepunion.Base.{◌∷◌, ◌==◌, ltb, if◌then◌else◌, length, take, drop, get_elem?}
use hepunion.Base.Errno.{einval, enomem}
use hepunion.CString.{strchr, strncmp_eq}
use hepunion.Kernel.{Kernel}
use hepunion.Exec.{M, pure, ◌>>=◌, kmalloc, on_option}
use hepunion.Names.{slash}

-- The fields of `struct hepunion_sb_info` that `get_branches` sets; `none` is a null pointer.
pub record BranchNames : Type 0 where
  pub read_only_branch : Option (List ℕ)
  pub ro_len : ℕ
  pub read_write_branch : Option (List ℕ)
  pub rw_len : ℕ

abbrev pub no_branches : BranchNames
no_branches = record { read_only_branch = none; ro_len = 0; read_write_branch = none; rw_len = 0 }

-- Whether the byte at a place of a string is a slash. Behind the end there is none.
abbrev pub slash_at : List ℕ → ℕ → Bool
slash_at s i = elim (get_elem? s i) [ none ↦ false | some c ↦ c == slash ]

-- The length without one trailing slash.
abbrev pub trimmed : List ℕ → ℕ → ℕ
trimmed s n = if slash_at s (n - 1) then n - 1 else n

abbrev pub rw_type : List ℕ
rw_type = b'R' ∷ b'W' ∷ []

abbrev pub ro_type : List ℕ
ro_type = b'R' ∷ b'O' ∷ []

module _ ⦃K : Kernel⦄ where
  -- The path and its length, or the error with a null pointer.
  unfoldable pub make_path : List ℕ → ℕ → M (ℤ × Option (List ℕ × ℕ))
  make_path s n =
      if slash_at s 0
      then (do
        got ← kmalloc
        pure (
            if got
            then (pos (trimmed s n), some (take (trimmed s n) s, trimmed s n))
            else (enomem, none)))
      else pure (einval, none)

  -- `make_path`, its error returned, and the rest of the function otherwise.
  unfoldable pub path_then :
      List ℕ → ℕ → BranchNames → (List ℕ × ℕ → M (ℤ × BranchNames)) → M (ℤ × BranchNames)
  unfolding make_path
  path_then s n names rest = do made ← make_path s n; on_option made.1 (pure (made.0, names)) rest

  abbrev pub set_ro : BranchNames → List ℕ × ℕ → BranchNames
  set_ro names p = record names { read_only_branch = some p.0; ro_len = p.1 }

  abbrev pub set_rw : BranchNames → List ℕ × ℕ → BranchNames
  set_rw names p = record names { read_write_branch = some p.0; rw_len = p.1 }

  -- The test that both branches are set.
  unfoldable pub both_set : BranchNames → M (ℤ × BranchNames)
  both_set names =
      on_option names.read_only_branch (pure (einval, names))
        (λ ro. on_option names.read_write_branch (pure (einval, names)) (λ rw. pure (pos 0, names)))

  -- The second branch, `part2`, with the place of its `=` where it has a type.
  unfoldable pub second_branch : List ℕ → Option ℕ → Bool → BranchNames → M (ℤ × BranchNames)
  unfolding path_then both_set
  second_branch part2 (some type) forced_ro names = path_then part2 type names (λ output.
      if strncmp_eq 2 (drop (suc type) part2) rw_type
      then on_option names.read_write_branch (both_set (set_rw names output))
          (λ rw. pure (einval, names))
      else if strncmp_eq 2 (drop (suc type) part2) ro_type
      then (if forced_ro then pure (einval, names) else both_set (set_ro names output))
      else pure (einval, names))
  second_branch part2 none forced_ro names =
      on_option names.read_write_branch
        (on_option names.read_only_branch (both_set names)
          (λ ro. path_then part2 (length part2) names (λ output. both_set (set_rw names output))))
        (λ rw. path_then part2 (length part2) names (λ output. both_set (set_ro names output)))

  -- The first branch with a type at `type`, before the `:` at `colon`.
  unfoldable pub typed_first : List ℕ → ℕ → ℕ → M (ℤ × BranchNames)
  unfolding second_branch path_then
  typed_first arg colon type =
      let part2 = drop (suc colon) arg in
      path_then arg type no_branches (λ output.
        if strncmp_eq 2 (drop (suc type) arg) rw_type
        then second_branch part2 (strchr part2 b'=') false (set_rw no_branches output)
        else if strncmp_eq 2 (drop (suc type) arg) ro_type
        then second_branch part2 (strchr part2 b'=') true (set_ro no_branches output)
        else pure (einval, no_branches))

  -- The first branch without a type.
  unfoldable pub untyped_first : List ℕ → ℕ → M (ℤ × BranchNames)
  unfolding second_branch path_then
  untyped_first arg colon =
      let part2 = drop (suc colon) arg in
      path_then arg colon no_branches
        (λ output. second_branch part2 (strchr part2 b'=') false (set_ro no_branches output))

  -- The status, and the branches; a failure may leave one of them set.
  unfoldable pub get_branch_names : List ℕ → M (ℤ × BranchNames)
  unfolding typed_first untyped_first
  get_branch_names arg = on_option (strchr arg b':') (pure (einval, no_branches)) (λ colon.
      on_option (strchr arg b'=') (untyped_first arg colon)
        (λ type. if ltb type colon then typed_first arg colon type else untyped_first arg colon))
