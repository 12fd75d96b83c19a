-- ===== src/Readdir/Memory.antt =====
-- fs/hepunion/opts.c: the allocations of a listing, on every path, and of `hepunion_closedir`.
use hepunion.Base.{ℕ, ◌+◌, ◌-◌, ◌≤◌, ◌≡◌, refl, ℤ, pos, is_neg, Bool, true, false}
use hepunion.Base.{List, [], ◌∷◌, arith, if◌then◌else◌, length, Bool-cases, inl, inr, Ptr, ptr}
use hepunion.Base.{err_ptr, ◌==◌}
use hepunion.Kernel.{Kernel, Dirent, Creds}
use hepunion.Exec.{
  World, M, pure, ◌>>=◌, ◌>>◌, ask, oops, call, kmalloc, kfree, with_buffer, on_ptr,
}
use hepunion.SpecialPath.{Branches}
use hepunion.Readdir.{OpendirContext, read_rw_branch, read_ro_branch, fill, read_branch, free_all}
use hepunion.Readdir.{free_whiteouts, free_lists, read_union, hepunion_readdir, hepunion_closedir}
use hepunion.Readdir.{is_empty}
use hepunion.Ops.{validate_inode}

-- The entries that the lists hold.
abbrev pub held : OpendirContext → ℕ
held ctx = length ctx.files + length ctx.whiteouts

module _ ⦃K : Kernel⦄ where
  -- What `m` allocates beyond what it frees is in the lists of the context that it returns.
  abbrev IsAccounted : OpendirContext → M (ℤ × OpendirContext) → Type 0
  IsAccounted ctx m = (w : World) → (m w).1.live + held ctx ≡ w.live + held (m w).0.1

  rw-IsAccounted :
      (b : Branches) (ctx : OpendirContext) (e : Dirent) → IsAccounted ctx (read_rw_branch b ctx e)
  unfolding read_rw_branch ◌>>=◌ with_buffer
  rw-IsAccounted b ctx e w = ground arith

  ro-IsAccounted :
      (b : Branches) (ctx : OpendirContext) (e : Dirent) → IsAccounted ctx (read_ro_branch b ctx e)
  unfolding read_ro_branch ◌>>=◌ kmalloc kfree
  ro-IsAccounted b ctx e w = ground arith

  fill-IsAccounted :
      (callback : OpendirContext → Dirent → M (ℤ × OpendirContext))
      → ((c : OpendirContext) (e : Dirent) → IsAccounted c (callback c e))
      → (ctx : OpendirContext) (es : List Dirent) → IsAccounted ctx (fill callback ctx es)
  unfolding fill ◌>>=◌ pure
  fill-IsAccounted callback h ctx [] w = refl
  fill-IsAccounted callback h ctx (e ∷ es) w =
      let step = callback ctx e w in
      ground (arith, h ctx e w, fill-IsAccounted callback h step.0.1 es step.1)

  call-IsAccounted :
      {A : Type 0} (ctx : OpendirContext) (f : Creds → K.State → A × K.State)
      (k : A → M (ℤ × OpendirContext))
      → ((a : A) → IsAccounted ctx (k a))
      → IsAccounted ctx (call f >>= k)
  unfolding ◌>>=◌ call
  call-IsAccounted ctx f k h w = h (call f w).0 (call f w).1

  on_ptr-IsAccounted :
      {A : Type 0} (ctx : OpendirContext) (p : Ptr A) (f : A → M (ℤ × OpendirContext))
      (g : ℤ → M (ℤ × OpendirContext))
      → ((a : A) → IsAccounted ctx (f a))
      → ((e : ℤ) → IsAccounted ctx (g e))
      → IsAccounted ctx (on_ptr p f g)
  on_ptr-IsAccounted ctx (ptr a) f g h k = h a
  on_ptr-IsAccounted ctx (err_ptr e) f g h k = k e

  pure-IsAccounted : (ctx : OpendirContext) (e : ℤ) → IsAccounted ctx (pure (e, ctx))
  unfolding pure
  pure-IsAccounted ctx e w = refl

  if_IsAccounted :
      (ctx : OpendirContext) (t : Bool) (m n : M (ℤ × OpendirContext))
      → IsAccounted ctx m
      → IsAccounted ctx n
      → IsAccounted ctx (if t then m else n)
  if_IsAccounted ctx true m n h k = h
  if_IsAccounted ctx false m n h k = k

  then-IsAccounted :
      {A : Type 0} (ctx : OpendirContext) (m : M (ℤ × OpendirContext))
      (f : Creds → K.State → A × K.State) (g : ℤ → K.State → ℤ)
      → IsAccounted ctx m
      → IsAccounted ctx (m >>= λ a. ask (g a.0) >>= λ err. call f >> pure (err, a.1))
  unfolding ◌>>=◌ call ask
  then-IsAccounted ctx m f g h w = h w

  read_branch-IsAccounted :
      (callback : OpendirContext → Dirent → M (ℤ × OpendirContext))
      → ((c : OpendirContext) (e : Dirent) → IsAccounted c (callback c e))
      → (path : List ℕ) (ctx : OpendirContext) → IsAccounted ctx (read_branch callback path ctx)
  unfolding read_branch
  read_branch-IsAccounted callback h path ctx = call-IsAccounted ctx _ _ λ opened.
      on_ptr-IsAccounted ctx opened _ _
        (λ file. call-IsAccounted ctx _ _ λ entries.
          then-IsAccounted ctx _ _ (K.vfs_readdir_result file)
            (fill-IsAccounted callback h ctx entries))
        (λ err. pure-IsAccounted ctx err)

  free_all_live {ℓ} :
      {A : Type ℓ} (xs : List A) (w : World) → (free_all xs w).1.live ≡ w.live - length xs
  unfolding free_all ◌>>=◌ kfree
  free_all_live [] w = omega arith
  free_all_live (x ∷ xs) w = omega (arith, free_all_live xs (kfree w).1)

  -- A context whose entries are all counted among the allocations.
  free_whiteouts_accounted :
      (ctx : OpendirContext) (w : World)
      → held ctx ≤ w.live
      → (free_whiteouts ctx w).1.live + held ctx ≡ w.live + held (free_whiteouts ctx w).0
  unfolding free_whiteouts ◌>>=◌ pure
  free_whiteouts_accounted ctx w le = omega (arith, free_all_live ctx.whiteouts w)

  free_lists_accounted :
      (ctx : OpendirContext) (w : World)
      → held ctx ≤ w.live
      → ((free_lists ctx w).1.live + held ctx ≡ w.live) × (held (free_lists ctx w).0 ≡ 0)
  unfolding free_lists ◌>>=◌ pure
  free_lists_accounted ctx w le =
      let middle = (free_all ctx.whiteouts w).1 in
      (omega (arith, free_all_live ctx.whiteouts w, free_all_live ctx.files middle), refl)

  -- Where the entries of the lists and the context are among the live allocations,
  -- `hepunion_closedir` takes exactly their number off the live allocations.
  pub hepunion_closedir_frees :
      (inode : K.Inode) (ctx : OpendirContext) (w : World)
      → held ctx + 1 ≤ w.live
      → (hepunion_closedir inode ctx w).1.live + held ctx + 1 ≡ w.live
  unfolding hepunion_closedir ◌>>=◌ pure kfree validate_inode ask oops
  hepunion_closedir_frees inode ctx w le = elim (Bool-cases (K.inode_magic inode w.kernel)) [
    | inl ours ↦ rw ours (omega (arith, free_lists_accounted ctx w (omega arith)))
    | inr other ↦
        let v : World = record w { bug = true } in
        rw other (omega (arith, free_lists_accounted ctx v (omega arith)))
  ]

module _ ⦃K : Kernel⦄ (b : Branches) where
  -- The two reads of `read_union`.
  abbrev upper_stage : OpendirContext → M (ℤ × OpendirContext)
  upper_stage ctx =
      if ctx.rw_len == 0 then pure (pos 0, ctx) else read_branch (read_rw_branch b) ctx.rw_path ctx

  abbrev lower_stage : ℤ × OpendirContext → M (ℤ × OpendirContext)
  lower_stage upper =
      if upper.1.ro_len == 0
      then pure upper
      else read_branch (read_ro_branch b) upper.1.ro_path upper.1

  upper-IsAccounted : (ctx : OpendirContext) → IsAccounted ctx (upper_stage ctx)
  upper-IsAccounted ctx =
      if_IsAccounted ctx (ctx.rw_len == 0) _ _ (pure-IsAccounted ctx (pos 0))
        (read_branch-IsAccounted (read_rw_branch b) (rw-IsAccounted b) ctx.rw_path ctx)

  lower-IsAccounted : (upper : ℤ × OpendirContext) → IsAccounted upper.1 (lower_stage upper)
  lower-IsAccounted upper =
      if_IsAccounted upper.1 (upper.1.ro_len == 0) _ _ (pure-IsAccounted upper.1 upper.0)
        (read_branch-IsAccounted (read_ro_branch b) (ro-IsAccounted b) upper.1.ro_path upper.1)

  read_union_accounted :
      (ctx : OpendirContext) (w : World)
      → held ctx ≤ w.live
      → (read_union b ctx w).1.live + held ctx ≡ w.live + held (read_union b ctx w).0.1
  unfolding read_union ◌>>=◌ pure
  read_union_accounted ctx w le =
      let upper : (ℤ × OpendirContext) × World = upper_stage ctx w in
      let lower : (ℤ × OpendirContext) × World = lower_stage upper.0 upper.1 in
      let u = upper-IsAccounted ctx w in
      let l = lower-IsAccounted upper.0 upper.1 in
      let f = free_whiteouts_accounted lower.0.1 lower.1 (omega (arith, u, l)) in
      elim (Bool-cases (is_neg upper.0.0)) [
        | inl e ↦ rw e u
        | inr e ↦ elim (Bool-cases (is_neg lower.0.0)) [
          | inl e' ↦ rw (e, e') (omega (arith, u, l))
          | inr e' ↦ rw (e, e') (omega (arith, u, l, f))
        ]
      ]

  -- Where the entries of the context are among the live allocations, a call of `hepunion_readdir`,
  -- failed or not, changes the number of live allocations by exactly the change in the number of
  -- entries that the lists of its context hold.
  pub hepunion_readdir_accounted :
      (ctx : OpendirContext) (f_pos : ℕ) (w : World)
      → held ctx ≤ w.live
      → let (answer, w') = hepunion_readdir b ctx f_pos w in
        w'.live + held ctx ≡ w.live + held answer.1
  unfolding hepunion_readdir ◌>>=◌ pure
  hepunion_readdir_accounted ctx f_pos w le = elim (Bool-cases (is_empty ctx.files)) [
    | inl e ↦
        let read = read_union b ctx w in
        let r = read_union_accounted ctx w le in
        let f = free_lists_accounted read.0.1 read.1 (omega (arith, r)) in
        elim (Bool-cases (is_neg read.0.0)) [
          | inl e' ↦ rw (e, e') (omega (arith, r, f.0, f.1))
          | inr e' ↦ rw (e, e') r
        ]
    | inr e ↦ rw e refl
  ]
