-- ===== src/Ops/Opendir.antt =====
-- fs/hepunion/opts.c: the memory of the context of an open directory, between `hepunion_opendir`
-- and `hepunion_closedir`.
use hepunion.Base.{
  ◌≡◌, refl, ℕ, suc, ◌+◌, ℤ, pos, Bool, true, false, Option, none, some, List, [], ◌∷◌, arith,
}
use hepunion.Base.{Bool-cases, inl, inr, is_neg, if◌then◌else◌, sym, ◌∙◌, ◌≤◌}
use hepunion.Kernel.{Kernel}
use hepunion.Exec.{
  World, M, pure, ◌>>=◌, ◌>>◌, will_use_buffers, release_buffers, with_buffer, kmalloc, kfree,
}
use hepunion.Exec.Balanced.{IsBalanced}
use hepunion.SpecialPath.{Branches}
use hepunion.Readdir.{OpendirContext, hepunion_readdir, hepunion_closedir}
use hepunion.Readdir.Memory.{held, hepunion_readdir_accounted, hepunion_closedir_frees}
use hepunion.Tree.{find_present}
use hepunion.Tree.Balanced.{find_present-IsBalanced}
use hepunion.Ops.{in_buffers, validate_inode}
use hepunion.Ops.Balanced.{validate_inode-IsBalanced}
use hepunion.Ops.Served.{path_to_open-IsBalanced, dir_on_branch-IsBalanced}
use hepunion.Ops.Open.{hepunion_opendir, opendir_context, path_to_open}

-- The allocation that a context is.
abbrev one_if : Option OpendirContext → ℕ
one_if none = 0
one_if (some ctx) = 1

abbrev IsFresh : Option OpendirContext → Type 0
IsFresh none = Unit
IsFresh (some ctx) = (ctx.files ≡ []) × (ctx.whiteouts ≡ [])

module _ ⦃K : Kernel⦄ where
  -- What such a command leaves: the context that it returns is all that it has allocated.
  record Opens (w : World) (out : (ℤ × Option OpendirContext) × World) : Type 0 where
    buffers_in_use : out.1.buffers_in_use ≡ w.buffers_in_use
    live : out.1.live ≡ one_if out.0.1 + w.live
    fresh : IsFresh out.0.1

  record IsOpening (m : M (ℤ × Option OpendirContext)) : Type 0 where
    at : (w : World) → Opens w (m w)

  IsOpening-failed : (e : ℤ) → IsOpening (pure (e, none))
  unfolding pure
  IsOpening-failed e = record {
    at = λ w. record { buffers_in_use = refl; live = omega arith; fresh = tt };
  }

  IsOpening-bind :
      {B : Type 0} (m : M B) (f : B → M (ℤ × Option OpendirContext))
      → IsBalanced m
      → ((b : B) → IsOpening (f b))
      → IsOpening (m >>= f)
  unfolding ◌>>=◌
  IsOpening-bind m f bm of = record {
    at = λ w.
        let rest = (of (m w).0).at (m w).1 in
        record {
          buffers_in_use = ground (arith, rest.buffers_in_use, bm.at w);
          live = ground (arith, rest.live, bm.at w);
          fresh = rest.fresh;
        };
  }

  IsOpening-if :
      (b : Bool) (m n : M (ℤ × Option OpendirContext))
      → IsOpening m
      → IsOpening n
      → IsOpening (if b then m else n)
  IsOpening-if true m n om on = om
  IsOpening-if false m n om on = on

  IsOpening-with_buffer :
      (e : ℤ) (m : M (ℤ × Option OpendirContext))
      → IsOpening m
      → IsOpening (with_buffer (e, none) m)
  unfolding with_buffer ◌>>=◌ pure kmalloc kfree
  IsOpening-with_buffer e m om = record {
    at = λ w.
        let v : World = record w { kernel = (K.kmalloc w.kernel).1; live = suc w.live } in
        let inner = om.at v in
        elim (Bool-cases (K.kmalloc w.kernel).0) [
          | inl got ↦ rw got (record {
            buffers_in_use = inner.buffers_in_use;
            live = ground (arith, inner.live);
            fresh = inner.fresh;
          })
          | inr no_memory ↦
              rw no_memory (record { buffers_in_use = refl; live = omega arith; fresh = tt })
        ];
  }

  IsOpening-kmalloc :
      (e : ℤ) (ctx : OpendirContext)
      → ctx.files ≡ []
      → ctx.whiteouts ≡ []
      → IsOpening (kmalloc >>= λ got. pure (if got then (pos 0, some ctx) else (e, none)))
  unfolding ◌>>=◌ pure kmalloc
  IsOpening-kmalloc e ctx f0 w0 = record {
    at = λ w. elim (Bool-cases (K.kmalloc w.kernel).0) [
      | inl got ↦ rw got (record { buffers_in_use = refl; live = omega arith; fresh = (f0, w0) })
      | inr no_memory ↦
          rw no_memory (record { buffers_in_use = refl; live = omega arith; fresh = tt })
    ];
  }

module _ ⦃K : Kernel⦄ (b : Branches) where
  -- `hepunion_opendir` between its uses of the flag.
  abbrev opendir_body : K.Inode → K.File → M (ℤ × Option OpendirContext)
  opendir_body inode file = do
    validate_inode inode
    path ← path_to_open b (K.f_dentry file)
    found ← find_present b path [] 0
    if is_neg found.0 then pure (found.0, none) else opendir_context b path

  opendir_context-IsOpening : (path : List ℕ) → IsOpening (opendir_context b path)
  unfolding opendir_context
  opendir_context-IsOpening path = IsOpening-with_buffer _ _ (
      IsOpening-with_buffer _ _ (
        IsOpening-bind _ _ (dir_on_branch-IsBalanced b path _) λ rw_found.
          IsOpening-bind _ _ (dir_on_branch-IsBalanced b path _)
            λ ro_found. IsOpening-kmalloc _ _ refl refl))

  body-IsOpening : (inode : K.Inode) (file : K.File) → IsOpening (opendir_body inode file)
  body-IsOpening inode file = IsOpening-bind _ _ (validate_inode-IsBalanced inode) λ _.
      IsOpening-bind _ _ (path_to_open-IsBalanced b (K.f_dentry file)) λ path.
        IsOpening-bind _ _ (find_present-IsBalanced b path [] 0)
          λ found. IsOpening-if _ _ _ (IsOpening-failed found.0) (opendir_context-IsOpening path)

  hepunion_opendir-Opens :
      (inode : K.Inode) (file : K.File) (w : World)
      → w.buffers_in_use ≡ false
      → Opens w (hepunion_opendir b inode file w)
  unfolding hepunion_opendir in_buffers ◌>>=◌ pure will_use_buffers release_buffers
  hepunion_opendir-Opens inode file w free =
      let o = (body-IsOpening inode file).at (will_use_buffers w).1 in
      record { buffers_in_use = sym free; live = o.live; fresh = o.fresh }

  -- Calls of `hepunion_readdir` at some positions, one behind the other.
  unfoldable read_at : List ℕ → OpendirContext → M OpendirContext
  read_at [] ctx = pure ctx
  read_at (f_pos ∷ positions) ctx = do
    answer ← hepunion_readdir b ctx f_pos
    read_at positions answer.1

  read_at-accounted :
      (positions : List ℕ) (ctx : OpendirContext) (w : World)
      → suc (held ctx) ≤ w.live
      → (read_at positions ctx w).1.live + held ctx ≡ w.live + held (read_at positions ctx w).0
  unfolding read_at ◌>>=◌ pure
  read_at-accounted [] ctx w le = refl
  read_at-accounted (f_pos ∷ positions) ctx w le =
      let step = hepunion_readdir b ctx f_pos w in
      let first = hepunion_readdir_accounted b ctx f_pos w (omega arith) in
      omega (arith, first, read_at-accounted positions step.0.1 step.1 (omega (arith, first)))

  -- The listing of a directory from its opening, with what that has left, to its closing.
  unfoldable pub list_directory : K.Inode → List ℕ → (ℤ × Option OpendirContext) → M (Unit {0})
  unfolding read_at
  list_directory inode positions (err, none) = pure tt
  list_directory inode positions (err, some ctx) = do
    last ← read_at positions ctx
    hepunion_closedir inode last
    pure tt

  listed :
      (inode : K.Inode) (positions : List ℕ) (out : ℤ × Option OpendirContext) (w : World) (n : ℕ)
      → w.live ≡ one_if out.1 + n
      → IsFresh out.1
      → (list_directory inode positions out w).1.live ≡ n
  unfolding list_directory ◌>>=◌ pure
  listed inode positions (err, none) w n live fresh = omega (arith, live)
  listed inode positions (err, some ctx) w n live fresh =
      let empty : held ctx ≡ 0 = rw (fresh.0, fresh.1) refl in
      let read = read_at positions ctx w in
      let accounted = read_at-accounted positions ctx w (omega (arith, live, empty)) in
      omega (
        arith,
        live,
        empty,
        accounted,
        hepunion_closedir_frees inode read.0 read.1 (omega (arith, live, empty, accounted)),
      )

  -- Called with the shared buffers not in use, `hepunion_opendir` ends with them not in use, and if
  -- calls of `hepunion_readdir` at any positions follow, failed or not, and `hepunion_closedir` of
  -- the context, there are as many live allocations as before the opening. Where `hepunion_opendir`
  -- returns no context, there are as many at once.
  pub opendir_closedir :
      (inode : K.Inode) (file : K.File) (positions : List ℕ) (w : World)
      → w.buffers_in_use ≡ false
      → let out = hepunion_opendir b inode file w in
        (out.1.buffers_in_use ≡ false)
        × ((list_directory inode positions out.0 out.1).1.live ≡ w.live)
  opendir_closedir inode file positions w free =
      let o = hepunion_opendir-Opens inode file w free in
      (
        o.buffers_in_use ∙ free,
        listed inode positions (hepunion_opendir b inode file w).0
            (hepunion_opendir b inode file w).1 w.live o.live o.fresh,
      )
