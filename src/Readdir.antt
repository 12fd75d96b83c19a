-- ===== src/Readdir.antt =====
-- fs/hepunion/opts.c: the listing of a directory of the union (`read_rw_branch`,
-- `read_ro_branch`, `hepunion_readdir`, `hepunion_closedir`).
pub mod Union
pub mod Memory
pub mod Order
pub mod Names
use hepunion.Base.{ℕ, zero, suc, ◌+◌, ◌-◌, ℤ, pos, is_neg, is_zero, Bool, true, false, not, ◌||◌}
use hepunion.Base.{Option, none, some, List, [], ◌∷◌, ◌++◌, ltb, ◌==◌, if◌then◌else◌, same}
use hepunion.Base.{length, take, drop, get_elem?, path_max, Ptr}
use hepunion.Base.Errno.{enomem, enametoolong}
use hepunion.Kernel.{Kernel, Dirent}
use hepunion.Exec.{M, pure, ◌>>=◌, ◌>>◌, call, ask, kmalloc, kfree, with_buffer, on_ptr}
use hepunion.Hash.{name_to_ino}
use hepunion.Ops.{validate_inode}
use hepunion.Names.{is_me, is_whiteout}
use hepunion.SpecialPath.{Branches}

-- `struct readdir_file`; `d_reclen` is the length of the name.
pub record ReaddirFile : Type 0 where
  pub d_name : List ℕ
  pub ino : ℕ
  pub type : ℕ

-- `struct opendir_context`. An entry of the whiteouts' list has only its name filled in. The two
-- strings are those at `ro_off` and `rw_off`; a length of 0 stands for a branch without the
-- directory.
pub record OpendirContext : Type 0 where
  pub files : List ReaddirFile
  pub whiteouts : List (List ℕ)
  pub ro_len : ℕ
  pub ro_path : List ℕ
  pub rw_len : ℕ
  pub rw_path : List ℕ

-- Whether a list of the context has an entry with that length and those bytes.
unfoldable pub names_file : List ℕ → List ReaddirFile → Bool
names_file name [] = false
names_file name (f ∷ fs) = same name f.d_name || names_file name fs

unfoldable pub names_whiteout : List ℕ → List (List ℕ) → Bool
names_whiteout name [] = false
names_whiteout name (w ∷ ws) = same name w || names_whiteout name ws

abbrev pub is_empty {ℓ} : {A : Type ℓ} → List A → Bool
is_empty [] = true
is_empty (x ∷ xs) = false

abbrev pub is_some {ℓ} : {A : Type ℓ} → Option A → Bool
is_some none = false
is_some (some a) = true

module _ ⦃K : Kernel⦄ where
  -- `list_del` and `kfree` of each entry of a list.
  unfoldable pub free_all {ℓ} : {A : Type ℓ} → List A → M (Unit {0})
  free_all [] = pure tt
  free_all (x ∷ xs) = do kfree; free_all xs

  unfoldable pub free_whiteouts : OpendirContext → M OpendirContext
  unfolding free_all
  free_whiteouts ctx = do free_all ctx.whiteouts; pure (record ctx { whiteouts = [] })

  unfoldable pub free_lists : OpendirContext → M OpendirContext
  unfolding free_whiteouts
  free_lists ctx = do c ← free_whiteouts ctx; free_all c.files; pure (record c { files = [] })

  -- Frees both lists and the context, behind the check of the inode.
  unfoldable pub hepunion_closedir : K.Inode → OpendirContext → M ℤ
  unfolding free_lists
  hepunion_closedir inode ctx = do validate_inode inode; free_lists ctx; kfree; pure (pos 0)

module _ ⦃K : Kernel⦄ where
  -- A directory that is read calls the callback for each entry, until a call does not return 0.
  unfoldable pub fill :
      (OpendirContext → Dirent → M (ℤ × OpendirContext))
      → OpendirContext
      → List Dirent
      → M (ℤ × OpendirContext)
  fill callback ctx [] = pure (pos 0, ctx)
  fill callback ctx (e ∷ es) = do
    answer ← callback ctx e
    if is_zero answer.0 then fill callback answer.1 es else pure answer

  -- `vfs_readdir` of one branch: open, read, close. A listing opens for reading only, so that
  -- `open_worker` is `filp_open`.
  unfoldable pub read_branch :
      (OpendirContext → Dirent → M (ℤ × OpendirContext))
      → List ℕ
      → OpendirContext
      → M (ℤ × OpendirContext)
  unfolding fill
  read_branch callback path ctx = do
    opened ← call (K.filp_open path 0 0)
    on_ptr opened
        (λ file. do
          entries ← call (K.dir_entries file)
          answer ← fill callback ctx entries
          err ← ask (K.vfs_readdir_result file answer.0)
          call (λ c. K.filp_close file)
          pure (err, answer.1))
        (λ err. pure (err, ctx))

module _ ⦃K : Kernel⦄ (b : Branches) where
  -- The end of both callbacks, behind the allocation of the entry and of `complete_path`: the
  -- entry joins the list before its inode number is known, and stays there with the path too long.
  unfoldable pub add_file : List ℕ → ℕ → ℕ → Dirent → OpendirContext → ℤ × OpendirContext
  unfolding name_to_ino
  add_file path path_len branch_len e ctx =
      let len = path_len - branch_len in
      let entry : ℕ → ReaddirFile = λ i. record { d_name = e.name; ino = i; type = e.d_type } in
      if ltb path_max (len + length e.name + 1)
      then (enametoolong, record ctx { files = entry 0 ∷ ctx.files })
      else (
        pos 0,
        record ctx {
          files = entry (name_to_ino (take len (drop branch_len path) ++ e.name)) ∷ ctx.files;
        },
      )

  unfoldable pub read_rw_branch : OpendirContext → Dirent → M (ℤ × OpendirContext)
  unfolding add_file
  read_rw_branch ctx e =
      if is_me e.name
      then pure (pos 0, ctx)
      else if is_whiteout e.name
      then (if ctx.ro_len == 0 then pure (pos 0, ctx) else do
        got ← kmalloc
        pure (
            if got
            then (pos 0, record ctx { whiteouts = drop 4 e.name ∷ ctx.whiteouts })
            else (enomem, ctx)))
      else with_buffer (enomem, ctx)
          (do
            got ← kmalloc
            pure (if got then add_file ctx.rw_path ctx.rw_len b.rw_len e ctx else (enomem, ctx)))

  unfoldable pub read_ro_branch : OpendirContext → Dirent → M (ℤ × OpendirContext)
  unfolding names_file names_whiteout add_file
  read_ro_branch ctx e =
      if names_whiteout e.name ctx.whiteouts
      then pure (pos 0, ctx)
      else if names_file e.name ctx.files
      then pure (pos 0, ctx)
      else do
        got ← kmalloc
        if got
            then (do
              path ← kmalloc
              if path
                  then (do kfree; pure (add_file ctx.ro_path ctx.ro_len b.ro_len e ctx))
                  else (do kfree; pure (enomem, ctx)))
            else pure (enomem, ctx)

  -- The part of `hepunion_readdir` that runs while the list of files is empty.
  unfoldable pub read_union : OpendirContext → M (ℤ × OpendirContext)
  unfolding read_branch read_rw_branch read_ro_branch free_whiteouts
  read_union ctx = do
    upper ←
        (if ctx.rw_len == 0 then pure (pos 0, ctx) else read_branch read_rw_branch ctx.rw_path ctx)
    if is_neg upper.0 then pure upper else do
      lower ←
          (if upper.1.ro_len == 0
            then pure upper
            else read_branch read_ro_branch upper.1.ro_path upper.1)
      if is_neg lower.0 then pure lower else do done ← free_whiteouts lower.1; pure (pos 0, done)

  -- The status, the context, the new `f_pos`, and the entry given to `filldir`, if there is one.
  unfoldable pub hepunion_readdir :
      OpendirContext → ℕ → M (ℤ × OpendirContext × ℕ × Option ReaddirFile)
  unfolding read_union free_lists
  hepunion_readdir ctx f_pos = do
    listed ← (if is_empty ctx.files then read_union ctx else pure (pos 0, ctx))
    if is_neg listed.0
        then (do c ← free_lists listed.1; pure (listed.0, c, f_pos, none))
        else pure (
          pos 0,
          listed.1,
          if is_some (get_elem? listed.1.files f_pos) then suc f_pos else f_pos,
          get_elem? listed.1.files f_pos,
        )
