-- ===== src/Readdir/Names.antt =====
-- fs/hepunion/opts.c: what the `filldir` callbacks make of the names that `path_to_special` and
-- `hepunion_lookup` give to the same files.
use hepunion.Base.{ℕ, suc, pos, ◌≡◌, refl, ◌∙◌, true, false, List, [], ◌∷◌, ◌++◌, ltb, some, ◌==◌}
use hepunion.Base.{
  ◌+◌, ◌-◌, ◌≤◌, arith, length, take, drop, same_refl, path_max, length-append, drop-append,
}
use hepunion.Base.{take-length_le, Bool-cases, inl, inr, le→ltb}
use hepunion.Hash.{name_to_ino}
use hepunion.Readdir.{ReaddirFile, add_file, names_file}
use hepunion.Paths.{get_inode_path, get_relative_path_for_file}
use hepunion.SpecialPath.Bytes.{c_string}
use hepunion.Kernel.{Kernel, Dirent}
use hepunion.Exec.{World, pure, ◌>>=◌, ask, with_buffer, kmalloc}
use hepunion.CString.{strrchr}
use hepunion.CString.Laws.{Lacks}
use hepunion.Names.{slash, Special, mark, is_me, is_whiteout}
use hepunion.SpecialPath.{Branches, IsMeasured, path_to_special}
use hepunion.SpecialPath.Laws.{path_to_special-last_name}
use hepunion.Readdir.{OpendirContext, names_whiteout, read_rw_branch, read_ro_branch}
use hepunion.Readdir.Union.{rw_step}

marked-is_whiteout :
    (name : List ℕ)
    → ltb 0 (length name) ≡ true
    → (is_whiteout (mark Special.wh ++ name) ≡ true) × (is_me (mark Special.wh ++ name) ≡ false)
unfolding is_whiteout is_me
marked-is_whiteout [] h = absurd cc
marked-is_whiteout (c ∷ name) h = (ground arith, ground arith)

module _ ⦃K : Kernel⦄ (b : Branches) where
  -- Where `path_to_special` succeeds with the whiteout of the path of a name that is not empty and
  -- has no slash, over branches whose lengths are measured, the last name of its result, read in
  -- the RW directory by a callback that succeeds on a context with an RO directory, makes the
  -- callback of the RO branch leave that name out: it returns 0 and changes nothing.
  pub whiteout_hides :
      (dir name out r : List ℕ) (off : ℕ) (e f : Dirent) (ctx : OpendirContext) (w v : World)
      → IsMeasured b
      → Lacks slash name
      → ltb 0 (length name) ≡ true
      → path_to_special (dir ++ slash ∷ name) Special.wh b out ≡ (pos 0, r)
      → strrchr r slash ≡ some off
      → e.name ≡ drop (suc off) r
      → f.name ≡ name
      → (ctx.ro_len == 0) ≡ false
      → (read_rw_branch b ctx e w).0.0 ≡ pos 0
      → read_ro_branch b (read_rw_branch b ctx e w).0.1 f v
        ≡ ((pos 0, (read_rw_branch b ctx e w).0.1), v)
  unfolding read_ro_branch pure
  whiteout_hides dir name out r off e f ctx w v m lacks some_name h at marked named ro ok =
      let last : e.name ≡ mark Special.wh ++ name =
        marked ∙ path_to_special-last_name dir name Special.wh b out r off m lacks h at in
      let step = rw_step b ctx e w name ok in
      let (wh, me) = marked-is_whiteout name some_name in
      let listed : names_whiteout name (read_rw_branch b ctx e w).0.1.whiteouts ≡ true =
        step.whiteouts ro ∙ rw (last, wh, me, same_refl name) refl in
      rw (named, listed) refl

-- The string that a context holds for a branch is the path of the directory on it.
pub record Opened (b : Branches) (dir : List ℕ) (ctx : OpendirContext) : Type 0 where
  pub rw_path : ctx.rw_path ≡ b.read_write_branch ++ dir
  pub rw_len : ctx.rw_len ≡ length ctx.rw_path
  pub ro_path : ctx.ro_path ≡ b.read_only_branch ++ dir
  pub ro_len : ctx.ro_len ≡ length ctx.ro_path

module _ ⦃K : Kernel⦄ (b : Branches) where
  -- An entry whose path is short enough joins the list with the number of that path.
  add_file-ino :
      (dir branch path : List ℕ) (path_len branch_len : ℕ) (e : Dirent) (ctx : OpendirContext)
      → path ≡ branch ++ dir
      → path_len ≡ length path
      → branch_len ≡ length branch
      → (add_file b path path_len branch_len e ctx).0 ≡ pos 0
      → (length dir + length e.name + 1 ≤ path_max)
        × ((add_file b path path_len branch_len e ctx).1.files
            ≡ record { d_name = e.name; ino = name_to_ino (dir ++ e.name); type = e.d_type }
              ∷ ctx.files)
  unfolding add_file
  add_file-ino dir branch path path_len branch_len e ctx p l m ok =
      let rest : path_len - branch_len ≡ length dir =
        rw (l, m, p) (omega (arith, length-append branch dir)) in
      let text : take (path_len - branch_len) (drop branch_len path) ≡ dir =
        rw (rest, m, p, drop-append branch dir) (take-length_le (length dir) dir (omega arith)) in
      elim (Bool-cases (ltb path_max (path_len - branch_len + length e.name + 1))) [
        | inl long ↦ absurd (ground arith)
        | inr short ↦ (ground arith, rw (short, text) refl)
      ]

  -- The string that a lookup of a name in a directory works with.
  lookup_path :
      (dir name buf old : List ℕ) (inode : K.Inode) (dentry : K.Dentry) (w : World)
      → (get_inode_path b inode old true w).0 ≡ (pos 0, buf)
      → c_string buf ≡ dir
      → K.d_name dentry (get_inode_path b inode old true w).1.kernel ≡ name
      → length dir + length name + 1 ≤ path_max
      → (get_relative_path_for_file b inode dentry old true w).0 ≡ (pos 0, dir ++ name)
  unfolding get_relative_path_for_file ◌>>=◌ pure ask
  lookup_path dir name buf old inode dentry w found text named fits =
      rw
        (
          found,
          named,
          text,
          le→ltb path_max (length dir + length name) (omega arith),
          take-length_le (path_max - length dir - 1) name (omega arith),
        )
        refl

  plain_rw :
      (e : Dirent) (ctx : OpendirContext) (w : World)
      → is_me e.name ≡ false
      → is_whiteout e.name ≡ false
      → (read_rw_branch b ctx e w).0.0 ≡ pos 0
      → (read_rw_branch b ctx e w).0 ≡ add_file b ctx.rw_path ctx.rw_len b.rw_len e ctx
  unfolding read_rw_branch with_buffer ◌>>=◌ pure kmalloc
  plain_rw e ctx w me wh ok = ground arith

  plain_ro :
      (e : Dirent) (ctx : OpendirContext) (w : World)
      → names_whiteout e.name ctx.whiteouts ≡ false
      → names_file e.name ctx.files ≡ false
      → (read_ro_branch b ctx e w).0.0 ≡ pos 0
      → (read_ro_branch b ctx e w).0 ≡ add_file b ctx.ro_path ctx.ro_len b.ro_len e ctx
  unfolding read_ro_branch ◌>>=◌ pure kmalloc
  plain_ro e ctx w hidden listed ok = ground arith

  -- For a context that was opened on a directory and whose entry is neither metadata nor a
  -- whiteout, and neither hidden by a whiteout nor listed yet, let both callbacks succeed and let
  -- the directory's inode have that path. Then either callback lists the entry with the inode
  -- number of the string that `get_relative_path_for_file` gives to a lookup of it, which succeeds.
  pub listed_as_looked_up :
      (dir buf old : List ℕ) (inode : K.Inode) (dentry : K.Dentry) (e : Dirent)
      (ctx : OpendirContext) (u v w : World)
      → IsMeasured b
      → Opened b dir ctx
      → is_me e.name ≡ false
      → is_whiteout e.name ≡ false
      → names_whiteout e.name ctx.whiteouts ≡ false
      → names_file e.name ctx.files ≡ false
      → (read_rw_branch b ctx e u).0.0 ≡ pos 0
      → (read_ro_branch b ctx e v).0.0 ≡ pos 0
      → (get_inode_path b inode old true w).0 ≡ (pos 0, buf)
      → c_string buf ≡ dir
      → K.d_name dentry (get_inode_path b inode old true w).1.kernel ≡ e.name
      → let (err, path) = (get_relative_path_for_file b inode dentry old true w).0 in
        let entry : ReaddirFile = record {
          d_name = e.name;
          ino = name_to_ino path;
          type = e.d_type;
        } in
        (err ≡ pos 0)
        × ((read_rw_branch b ctx e u).0.1.files ≡ entry ∷ ctx.files)
        × ((read_ro_branch b ctx e v).0.1.files ≡ entry ∷ ctx.files)
  listed_as_looked_up dir buf old inode dentry e ctx u v w m o me wh hidden listed up low found text
        named =
      let upper = plain_rw e ctx u me wh up in
      let lower = plain_ro e ctx v hidden listed low in
      let (fits, rw_file) =
        add_file-ino dir b.read_write_branch ctx.rw_path ctx.rw_len b.rw_len e ctx o.rw_path
          o.rw_len m.rw (rw (← upper) up) in
      let (_, ro_file) =
        add_file-ino dir b.read_only_branch ctx.ro_path ctx.ro_len b.ro_len e ctx o.ro_path o.ro_len
          m.ro (rw (← lower) low) in
      let path = lookup_path dir e.name buf old inode dentry w found text named fits in
      rw (path, upper, lower, rw_file, ro_file) (refl, refl, refl)
