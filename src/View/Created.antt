-- ===== src/View/Created.antt =====
-- fs/hepunion/opts.c, `hepunion_create`: what the union shows of a file that it has made.
use hepunion.Base.{
  [], ℕ, ◌≡◌, ◌∙◌, ◌≢◌, refl, ℤ, pos, is_neg, true, false, Ptr, ptr, err_ptr, some, List, ◌∷◌, ◌++◌,
  Bool-cases, inl, inr,
}
use hepunion.Base.Errno.{enomem}
use hepunion.Kernel.{Kernel, Creds}
use hepunion.Exec.{World, M, pure, call, on_ptr}
use hepunion.Names.{slash, is_flag_set, must_read_only, create_copyup_flag}
use hepunion.SpecialPath.{Branches}
use hepunion.Find.{read_write}
use hepunion.Lookup.{unlink}
use hepunion.Workers.{dbg_creat, on_ro_branch, creat_flags}
use hepunion.Tree.{find_present}
use hepunion.Tree.Reached.{Ptr-cases}
use hepunion.Paths.{get_relative_path_for_file}
use hepunion.Ops.{fill_inode}
use hepunion.Ops.Make.{add_inode, create_file, hepunion_create}
use hepunion.View.{Vfs, IsNamed, union_lookup}
use hepunion.View.Writes.{VfsWrites}
use hepunion.View.Kept.{
  IsKept, IsKept-call, IsKept-call_, IsKept-bind, IsKept-current_fsuid, IsKept-current_fsgid,
}
use hepunion.View.Absent.{IsKept→Stays, Stays-pure, Stays-bind, Stays-as_root}
use hepunion.View.Made.{find_path-Ends, unlink_whiteout-Stays}
use hepunion.View.Handlers.{new_name-Ends}
use hepunion.View.Found.{Answers, find_present-Answers}
use hepunion.View.Ends.{
  Ends, Ends-fails, Ends-bind, Ends-into, Ends-stays, Ends-fails_after, Ends-on_option,
  Ends-unless_neg,
}

module _ ⦃K : Kernel⦄ ⦃V : Vfs⦄ ⦃W : VfsWrites⦄ (b : Branches) (p wh_path : List ℕ)
    (named : IsNamed b (slash ∷ p) wh_path)
    (apart : V.entry wh_path ≢ V.entry (b.read_write_branch ++ slash ∷ p))
    (memory : (s : K.State) → (K.kmalloc s).0 ≡ true) where
  abbrev rw_path : List ℕ
  rw_path = b.read_write_branch ++ slash ∷ p

  -- The file stands on the RW branch.
  abbrev IsMade : K.State → Type 0
  IsMade s = V.has s (V.entry rw_path) ≡ true

  -- The root of the RW branch is there.
  abbrev IsRooted : K.State → Type 0
  IsRooted s = V.has s (V.entry (b.read_write_branch ++ slash ∷ [])) ≡ true

  abbrev Anywhere : K.State → Type 0
  Anywhere s = Unit

  -- What `creat` leaves, for what it returns.
  abbrev Opened : Ptr K.File → K.State → Type 0
  Opened (ptr f) s = IsMade s
  Opened (err_ptr e) s = is_neg e ≡ true

  dbg_creat-Opened :
      (q : List ℕ) (mode : ℕ) (w : World)
      → q ≡ rw_path
      → Opened (dbg_creat b q mode w).0 (dbg_creat b q mode w).1.kernel
  unfolding dbg_creat call pure
  dbg_creat-Opened q mode w is = rw is (elim (Bool-cases (on_ro_branch b rw_path)) [
    | inl ro ↦ rw ro refl
    | inr allowed ↦
        let c : Creds = record { fsuid = w.fsuid; fsgid = w.fsgid } in
        elim (Ptr-cases (K.filp_open rw_path creat_flags mode c w.kernel).0) [
          | inl (f, there) ↦ rw (allowed, there) (W.creat_makes rw_path mode c w.kernel f there)
          | inr (e, failed) ↦ rw (allowed, failed) (W.creat_fails rw_path mode c w.kernel e failed)
        ]
  ])

  fill_inode-IsKept :
      (dir : K.Inode) (dentry : K.Dentry) (i : K.Inode) (mode : ℕ)
      → IsKept (fill_inode dir dentry i (slash ∷ p) mode false)
  unfolding fill_inode
  fill_inode-IsKept dir dentry i mode = IsKept-bind _ _ IsKept-current_fsuid λ uid.
      IsKept-bind _ _ IsKept-current_fsgid λ gid. IsKept-call_ _ (W.add_inode_keeps dir dentry i _)

  add_inode-Ends :
      (dir : K.Inode) (dentry : K.Dentry) (mode : ℕ) (undo : M ℤ)
      → Ends IsMade IsMade (add_inode b dir dentry (slash ∷ p) mode false undo)
  unfolding add_inode
  add_inode-Ends dir dentry mode undo =
      Ends-bind _ _ ((IsKept→Stays _ (IsKept-call (λ c. K.new_inode) (λ c. W.new_inode_keeps))).at)
        λ inode. Ends-on_option inode _ _ (Ends-fails_after undo enomem refl) λ i. Ends-stays _ (
          (Stays-bind _ _ (IsKept→Stays _ (fill_inode-IsKept dir dentry i mode)) λ u.
            Stays-bind _ _ (unlink_whiteout-Stays b p wh_path named apart memory)
              λ u. Stays-pure (pos 0)).at)

  on_ptr-Ends :
      (opened : Ptr K.File) (f : K.File → M ℤ)
      → ((a : K.File) → Ends IsMade IsMade (f a))
      → Ends (Opened opened) IsMade (on_ptr opened f pure)
  on_ptr-Ends (ptr a) f ends = ends a
  on_ptr-Ends (err_ptr e) f ends = record {
    at = λ w h. (Ends-fails {P = Anywhere} {Q = IsMade} e h).at w tt;
  }

  create_file-Ends :
      (dir : K.Inode) (dentry : K.Dentry) (mode : ℕ) (real_path : List ℕ)
      → Ends IsRooted IsMade (create_file b dir dentry mode (slash ∷ p) real_path)
  unfolding create_file
  create_file-Ends dir dentry mode real_path =
      find_path-Ends b p wh_path named apart memory real_path _ λ made is.
        Ends-bind _ _ (λ w h. tt)
          λ allowed. Ends-unless_neg allowed _ λ may.
            Ends-into Opened _ _ (λ w h. dbg_creat-Opened made mode w is)
              λ opened. on_ptr-Ends opened _ λ filp.
                Ends-bind _ _ ((IsKept→Stays _ IsKept-current_fsuid).at) λ uid.
                  Ends-bind _ _ ((IsKept→Stays _ IsKept-current_fsgid).at) λ gid.
                    Ends-bind _ _
                      ((Stays-as_root _ (
                        Stays-bind _ _
                          (IsKept→Stays _
                            (IsKept-call _ (W.notify_change_keeps (K.f_dentry filp) _)))
                          λ err.
                            Stays-bind _ _
                              (IsKept→Stays _
                                (IsKept-call (λ c. K.filp_close filp) (λ c. W.close_keeps filp)))
                              λ closed. Stays-pure err)).at)
                      λ err. elim (Bool-cases (is_neg err)) [
                        | inl failed ↦ rw failed (Ends-fails_after (unlink made) err failed)
                        | inr set ↦ rw set (add_inode-Ends dir dentry mode (unlink made))
                      ]

  hepunion_create-Ends :
      (dir : K.Inode) (dentry : K.Dentry) (mode : ℕ)
      → ((old : List ℕ) (v : World)
          → (get_relative_path_for_file b dir dentry old true v).0 ≡ (pos 0, slash ∷ p))
      → Ends IsRooted IsMade (hepunion_create b dir dentry mode)
  unfolding hepunion_create
  hepunion_create-Ends dir dentry mode called =
      new_name-Ends b p dir dentry (create_file b dir dentry mode) (λ s s' same h. same _ ∙ h)
        (λ s s' same h. same _ ∙ h) called (create_file-Ends dir dentry mode)

  -- Where there is memory, the paths of the file fit their buffers, its whiteout is at another place,
  -- and the root of the RW branch is there: if hepunion_create returns 0, then the union shows the
  -- file on the RW branch, whatever it showed before, and find_file of it returns READ_WRITE, or the
  -- error of can_traverse, for all flags without MUST_READ_ONLY and CREATE_COPYUP.
  pub find_present-hepunion_create :
      (dir : K.Inode) (dentry : K.Dentry) (mode : ℕ) (w : World) (real_path : List ℕ) (flags : ℕ)
      → ((old : List ℕ) (v : World)
          → (get_relative_path_for_file b dir dentry old true v).0 ≡ (pos 0, slash ∷ p))
      → V.has w.kernel (V.entry (b.read_write_branch ++ slash ∷ [])) ≡ true
      → (hepunion_create b dir dentry mode w).0 ≡ pos 0
      → is_flag_set flags must_read_only ≡ false
      → is_flag_set flags create_copyup_flag ≡ false
      → let after = (hepunion_create b dir dentry mode w).1 in
        (union_lookup b after.kernel (slash ∷ p) wh_path flags ≡ some read_write)
        × Answers b
            (slash ∷ p)
            wh_path
            flags
            named
            memory
            after
            (some read_write)
            (find_present b (slash ∷ p) real_path flags after).0.0
  find_present-hepunion_create dir dentry mode w real_path flags called rooted ok any plain =
      let after = (hepunion_create b dir dentry mode w).1 in
      let made : IsMade after.kernel =
        (hepunion_create-Ends dir dentry mode called).at w rooted ok in
      let shown : union_lookup b after.kernel (slash ∷ p) wh_path flags ≡ some read_write =
        rw (any, made) refl in
      (
        shown,
        rw (← shown)
            (find_present-Answers b (slash ∷ p) wh_path flags named memory real_path after plain).0,
      )
