-- ===== src/View/Removed.antt =====
-- fs/hepunion/helpers.c, `unlink`: what it does to the places of the file systems.
use hepunion.Base.{◌≡◌, ◌≢◌, sym, ◌∙◌, is_neg, false, ptr, List, ℕ, Bool, Option-cases, inl, inr}
use hepunion.Kernel.{Kernel, Creds}
use hepunion.Exec.{World, pure, ◌>>=◌, ask, call, call_, as_root, push_root, pop_root}
use hepunion.Lookup.{remove_in, remove_by, unlink, get_path_dentry, lookup_reval, lookup_parent}
use hepunion.Tree.Reached.{Ptr-cases, get_path_dentry_error}
use hepunion.View.{Vfs, root}
use hepunion.View.Writes.{VfsWrites}
use hepunion.View.Kept.{IsKept-call}
use hepunion.View.Absent.{
  Stays, StaysOut, IsKept→Stays, Stays-pure, Stays-ask, Stays-call, Stays-call_, Stays-bind,
  Stays-bind_of, Stays-on_ptr, Stays-on_option, Stays-as_root,
}
use hepunion.View.Gone.{get_path_dentry-IsKept}

module _ ⦃K : Kernel⦄ ⦃V : Vfs⦄ ⦃W : VfsWrites⦄ (q : List ℕ) where
  found_names :
      (flag : ℕ) (w : World) (d : K.Dentry)
      → (get_path_dentry q flag w).0 ≡ ptr d
      → W.names d ≡ V.entry q
  unfolding get_path_dentry as_root push_root pop_root call call_ ◌>>=◌ pure
  found_names flag w d h = elim (Ptr-cases (K.kern_path q flag root w.kernel).0) [
    | inl (d', there) ↦
        let is : ptr d' ≡ ptr d = rw there at h in
        W.kern_path_names q flag root w.kernel d (there ∙ is)
    | inr (e, missing) ↦ absurd (cc (rw missing at h))
  ]

  -- `unlink` does to a place what the kernel's removal of the file does.
  unlink-Stays_of :
      {t : V.Entry} {v : Bool}
      → ((dir : K.Inode) (d : K.Dentry) (c : Creds) (s : K.State)
          → W.names d ≡ V.entry q
          → V.has s t ≡ v
          → V.has (K.vfs_unlink dir d c s).1 t ≡ v)
      → Stays t v (unlink q)
  unfolding unlink remove_by
  unlink-Stays_of {t} {v} removal =
      let put = λ (d : K.Dentry). Stays-call_ {t = t} {v = v} (K.dput d) (W.dput_keeps d) in
      let remove = λ (dir : K.Inode) (d : K.Dentry) (own : W.names d ≡ V.entry q).
        Stays-bind {t = t} {v = v} _ _ (Stays-call_ _ (W.lock_keeps dir)) λ u.
          Stays-bind _ _
            (Stays-as_root _ (Stays-call (K.vfs_unlink dir d) λ c s. removal dir d c s own))
            λ err. Stays-bind _ _ (Stays-call_ _ (W.unlock_keeps dir)) λ u. Stays-pure err in
      Stays-bind_of (λ found. (d : K.Dentry) → found ≡ ptr d → W.names d ≡ V.entry q) _ _
        (IsKept→Stays _ (get_path_dentry-IsKept q lookup_reval)) (found_names lookup_reval)
        λ found named.
          Stays-on_ptr found _ _
            (λ d is. Stays-bind _ _ (Stays-ask _) λ parent.
              Stays-on_option parent _ _
                (Stays-bind _ _ (IsKept→Stays _ (IsKept-call _ (V.kern_path_keeps q lookup_parent)))
                  λ again.
                    Stays-on_ptr again _ _
                      (λ path is'. Stays-bind _ _ (Stays-ask _) λ dir.
                        Stays-bind _ _ (remove dir d (named d is)) λ err.
                          Stays-bind _ _ (Stays-call_ _ (V.path_put_keeps path))
                            λ u. Stays-bind _ _ (put d) λ u. Stays-pure err)
                      (λ err. Stays-bind _ _ (put d) λ u. Stays-pure err))
                (λ dir.
                  Stays-bind _ _ (remove dir d (named d is))
                    λ err. Stays-bind _ _ (put d) λ u. Stays-pure err))
            (λ e. Stays-pure e)

  pub unlink-StaysOut : {t : V.Entry} → StaysOut t (unlink q)
  unlink-StaysOut {t} = unlink-Stays_of λ dir d c s own h. W.unlink_adds dir d c s t h

  -- Another place stays as it is.
  pub unlink-Stays : {t : V.Entry} {v : Bool} → V.entry q ≢ t → Stays t v (unlink q)
  unlink-Stays {t} apart =
      unlink-Stays_of λ dir d c s own h. W.unlink_keeps dir d c s t (λ is. apart (sym own ∙ is)) ∙ h

  removed_in :
      (dir : K.Inode) (d : K.Dentry) (w : World)
      → W.names d ≡ V.entry q
      → is_neg (remove_in K.vfs_unlink dir d w).0 ≡ false
      → V.has (remove_in K.vfs_unlink dir d w).1.kernel (V.entry q) ≡ false
  unfolding as_root push_root pop_root call call_ ◌>>=◌ pure
  removed_in dir d w own ok =
      let gone = W.unlink_removes dir d root (K.inode_lock dir w.kernel) ok in
      W.unlock_keeps dir _ _ ∙ rw own at gone

  -- What `unlink` has removed is gone.
  pub unlink-removes :
      (w : World) → is_neg (unlink q w).0 ≡ false → V.has (unlink q w).1.kernel (V.entry q) ≡ false
  unfolding unlink remove_by ◌>>=◌ pure ask call call_
  unlink-removes w =
      let found = get_path_dentry q lookup_reval w in
      elim (Ptr-cases found.0) [
        | inr (e, missing) ↦
            let failed =
              get_path_dentry_error q lookup_reval w e (λ q f c s e. V.kern_path_fails q f c s e)
                missing in
            rw missing (λ ok. absurd (cc (ok, failed)))
        | inl (d, there) ↦
            let own = found_names lookup_reval w d there in
            elim (Option-cases (K.parent_inode d found.1.kernel)) [
              | inr (dir, parent) ↦
                  rw (there, parent) (λ ok. W.dput_keeps d _ _ ∙ removed_in dir d found.1 own ok)
              | inl orphan ↦
                  let c : Creds = record { fsuid = found.1.fsuid; fsgid = found.1.fsgid } in
                  let s = found.1.kernel in
                  elim (Ptr-cases (K.kern_path q lookup_parent c s).0) [
                    | inr (e, missing) ↦
                        let failed = V.kern_path_fails q lookup_parent c s e missing in
                        rw (there, orphan, missing) (λ ok. absurd (cc (ok, failed)))
                    | inl (path, again) ↦
                        rw (there, orphan, again)
                          (λ ok.
                            W.dput_keeps d _ _
                            ∙ V.path_put_keeps path _ _
                            ∙ removed_in (K.d_inode path (K.kern_path q lookup_parent c s).1) d
                                (record found.1 { kernel = (K.kern_path q lookup_parent c s).1 })
                                own ok)
                  ]
            ]
      ]
