-- ===== src/View/Links.antt =====
-- fs/hepunion/helpers.c, `symlink` and `link`: what they make.
use hepunion.Base.{
  ℕ, zero, suc, ◌≡◌, ◌∙◌, ℤ, is_neg, is_zero, true, false, err_ptr, some, List, Bool-cases,
  Option-cases, inl, inr,
}
use hepunion.Kernel.{Kernel}
use hepunion.Exec.{World, pure, ◌>>=◌, ask, call, call_, as_root, push_root, pop_root}
use hepunion.Create.{if_allowed, symlink_retry, symlink, link_in, link_retry, link}
use hepunion.Tree.Reached.{Ptr-cases}
use hepunion.Lookup.{lookup_reval}
use hepunion.View.Gone.{create_found}
use hepunion.View.{Vfs, root}
use hepunion.View.Writes.{VfsWrites}
use Prim.Native.Nat.{bit_and}

module _ ⦃K : Kernel⦄ ⦃V : Vfs⦄ ⦃W : VfsWrites⦄ (old q : List ℕ) where
  symlink_retry-makes :
      (rounds flags : ℕ) (w : World) (e : ℤ)
      → (symlink_retry rounds flags old q w).0 ≡ some e
      → is_neg e ≡ false
      → V.has (symlink_retry rounds flags old q w).1.kernel (V.entry q) ≡ true
  unfolding symlink_retry if_allowed ◌>>=◌ pure ask call call_ push_root pop_root
  symlink_retry-makes zero flags w e = λ h ok. absurd cc
  symlink_retry-makes (suc rounds) flags w e =
      let found = K.kern_path_create q flags root w.kernel in
      elim (Ptr-cases found.0) [
        | inr (err, failed) ↦
            let neg = W.create_fails q flags root w.kernel err failed in
            rw failed (λ h ok. absurd (cc (h, ok, neg)))
        | inl ((parent, d), there) ↦
            let own = W.create_names q flags root w.kernel (parent, d) there in
            let dir = K.d_inode parent found.1 in
            let hook = K.security_path_symlink parent d old root found.1 in
            elim (Bool-cases (is_zero hook.0)) [
              | inr refused ↦
                  let neg = W.symlink_refused parent d old root found.1 refused in
                  elim (Bool-cases (K.retry_estale hook.0 flags)) [
                    | inl again ↦
                        rw (there, refused, again) (λ h ok. symlink_retry-makes rounds _ _ e h ok)
                    | inr done ↦ rw (there, refused, done) (λ h ok. absurd (cc (h, ok, neg)))
                  ]
              | inl allowed ↦
                  let made = K.vfs_symlink dir d old root hook.1 in
                  elim (Bool-cases (K.retry_estale made.0 flags)) [
                    | inl again ↦
                        rw (there, allowed, again) (λ h ok. symlink_retry-makes rounds _ _ e h ok)
                    | inr done ↦
                        rw (there, allowed, done)
                          (λ h ok.
                            let ended : is_neg made.0 ≡ false = cc (h, ok) in
                            W.done_keeps parent d _ _
                            ∙ rw own at (W.symlink_makes dir d old root hook.1 ended))
                  ]
            ]
      ]

  -- A symlink that is reported as made is there.
  pub symlink-makes :
      (w : World)
      → is_neg (symlink old q w).0 ≡ false
      → V.has (symlink old q w).1.kernel (V.entry q) ≡ true
  unfolding symlink ◌>>=◌ pure
  symlink-makes w = elim (Option-cases (symlink_retry 2 0 old q w).0) [
    | inl none_left ↦ rw none_left (λ ok. absurd (cc ok))
    | inr (e, made) ↦ rw made (λ ok. symlink_retry-makes 2 0 w e made ok)
  ]

  link_in-makes :
      (from parent d : K.Dentry) (dir : K.Inode) (w : World)
      → W.names d ≡ V.entry q
      → is_neg (link_in from parent d dir w).0 ≡ false
      → V.has (link_in from parent d dir w).1.kernel (V.entry q) ≡ true
  unfolding link_in ◌>>=◌ pure call push_root pop_root as_root
  link_in-makes from parent d dir w own =
      let hook = K.security_path_link from parent d root w.kernel in
      elim (Bool-cases (K.same_mount from parent)) [
        | inr crosses ↦ rw crosses (λ ok. absurd (cc ok))
        | inl one ↦ elim (Bool-cases (is_zero hook.0)) [
          | inr refused ↦
              let neg = W.link_refused from parent d root w.kernel refused in
              rw (one, refused) (λ ok. absurd (cc (ok, neg)))
          | inl allowed ↦
              rw (one, allowed) (λ ok. rw own at (W.link_makes from dir d root hook.1 ok))
        ]
      ]

  path_fails :
      (how : ℕ) (w : World) (e : ℤ)
      → (as_root (call (K.kern_path old how)) w).0 ≡ err_ptr e
      → is_neg e ≡ true
  unfolding ◌>>=◌ pure call push_root pop_root as_root
  path_fails how w e = V.kern_path_fails old how root w.kernel e

  entry_fails :
      (how : ℕ) (w : World) (e : ℤ)
      → (as_root (call (K.kern_path_create q how)) w).0 ≡ err_ptr e
      → is_neg e ≡ true
  unfolding ◌>>=◌ pure call push_root pop_root as_root
  entry_fails how w e = W.create_fails q how root w.kernel e

  link_retry-makes :
      (rounds how : ℕ) (w : World) (e : ℤ)
      → (link_retry rounds how old q w).0 ≡ some e
      → is_neg e ≡ false
      → V.has (link_retry rounds how old q w).1.kernel (V.entry q) ≡ true
  unfolding link_retry ◌>>=◌ pure ask call_
  link_retry-makes zero how w e = λ h ok. absurd cc
  link_retry-makes (suc rounds) how w e =
      let source = as_root (call (K.kern_path old how)) w in
      elim (Ptr-cases source.0) [
        | inr (err, missing) ↦
            let neg = path_fails how w err missing in rw missing (λ h ok. absurd (cc (h, ok, neg)))
        | inl (from, here) ↦
            let found = as_root (call (K.kern_path_create q (bit_and how lookup_reval))) source.1 in
            elim (Ptr-cases found.0) [
              | inr (err, failed) ↦
                  let neg = entry_fails _ source.1 err failed in
                  rw (here, failed) (λ h ok. absurd (cc (h, ok, neg)))
              | inl ((parent, d), there) ↦
                  let own = create_found q _ source.1 (parent, d) there in
                  let dir = K.d_inode parent found.1.kernel in
                  let made = link_in from parent d dir found.1 in
                  elim (Bool-cases (K.retry_estale made.0 how)) [
                    | inl again ↦
                        rw (here, there, again) (λ h ok. link_retry-makes rounds _ _ e h ok)
                    | inr done ↦
                        rw (here, there, done)
                          (λ h ok.
                            let ended : is_neg made.0 ≡ false = cc (h, ok) in
                            V.path_put_keeps from _ _
                            ∙ W.done_keeps parent d _ _
                            ∙ link_in-makes from parent d dir found.1 own ended)
                  ]
            ]
      ]

  -- A link that is reported as made is there.
  pub link-makes :
      (w : World)
      → is_neg (link old q w).0 ≡ false
      → V.has (link old q w).1.kernel (V.entry q) ≡ true
  unfolding link ◌>>=◌ pure
  link-makes w = elim (Option-cases (link_retry 2 0 old q w).0) [
    | inl none_left ↦ rw none_left (λ ok. absurd (cc ok))
    | inr (e, made) ↦ rw made (λ ok. link_retry-makes 2 0 w e made ok)
  ]
