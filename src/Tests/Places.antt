-- ===== src/Tests/Places.antt =====
-- The places of the kernel of the tests, and the theorems on what the union shows at concrete inputs.
use hepunion.Base.{
  ℕ, pos, ◌≡◌, ◌≢◌, refl, sym, ◌∙◌, ℤ, is_neg, ptr, err_ptr, Bool, true, false, Option, none, some,
  List, [], ◌∷◌, same, same_refl, same→eq, Bool-cases, Option-cases, inl, inr, arith,
}
use hepunion.Kernel.{Kstat, Creds, Iattr}
use hepunion.Workers.{creat_flags}
use hepunion.View.{Vfs, is_ptr}
use hepunion.View.Writes.{VfsWrites}
use hepunion.Tests.Memory.{memory, Node, find_node, remove_node, add_node, change, look, create}

abbrev pub is_there : Option Kstat → Bool
is_there none = false
is_there (some st) = true

abbrev pub at_path : List Node → List ℕ → Bool
at_path s p = is_there (find_node s p)

pub look-at_path : (p : List ℕ) (s : List Node) → is_ptr (look p s) ≡ at_path s p
look-at_path p s = elim (Option-cases (find_node s p)) [
  | inl missing ↦ ground (arith, missing)
  | inr (st, there) ↦ ground (arith, there)
]

pub look_fails : (p : List ℕ) (s : List Node) (e : ℤ) → look p s ≡ err_ptr e → is_neg e ≡ true
look_fails p s e h = elim (Option-cases (find_node s p)) [
  | inl missing ↦ ground (arith, missing)
  | inr (st, there) ↦ absurd (ground (arith, there))
]

pub look_names : (p : List ℕ) (s : List Node) (d : List ℕ) → look p s ≡ ptr d → d ≡ p
look_names p s d h = elim (Option-cases (find_node s p)) [
  | inl missing ↦ absurd (ground (arith, missing))
  | inr (st, there) ↦ ground (arith, there)
]

apart-same : (p q : List ℕ) → p ≢ q → same p q ≡ false
apart-same p q apart = elim (Bool-cases (same p q)) [
  | inl is ↦ absurd (apart (same→eq p q is))
  | inr other ↦ other
]

pub removed : (s : List Node) (p : List ℕ) → at_path (remove_node s p) p ≡ false
removed [] p = refl
removed (n ∷ s) p = elim (Bool-cases (same n.path p)) [
  | inl is ↦ rw is (removed s p)
  | inr other ↦ rw (other, other) (removed s p)
]

pub remove_adds :
    (s : List Node) (p q : List ℕ) → at_path s q ≡ false → at_path (remove_node s p) q ≡ false
remove_adds [] p q h = refl
remove_adds (n ∷ s) p q h = elim (Bool-cases (same n.path q)) [
  | inl is ↦ absurd (cc (rw is at h))
  | inr other ↦ elim (Bool-cases (same n.path p)) [
    | inl gone ↦ rw gone (remove_adds s p q (rw other at h))
    | inr stays ↦ rw (stays, other) (remove_adds s p q (rw other at h))
  ]
]

pub remove_keeps :
    (s : List Node) (p q : List ℕ) → p ≢ q → at_path (remove_node s p) q ≡ at_path s q
remove_keeps [] p q apart = refl
remove_keeps (n ∷ s) p q apart = elim (Bool-cases (same n.path p)) [
  | inl gone ↦
      let other : same n.path q ≡ false =
        apart-same n.path q (λ h. apart (sym (same→eq n.path p gone) ∙ h)) in
      rw (gone, other) (remove_keeps s p q apart)
  | inr stays ↦ elim (Bool-cases (same n.path q)) [
    | inl here ↦ rw (stays, here) refl
    | inr other ↦ rw (stays, other) (remove_keeps s p q apart)
  ]
]

pub change_keeps :
    (a : Iattr) (p : List ℕ) (s : List Node) (q : List ℕ) → at_path (change a p s) q ≡ at_path s q
change_keeps a p [] q = refl
change_keeps a p (n ∷ s) q = elim (Bool-cases (same n.path p)) [
  | inl is ↦ elim (Bool-cases (same n.path q)) [
    | inl here ↦ rw (is, here) refl
    | inr other ↦ rw (is, other) (change_keeps a p s q)
  ]
  | inr stays ↦ elim (Bool-cases (same n.path q)) [
    | inl here ↦ rw (stays, here) refl
    | inr other ↦ rw (stays, other) (change_keeps a p s q)
  ]
]

pub create_own : (p : List ℕ) (s : List Node) (d : List ℕ × List ℕ) → create p s ≡ ptr d → d.1 ≡ p
create_own p s d h = elim (Option-cases (find_node s p)) [
  | inl missing ↦ ground (arith, missing)
  | inr (st, there) ↦ absurd (ground (arith, there))
]

pub create_errors : (p : List ℕ) (s : List Node) (e : ℤ) → create p s ≡ err_ptr e → is_neg e ≡ true
create_errors p s e h = elim (Option-cases (find_node s p)) [
  | inl missing ↦ absurd (ground (arith, missing))
  | inr (st, there) ↦ ground (arith, there)
]

pub never_refused : true ≡ false → is_neg (pos 0) ≡ true
never_refused h = absurd (cc h)

pub added : (p : List ℕ) (m : ℕ) (c : Creds) (s : List Node) → at_path (add_node p m c s) p ≡ true
added p m c s = rw (same_refl p) refl

pub add_adds :
    (p q : List ℕ) (m : ℕ) (c : Creds) (s : List Node)
    → p ≢ q
    → at_path s q ≡ false
    → at_path (add_node p m c s) q ≡ false
add_adds p q m c s apart h = rw (apart-same p q apart) h

-- `filp_open` of this kernel.
abbrev opened : List ℕ → ℕ → Creds → List Node → List Node
opened p m c s = (memory.filp_open p 0 m c s).1

pub opened_there :
    (p : List ℕ) (m : ℕ) (c : Creds) (s : List Node) → at_path (opened p m c s) p ≡ true
opened_there p m c s = elim (Option-cases (find_node s p)) [
  | inl missing ↦ ground (arith, missing, same_refl p)
  | inr (st, there) ↦ ground (arith, there)
]

pub opened_adds :
    (p q : List ℕ) (m : ℕ) (c : Creds) (s : List Node)
    → p ≢ q
    → at_path s q ≡ false
    → at_path (opened p m c s) q ≡ false
opened_adds p q m c s apart h = elim (Option-cases (find_node s p)) [
  | inl missing ↦ ground (arith, missing, apart-same p q apart)
  | inr (st, there) ↦ ground (arith, there)
]

pub opened_fails :
    (p : List ℕ) (f m : ℕ) (c : Creds) (s : List Node) (e : ℤ)
    → (memory.filp_open p f m c s).0 ≡ err_ptr e
    → is_neg e ≡ true
opened_fails p f m c s e h = elim (Option-cases (find_node s p)) [
  | inl missing ↦ absurd (ground (arith, missing))
  | inr (st, there) ↦ absurd (ground (arith, there))
]

instance abbrev pub places : Vfs ⦃K = memory⦄
places = record {
  Entry = List ℕ;
  entry = λ p. p;
  has = at_path;
  kern_path_finds = look-at_path;
  kern_path_fails = λ p f c. look_fails p;
  kern_path_keeps = λ p f c s e. refl;
  path_put_keeps = λ d s e. refl;
  vfs_getattr_keeps = λ d c s e. refl;
  kmalloc_keeps = λ s e. refl;
}

instance abbrev pub writes : VfsWrites ⦃K = memory⦄ ⦃V = places⦄
writes = record {
  names = λ d. d;
  kern_path_names = λ p f c s d. look_names p s d;
  create_names = λ p f c s d. create_own p s d;
  create_keeps = λ p f c s e. refl;
  security_keeps = λ d d' m c s e. refl;
  done_keeps = λ d d' s e. refl;
  mkdir_adds = λ i d m c s e. add_adds d e m c s;
  creat_makes = λ p m c s f h. opened_there p m c s;
  creat_fails = λ p m c s e. opened_fails p creat_flags m c s e;
  creat_adds = λ p m c s e. opened_adds p e m c s;
  close_keeps = λ f s e. refl;
  unlink_removes = λ i d c s h. removed s d;
  unlink_adds = λ i d c s e. remove_adds s d e;
  unlink_keeps = λ i d c s e. remove_keeps s d e;
  rmdir_adds = λ i d c s e. remove_adds s d e;
  notify_change_keeps = λ d a c s e. change_keeps a d s e;
  dget_keeps = λ d s e. refl;
  dput_keeps = λ d s e. refl;
  lock_keeps = λ i s e. refl;
  unlock_keeps = λ i s e. refl;
  drop_nlinks_keeps = λ i d s e. refl;
  new_inode_keeps = λ s e. refl;
  add_inode_keeps = λ i d i' a s e. refl;
  create_fails = λ p f c s e. create_errors p s e;
  symlink_refused = λ d d' t c s. never_refused;
  symlink_makes = λ i d t c s h. added d 0o120777 c s;
  link_refused = λ o d d' c s. never_refused;
  link_makes = λ o i d c s h. added d 0o100644 c s;
}
