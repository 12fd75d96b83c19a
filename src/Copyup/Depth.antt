-- ===== src/Copyup/Depth.antt =====
-- fs/hepunion/cow.c: the depth of the recursion of `create_copyup` through `copy_child`.
use hepunion.Base.{
  ℕ, zero, suc, ◌+◌, ◌-◌, ◌≤◌, ◌<◌, ◌≡◌, refl, ap, sym, ◌∙◌, ℤ, true, false, List, [], ◌∷◌, ◌++◌,
}
use hepunion.Base.{arith, length, ltb, path_max, take, length-append, Bool-cases, inl, inr, ltb→le}
use hepunion.Kernel.{Kernel, Dirent, Creds}
use hepunion.Exec.{World, M, ◌>>=◌, call}
use hepunion.CString.{snprintf}
use hepunion.Names.{slash}
use mathlib.Core.Path.{fun_ext}
use hepunion.SpecialPath.{Branches}
use hepunion.Whiteout.{each, vfs_readdir}
use hepunion.Copyup.{copyup_with, copy_child, create_copyup_at, create_copyup}

-- Every entry has a name.
abbrev AllNamed : List Dirent → Type 0
AllNamed [] = Unit
AllNamed (e ∷ es) = (ltb 0 (length e.name) ≡ true) × AllNamed es

lt-take : (n : ℕ) (xs : List ℕ) (k : ℕ) → k < n → k < length xs → k < length (take n xs)
lt-take zero xs k a c = absurd (omega arith)
lt-take (suc n) [] k a c = absurd (omega arith)
lt-take (suc n) (x ∷ xs) zero a c = omega arith
lt-take (suc n) (x ∷ xs) (suc k) a c =
    let rest = lt-take n xs k (omega arith) (omega arith) in omega (arith, rest)

-- The path of an entry, where it is not refused for its length, is longer than its directory's.
child_longer :
    (path name : List ℕ)
    → ltb 0 (length name) ≡ true
    → ltb path_max (snprintf (path ++ slash ∷ name)).0 ≡ false
    → (length path < path_max - 1) × (length path < length (snprintf (path ++ slash ∷ name)).1)
unfolding snprintf
child_longer path name named fits =
    let len = length-append path (slash ∷ name) in
    let short = ltb→le path_max (length (path ++ slash ∷ name)) fits in
    let some_name : 1 ≤ length name = ground arith in
    (
      omega (arith, len, short, some_name),
      lt-take (path_max - 1) (path ++ slash ∷ name) (length path)
          (omega (arith, len, short, some_name)) (omega (arith, len)),
    )

-- A name for a number that stays shut.
pub shut_number : (n : ℕ) → (m : ℕ) × (n ≡ m)
shut_number n = (n, refl)

module _ ⦃K : Kernel⦄ where
  each_agree :
      (f g : Dirent → M ℤ) (es : List Dirent)
      → ((e : Dirent) → ltb 0 (length e.name) ≡ true → f e ≡ g e)
      → AllNamed es
      → each f es ≡ each g es
  unfolding each
  each_agree f g [] same named = refl
  each_agree f g (e ∷ es) same named = rw (same e named.0, each_agree f g es same named.1) refl

  vfs_readdir_agree :
      (f g : Dirent → M ℤ) (file : K.File)
      → ((c : Creds) (k : K.State) → AllNamed (K.dir_entries file c k).0)
      → ((e : Dirent) → ltb 0 (length e.name) ≡ true → f e ≡ g e)
      → (w : World) → vfs_readdir file f w ≡ vfs_readdir file g w
  unfolding vfs_readdir ◌>>=◌ call
  vfs_readdir_agree f g file named same w =
      let c : Creds = record { fsuid = w.fsuid; fsgid = w.fsgid } in
      rw (each_agree f g (K.dir_entries file c w.kernel).0 same (named c w.kernel)) refl

module _ ⦃K : Kernel⦄ (b : Branches) (rounds : ℕ) where
  child_agree :
      (f g : List ℕ → List ℕ → List ℕ → M (ℤ × List ℕ)) (path ro_path : List ℕ) (e : Dirent)
      → ltb 0 (length e.name) ≡ true
      → ((p r : List ℕ) → length path < path_max - 1 → length path < length p → f p r [] ≡ g p r [])
      → copy_child b rounds f path ro_path e ≡ copy_child b rounds g path ro_path e
  unfolding copy_child
  child_agree f g path ro_path e named same =
      let child = snprintf (path ++ slash ∷ e.name) in
      let ro_child = snprintf (ro_path ++ slash ∷ e.name) in
      elim (Bool-cases (ltb path_max child.0)) [
        | inl long ↦ rw long refl
        | inr short ↦
            let (below, longer) = child_longer path e.name named short in
            rw (same child.1 ro_child.1 below longer) refl
      ]

  deeper_agrees :
      (d : ℕ) (path ro_path rw_path : List ℕ)
      → ((f : K.File) (c : Creds) (k : K.State) → AllNamed (K.dir_entries f c k).0)
      → ((p r : List ℕ)
          → length path < path_max - 1
          → length path < length p
          → create_copyup_at b rounds d p r [] ≡ create_copyup_at b rounds (suc d) p r [])
      → create_copyup_at b rounds (suc d) path ro_path rw_path
        ≡ create_copyup_at b rounds (suc (suc d)) path ro_path rw_path
  unfolding create_copyup_at
  deeper_agrees d path ro_path rw_path named same =
      ap (λ children. copyup_with b rounds children path ro_path rw_path)
        (fun_ext λ fd. fun_ext (
          vfs_readdir_agree _ _ fd (named fd) λ e some_name.
            child_agree (create_copyup_at b rounds d) (create_copyup_at b rounds (suc d)) path
              ro_path e some_name same))

  depth_agrees :
      (d : ℕ) (path ro_path rw_path : List ℕ)
      → ((f : K.File) (c : Creds) (k : K.State) → AllNamed (K.dir_entries f c k).0)
      → path_max - 1 ≤ d + length path
      → create_copyup_at b rounds (suc d) path ro_path rw_path
        ≡ create_copyup_at b rounds (suc (suc d)) path ro_path rw_path
  depth_agrees zero path ro_path rw_path named deep =
      deeper_agrees zero path ro_path rw_path named λ p r below longer. absurd (omega arith)
  depth_agrees (suc d) path ro_path rw_path named deep =
      deeper_agrees (suc d) path ro_path rw_path named
        λ p r below longer. depth_agrees d p r [] named (omega arith)

  above_agrees :
      (extra m : ℕ) (path ro_path rw_path : List ℕ)
      → ((f : K.File) (c : Creds) (k : K.State) → AllNamed (K.dir_entries f c k).0)
      → path_max - 1 ≤ m
      → create_copyup_at b rounds (suc m) path ro_path rw_path
        ≡ create_copyup_at b rounds (suc (extra + m)) path ro_path rw_path
  above_agrees zero m path ro_path rw_path named deep =
      ap (λ n. create_copyup_at b rounds (suc n) path ro_path rw_path) (omega arith)
  above_agrees (suc extra) m path ro_path rw_path named deep =
      above_agrees extra m path ro_path rw_path named deep
      ∙ depth_agrees (extra + m) path ro_path rw_path named (omega arith)
      ∙ ap (λ n. create_copyup_at b rounds (suc n) path ro_path rw_path) (omega arith)

  pub create_copyup-bound :
      (m : ℕ) → suc (suc path_max) ≡ m → create_copyup b rounds ≡ create_copyup_at b rounds m
  unfolding create_copyup
  create_copyup-bound m h = ap (create_copyup_at b rounds) h

  bounds_agree :
      (d top : ℕ) (path ro_path rw_path : List ℕ)
      → ((f : K.File) (c : Creds) (k : K.State) → AllNamed (K.dir_entries f c k).0)
      → path_max ≤ d
      → path_max ≤ top
      → create_copyup_at b rounds d path ro_path rw_path
        ≡ create_copyup_at b rounds top path ro_path rw_path
  bounds_agree zero top path ro_path rw_path named deep high = absurd (omega arith)
  bounds_agree (suc d) zero path ro_path rw_path named deep high = absurd (omega arith)
  bounds_agree (suc d) (suc top) path ro_path rw_path named deep high =
      above_agrees top d path ro_path rw_path named (omega arith)
      ∙ ap (λ n. create_copyup_at b rounds (suc n) path ro_path rw_path) (omega arith)
      ∙ sym (above_agrees d top path ro_path rw_path named (omega arith))

  -- Where every entry of every directory has a name, every bound on the depth of at least
  -- `path_max` directories gives the result of `create_copyup`, which so never reaches its own.
  pub create_copyup_at-enough :
      (depth : ℕ) (path ro_path rw_path : List ℕ)
      → ((f : K.File) (c : Creds) (k : K.State) → AllNamed (K.dir_entries f c k).0)
      → path_max ≤ depth
      → create_copyup_at b rounds depth path ro_path rw_path
        ≡ create_copyup b rounds path ro_path rw_path
  create_copyup_at-enough depth path ro_path rw_path named deep =
      let (top, is_top) = shut_number (suc (suc path_max)) in
      bounds_agree depth top path ro_path rw_path named deep (omega (arith, is_top))
      ∙ ap (λ f. f path ro_path rw_path) (sym (create_copyup-bound top is_top))
