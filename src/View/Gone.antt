-- ===== src/View/Gone.antt =====
-- fs/hepunion/cow.c and helpers.c: the directories that `find_path` makes leave the place of the file
-- itself alone, and `unlink` makes nothing.
use hepunion.Base.{
  ℕ, zero, suc, ◌+◌, ◌-◌, ◌<◌, ◌≡◌, ◌≢◌, ap, sym, ◌∙◌, pos, is_neg, is_zero, ptr, none, some, List,
  [], ◌∷◌, ◌++◌, ◌==◌, Bool-cases, inl, inr, length-append, take-append, path_max, arith, length,
  take, drop, if◌then◌else◌,
}
use hepunion.Kernel.{Kernel, Kstat}
use hepunion.Exec.{World, pure, ◌>>=◌, call, as_root, push_root, pop_root}
use hepunion.Names.{slash}
use hepunion.SpecialPath.{Branches}
use hepunion.Lookup.{get_path_dentry, lookup_reval, lookup_directory}
use hepunion.Create.{if_allowed, mkdir_retry, mkdir}
use hepunion.Workers.{dbg_mkdir}
use hepunion.CString.{strrchr, snprintf}
use hepunion.Base.{ltb}
use hepunion.Base.Errno.{enametoolong}
use hepunion.Tree.RealPath.{branch_short}
use hepunion.Tree.{
  is_read_write, make_directory, tree_loop, make_tree, find_path_worker, find_path_null,
}
use hepunion.View.{Vfs, root}
use hepunion.View.Writes.{VfsWrites}
use hepunion.View.Kept.{
  IsKept, IsKept-bind, IsKept-pure, IsKept-on_ptr, IsKept-root_call, IsKept-call, IsKept-call_,
}
use hepunion.View.Looks.{lstat-IsKept, find_present-IsKept}
use hepunion.View.Absent.{
  StaysOut, IsKept→Stays, Stays-pure, Stays-ask, Stays-oops, Stays-call, Stays-call_, Stays-bind,
  Stays-bind_of, Stays-if, Stays-on_ptr, Stays-on_option, Stays-as_root, Stays-with_buffer,
  Stays-push_root, Stays-pop_root,
}
use mathlib.Core.List.{append_assoc}
use Prim.Native.Nat.{bit_or}

module _ ⦃K : Kernel⦄ ⦃V : Vfs⦄ ⦃W : VfsWrites⦄ where
  pub create_found :
      (p : List ℕ) (f : ℕ) (w : World) (d : K.Dentry × K.Dentry)
      → (as_root (call (K.kern_path_create p f)) w).0 ≡ ptr d
      → W.names d.1 ≡ V.entry p
  unfolding as_root push_root pop_root call ◌>>=◌ pure
  create_found p f w d h = W.create_names p f root w.kernel d h

  pub get_path_dentry-IsKept : (p : List ℕ) (flag : ℕ) → IsKept (get_path_dentry p flag)
  unfolding get_path_dentry
  get_path_dentry-IsKept p flag =
      let look : IsKept (as_root (call (K.kern_path p flag))) =
        IsKept-root_call _ (V.kern_path_keeps p flag) in
      IsKept-bind _ _ look λ found.
        IsKept-on_ptr found _ _
          (λ d.
            IsKept-bind _ _ (IsKept-call_ _ (W.dget_keeps d))
              λ u. IsKept-bind _ _ (IsKept-call_ _ (V.path_put_keeps d)) λ u'. IsKept-pure _)
          (λ e. IsKept-pure _)

module _ ⦃K : Kernel⦄ ⦃V : Vfs⦄ ⦃W : VfsWrites⦄ {t : V.Entry} where
  mkdir_retry-StaysOut :
      (rounds lookup_flags : ℕ) (p : List ℕ) (mode : ℕ)
      → V.entry p ≢ t
      → StaysOut t (mkdir_retry rounds lookup_flags p mode)
  unfolding mkdir_retry if_allowed
  mkdir_retry-StaysOut zero lookup_flags p mode apart = Stays-pure none
  mkdir_retry-StaysOut (suc rounds) lookup_flags p mode apart =
      Stays-bind_of (λ found. (d : K.Dentry × K.Dentry) → found ≡ ptr d → W.names d.1 ≡ V.entry p) _
        _ (IsKept→Stays _ (IsKept-root_call _ (W.create_keeps p lookup_flags)))
        (λ w d h. create_found p lookup_flags w d h)
        λ found named.
          Stays-on_ptr found _ _
            (λ d is.
              let own = named d is in
              Stays-bind _ _ (Stays-ask _) λ dir. Stays-bind _ _ (Stays-ask _) λ umask.
                Stays-bind _ _
                  (Stays-as_root _ (
                    Stays-bind _ _ (IsKept→Stays _ (IsKept-call _ (W.security_keeps d.0 d.1 _)))
                      λ err.
                        Stays-if (is_zero err) _ _
                          (Stays-call _
                            λ c s. W.mkdir_adds dir d.1 _ c s t (λ h. apart (sym own ∙ h)))
                          (Stays-pure err)))
                  λ error. Stays-bind _ _ (Stays-call_ _ (W.done_keeps d.0 d.1)) λ u.
                    Stays-if (K.retry_estale error lookup_flags) _ _
                      (mkdir_retry-StaysOut rounds (bit_or lookup_flags lookup_reval) p _ apart)
                      (Stays-pure (some error)))
            (λ e. Stays-pure (some e))

  mkdir-StaysOut : (p : List ℕ) (mode : ℕ) → V.entry p ≢ t → StaysOut t (mkdir p mode)
  unfolding mkdir
  mkdir-StaysOut p mode apart =
      Stays-bind _ _ (mkdir_retry-StaysOut 2 lookup_directory p mode apart)
        λ out. Stays-on_option out _ _ (Stays-pure _) λ e. Stays-pure e

module _ ⦃K : Kernel⦄ ⦃V : Vfs⦄ ⦃W : VfsWrites⦄ (b : Branches) {t : V.Entry} where
  make_directory-StaysOut :
      (ro real : List ℕ) → V.entry real ≢ t → StaysOut t (make_directory b ro real)
  unfolding make_directory dbg_mkdir
  make_directory-StaysOut ro real apart =
      let look = λ (p : List ℕ) (st : Kstat). IsKept→Stays {t = t} _ (lstat-IsKept p st) in
      Stays-bind _ _ (look _ _) λ here.
        Stays-if (is_neg here.0) _ _
          (Stays-bind _ _ (look _ _) λ old. Stays-if (is_neg old.0) _ _ (Stays-pure _) (
            Stays-bind _ _ (Stays-if _ _ _ (Stays-pure _) (mkdir-StaysOut real _ apart)) λ made.
              Stays-if (is_neg made) _ _ (Stays-pure _) (
                Stays-bind _ _ (IsKept→Stays _ (get_path_dentry-IsKept _ _)) λ found.
                  Stays-on_ptr found _ _
                    (λ d is.
                      let put = Stays-call_ {t = t} (K.dput d) (W.dput_keeps d) in
                      Stays-bind _ _ Stays-push_root λ u.
                        Stays-bind _ _ (IsKept→Stays _ (IsKept-call _ (W.notify_change_keeps d _)))
                          λ err.
                            Stays-if (is_neg err) _ _
                              (Stays-bind _ _ (Stays-ask _) λ parent.
                                Stays-bind _ _
                                  (Stays-on_option parent _ _ (Stays-oops _)
                                    λ dir. Stays-call _ λ c s h. W.rmdir_adds dir d c s t h)
                                  λ gone. Stays-bind _ _ put λ u. Stays-pure _)
                              (Stays-bind _ _ put
                                λ u. Stays-bind _ _ Stays-pop_root λ u'. Stays-pure _))
                    (λ e. Stays-pure _))))
          (Stays-bind _ _ Stays-pop_root λ u. Stays-pure none)

  -- `whole` is the path that the loop walks through; no directory above it is the place `t`.
  tree_loop-StaysOut :
      (whole ro real segment rest : List ℕ)
      → ((n : ℕ) → n < length whole → V.entry (take n whole) ≢ t)
      → real ++ (segment ++ rest) ≡ whole
      → StaysOut t (tree_loop b ro real segment rest)
  unfolding tree_loop
  tree_loop-StaysOut whole ro real segment [] apart at = Stays-pure _
  tree_loop-StaysOut whole ro real segment (c ∷ rest) apart at = elim (Bool-cases (c == slash)) [
    | inr other ↦ rw other (
        tree_loop-StaysOut whole ro real (segment ++ c ∷ []) rest apart
          (ap (λ r. real ++ r) (append_assoc segment (c ∷ []) rest) ∙ at))
    | inl here ↦
        let is : c ≡ slash = ground (arith, here) in
        let above = append_assoc real segment (c ∷ rest) ∙ at in
        let len = ap length above in
        let there =
          apart (length (real ++ segment))
            (omega (arith, len, length-append (real ++ segment) (c ∷ rest))) in
        let prefix : take (length (real ++ segment)) whole ≡ real ++ segment =
          rw (← above) (take-append (real ++ segment) (c ∷ rest)) in
        let next =
          tree_loop-StaysOut whole (ro ++ segment) (real ++ segment) (slash ∷ []) rest apart
            (ap (λ x. (real ++ segment) ++ x ∷ rest) (sym is) ∙ above) in
        rw here (
          Stays-bind _ _ (make_directory-StaysOut _ _ (rw (← prefix) there))
            λ left. Stays-on_option left _ _ next λ err. Stays-pure _)
  ]

  -- For a path below its first slash.
  make_tree-StaysOut :
      (p : List ℕ) (last : ℕ) (real_path : List ℕ)
      → length b.read_write_branch + 1 < path_max
      → ((n : ℕ)
          → n < length (b.read_write_branch ++ slash ∷ p)
          → V.entry (take n (b.read_write_branch ++ slash ∷ p)) ≢ t)
      → StaysOut t (make_tree b (slash ∷ p) last real_path)
  unfolding make_tree
  make_tree-StaysOut p last real_path fits apart =
      let rw' = b.read_write_branch in
      let whole = (branch_short b rw' fits).0 in
      let cut = λ (s : List ℕ). take (path_max - 1) (s ++ slash ∷ []) in
      let walked : StaysOut t (tree_loop b (cut b.read_only_branch) (cut rw') [] p) = rw whole (
        tree_loop-StaysOut (rw' ++ slash ∷ p) _ (rw' ++ slash ∷ []) [] p apart
          (append_assoc rw' (slash ∷ []) p)) in
      let rw_n = snprintf (rw' ++ slash ∷ []) in
      let ro_n = snprintf (b.read_only_branch ++ slash ∷ []) in
      Stays-if (ltb path_max rw_n.0) (pure (enametoolong, rw_n.1)) _ (Stays-pure _) (
        Stays-if (ltb path_max ro_n.0) (pure (enametoolong, rw_n.1)) _ (Stays-pure _) (
          Stays-if (last == 0) (pure (pos 0, rw_n.1)) _ (Stays-pure _) (
            Stays-bind _ _ walked λ made.
              Stays-pure
                (made.0, if is_neg made.0 then made.1 else made.1 ++ drop last (slash ∷ p)))))

  pub find_path_null-StaysOut :
      (p : List ℕ)
      → length b.read_write_branch + 1 < path_max
      → ((n : ℕ)
          → n < length (b.read_write_branch ++ slash ∷ p)
          → V.entry (take n (b.read_write_branch ++ slash ∷ p)) ≢ t)
      → StaysOut t (find_path_null b (slash ∷ p))
  unfolding find_path_null find_path_worker
  find_path_null-StaysOut p fits apart = Stays-with_buffer _ _ (
      Stays-bind _ _
        (Stays-on_option (strrchr (slash ∷ p) slash) _ _ (Stays-pure _) λ last.
          Stays-with_buffer _ _ (
            Stays-with_buffer _ _ (
              Stays-with_buffer _ _ (
                Stays-bind _ _
                  (IsKept→Stays _ (find_present-IsKept b (take (suc last) (slash ∷ p)) [] 0))
                  λ present.
                    Stays-if (is_read_write present.0) _ _ (Stays-pure _)
                      (make_tree-StaysOut p last [] fits apart)))))
        λ found. Stays-pure _)
