-- ===== src/View/Cleared.antt =====
-- fs/hepunion/wh.c, `unlink_rw_file` removes the file of the RW branch.
use hepunion.Base.{
  ℕ, ◌+◌, ◌<◌, ◌≡◌, refl, is_neg, is_zero, Bool, false, List, [], ◌∷◌, ◌++◌, length, path_max,
}
use hepunion.Base.Errno.{enomem}
use hepunion.Kernel.{Kernel}
use hepunion.Names.{slash}
use hepunion.SpecialPath.{Branches}
use hepunion.Workers.{dbg_creat, on_ro_branch}
use hepunion.Whiteout.{create_whiteout_worker, root_owned}
use hepunion.Hiding.{create_whiteout, remove_rw, unlink_rw_file}
use hepunion.View.{Vfs, IsNamed}
use hepunion.View.Writes.{VfsWrites}
use hepunion.View.Kept.{IsKept-call}
use hepunion.View.Absent.{
  StaysOut, IsKept→Stays, Stays-pure, Stays-ask, Stays-oops, Stays-bind, Stays-if, Stays-on_ptr,
  Stays-on_option, Stays-call, Stays-call_, Stays-as_root, Stays-push_root, Stays-pop_root,
}
use hepunion.View.Gone.{find_path_null-StaysOut}
use hepunion.View.Removed.{unlink-removes}
use hepunion.View.Hides.{IsApart}
use hepunion.View.Ends.{
  Ends, Ends-fails, Ends-bind, Ends-into, Ends-from, Ends-stays, Ends-unless_neg, Ends-with_buffer,
  Ends-on_option,
}

module _ ⦃K : Kernel⦄ ⦃V : Vfs⦄ ⦃W : VfsWrites⦄ (b : Branches) (p wh_path : List ℕ)
    (named : IsNamed b (slash ∷ p) wh_path) (apart : IsApart b p wh_path)
    (fits : length b.read_write_branch + 1 < path_max) where
  abbrev rw_path : List ℕ
  rw_path = b.read_write_branch ++ slash ∷ p

  abbrev pub IsGone : K.State → Type 0
  IsGone s = V.has s (V.entry rw_path) ≡ false

  abbrev pub Anywhere : K.State → Type 0
  Anywhere s = Unit

  dbg_creat-StaysOut : (mode : ℕ) → StaysOut (V.entry rw_path) (dbg_creat b wh_path mode)
  unfolding dbg_creat
  dbg_creat-StaysOut mode =
      Stays-if (on_ro_branch b wh_path) _ _ (Stays-pure _)
        (Stays-call _ λ c s. W.creat_adds wh_path mode c s _ apart.whiteout)

  create_whiteout_worker-StaysOut : StaysOut (V.entry rw_path) (create_whiteout_worker b wh_path)
  unfolding create_whiteout_worker
  create_whiteout_worker-StaysOut = Stays-bind _ _ (dbg_creat-StaysOut 0o400) λ opened.
      Stays-on_ptr opened _ _
        (λ fd is.
          let d = K.f_dentry fd in
          Stays-bind _ _
            (Stays-as_root _ (IsKept→Stays _ (IsKept-call _ (W.notify_change_keeps d root_owned))))
            λ err. Stays-if (is_zero err) _ _ (Stays-pure err) (
              Stays-bind _ _ (Stays-call_ _ (W.dget_keeps d)) λ u.
                Stays-bind _ _ Stays-push_root λ u.
                  Stays-bind _ _
                    (IsKept→Stays _ (IsKept-call (λ c. K.filp_close fd) (λ c. W.close_keeps fd)))
                    λ closed. Stays-bind _ _ (Stays-ask _) λ parent.
                      Stays-bind _ _
                        (Stays-on_option parent _ _ (Stays-oops _)
                          λ dir. Stays-call _ λ c s h. W.unlink_adds dir d c s _ h)
                        λ gone.
                          Stays-bind _ _ Stays-pop_root λ u.
                            Stays-bind _ _ (Stays-call_ _ (W.dput_keeps d)) λ u. Stays-pure err))
        (λ e. Stays-pure e)

  create_whiteout-StaysOut : StaysOut (V.entry rw_path) (create_whiteout b (slash ∷ p) [])
  unfolding create_whiteout
  create_whiteout-StaysOut = rw named.marked (
      Stays-bind _ _ (find_path_null-StaysOut b p fits apart.above) λ found.
        Stays-if (is_neg found) _ _ (Stays-pure _)
          (Stays-bind _ _ create_whiteout_worker-StaysOut λ made. Stays-pure _))

  remove_rw-Ends : (hidden : Bool) → Ends Anywhere IsGone (remove_rw b (slash ∷ p) rw_path hidden)
  unfolding remove_rw
  remove_rw-Ends hidden =
      Ends-bind _ _ (λ w h. tt)
        λ allowed. Ends-unless_neg allowed _ λ may.
          Ends-into (λ err s. is_neg err ≡ false → IsGone s) _ _ (λ w h. unlink-removes rw_path w)
            λ err. Ends-unless_neg err _ λ ok.
              Ends-from IsGone _ (λ s gone. gone ok)
                (Ends-stays _
                  (Stays-if hidden _ _
                    (Stays-bind _ _ create_whiteout-StaysOut λ made. Stays-pure _)
                    (Stays-pure _)).at)

  pub unlink_rw_file-Ends : Ends Anywhere IsGone (unlink_rw_file b (slash ∷ p) rw_path false)
  unfolding unlink_rw_file
  unlink_rw_file-Ends =
      Ends-bind _ _ (λ w h. tt)
        λ looked.
          Ends-on_option looked _ _ (Ends-fails enomem refl)
            λ found. Ends-with_buffer _ (λ s h. tt) (remove_rw-Ends found)
