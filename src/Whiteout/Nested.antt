-- ===== src/Whiteout/Nested.antt =====
-- fs/hepunion/wh.c, `is_empty_dir`: `push_root` and `pop_root` around calls that use them again.
use hepunion.Base.{ℕ, ◌≤◌, ◌≡◌, refl, is_neg, true, false, ptr, none, some, List, []}
use hepunion.Base.{◌∷◌, ◌++◌, arith, length, path_max}
use hepunion.Kernel.{Kernel, Dirent, Creds}
use hepunion.Exec.{
  World, pure, ◌>>=◌, call, call_, push_root, pop_root, as_root, with_buffer, kmalloc,
}
use hepunion.Exec.{kfree, ask}
use hepunion.Names.{Special, is_special}
use hepunion.SpecialPath.{Branches, path_to_special}
use hepunion.CString.{snprintf}
use hepunion.Lookup.{check_exist}
use hepunion.Attributes.{find_whiteout}
use hepunion.Workers.{dbg_open, o_rdonly}
use hepunion.Whiteout.{each, vfs_readdir, check_whiteout, is_empty_dir, is_empty_upper}

module _ ⦃K : Kernel⦄ where
  record IsRoot (w : World) : Type 0 where
    fsuid : w.fsuid ≡ 0
    fsgid : w.fsgid ≡ 0

  -- The identity of root, saved over the caller's.
  record IsLost (w : World) : Type 0 where
    fsuid : w.fsuid ≡ 0
    fsgid : w.fsgid ≡ 0
    uid : w.uid ≡ 0
    gid : w.gid ≡ 0

  check_exist-IsLost :
      (pathname : List ℕ) (flag : ℕ) (w : World) → IsRoot w → IsLost (check_exist pathname flag w).1
  unfolding check_exist ◌>>=◌ as_root push_root pop_root call call_ pure
  check_exist-IsLost pathname flag w h = ground arith

module _ ⦃K : Kernel⦄ (b : Branches) where
  find_whiteout-IsLost :
      (path out : List ℕ) (w : World)
      → is_neg (path_to_special path Special.wh b out).0 ≡ false
      → IsRoot w
      → IsLost (find_whiteout b path out w).1
  unfolding find_whiteout ◌>>=◌ pure
  find_whiteout-IsLost path out w h r =
      rw h (check_exist-IsLost (path_to_special path Special.wh b out).1 0 w r)

  find_whiteout_keeps :
      (path out : List ℕ) (w : World) → IsLost w → IsLost (find_whiteout b path out w).1
  unfolding find_whiteout ◌>>=◌ pure
  find_whiteout_keeps path out w l =
      let (err, out') = path_to_special path Special.wh b out in
      ground (arith, check_exist-IsLost out' 0 w (record { fsuid = l.fsuid; fsgid = l.fsgid }))

  check_whiteout_keeps :
      (dir : List ℕ) (e : Dirent) (w : World) → IsLost w → IsLost (check_whiteout b dir e w).1
  unfolding check_whiteout ◌>>=◌ pure with_buffer kmalloc kfree snprintf
  check_whiteout_keeps dir e w l =
      let v : World = (kmalloc (kmalloc w).1).1 in
      ground (arith, find_whiteout_keeps (snprintf (dir ++ e.name)).1 [] v)

  each_keeps :
      (dir : List ℕ) (es : List Dirent) (w : World)
      → IsLost w
      → IsLost (each (check_whiteout b dir) es w).1
  unfolding each ◌>>=◌ pure
  each_keeps dir [] w l = l
  each_keeps dir (e ∷ es) w l =
      let step = check_whiteout b dir e w in
      let kept = check_whiteout_keeps dir e w l in
      ground (arith, kept, each_keeps dir es step.1 kept)

  check_whiteout-IsLost :
      (dir : List ℕ) (e : Dirent) (w : World)
      → ((k : K.State) → (K.kmalloc k).0 ≡ true)
      → is_special e.name ≡ false
      → length (dir ++ e.name) ≤ path_max
      → is_neg (path_to_special (snprintf (dir ++ e.name)).1 Special.wh b []).0 ≡ false
      → IsRoot w
      → IsLost (check_whiteout b dir e w).1
  unfolding check_whiteout ◌>>=◌ pure with_buffer kmalloc kfree snprintf
  check_whiteout-IsLost dir e w memory ordinary fits named r =
      let v : World = (kmalloc (kmalloc w).1).1 in
      ground (
        arith,
        memory w.kernel,
        memory (K.kmalloc w.kernel).1,
        find_whiteout-IsLost (snprintf (dir ++ e.name)).1 [] v,
      )

  -- Where the RO directory can be opened and its first entry is neither `.` nor `..`, where
  -- memory and the lengths of names allow to look for the whiteout of that entry, `is_empty_dir`
  -- on the RO branch alone returns with root as the file system identity, whoever called it.
  pub is_empty_dir_keeps_root :
      (path ro_path : List ℕ) (file : K.File) (e : Dirent) (es : List Dirent)
      → ((k : K.State) → (K.kmalloc k).0 ≡ true)
      → ((c : Creds) (k : K.State) → (K.filp_open ro_path o_rdonly 0 c k).0 ≡ ptr file)
      → ((c : Creds) (k : K.State) → (K.dir_entries file c k).0 ≡ e ∷ es)
      → is_special e.name ≡ false
      → length (path ++ e.name) ≤ path_max
      → is_neg (path_to_special (snprintf (path ++ e.name)).1 Special.wh b []).0 ≡ false
      → (w : World)
      → ((is_empty_dir b path (some ro_path) none w).1.fsuid ≡ 0)
        × ((is_empty_dir b path (some ro_path) none w).1.fsgid ≡ 0)
  unfolding is_empty_dir is_empty_upper vfs_readdir each dbg_open ◌>>=◌ pure ask call push_root
      pop_root
  is_empty_dir_keeps_root path ro_path file e es memory opens lists ordinary fits named w =
      let c : Creds = record { fsuid = w.fsuid; fsgid = w.fsgid } in
      let v : World =
        (push_root (record w { kernel = (K.filp_open ro_path o_rdonly 0 c w.kernel).1 })).1 in
      let entered : World = (call (K.dir_entries file) v).1 in
      let lost =
        check_whiteout-IsLost path e entered memory ordinary fits named
          (record { fsuid = refl; fsgid = refl }) in
      let rest = each_keeps path es (check_whiteout b path e entered).1 lost in
      rw (opens c w.kernel)
        (rw (lists (record { fsuid = 0; fsgid = 0 }) v.kernel) (ground (arith, lost, rest)))
