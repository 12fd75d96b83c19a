-- ===== src/Tests/Copies.antt =====
-- The theorem on copies of fs/hepunion/cow.c at a device of the RO branch.
use hepunion.Base.{◌≡◌, ◌⊎◌, refl, ℕ, pos, [], ◌∷◌, arith, false}
use hepunion.Exec.{World}
use hepunion.Tests.Memory.{memory, bytes, branches, stat_of, find_node}
use hepunion.Exec.{
  pure, ◌>>=◌, call, call_, ask, current_fsuid, current_fsgid, push_root, pop_root, as_root,
  kmalloc, kfree, with_buffer, oops, inc, dec,
}
use hepunion.Lookup.{check_exist, get_path_dentry, lstat_retry, lstat}
use hepunion.Attributes.{find_me, find_whiteout, get_file_attr_worker, merge, clear_mode_flags}
use hepunion.Access.{
  match_rights, check_rights, can_access, traverse_loop, traverse_from, can_traverse,
}
use hepunion.Find.{
  find_file_with, find_lower, find_to_copy, check_visible, make_ro_path, make_rw_path,
}
use hepunion.Tree.{find_present, find_path_worker}
use hepunion.Copyup.{
  find_file, create_copyup, create_copyup_at, copyup_with, copy_by_type, finish_copy,
}
use hepunion.Create.{masked, create_node, mknod_in, mknod_retry, mknod}
use hepunion.Workers.{dbg_mknod, on_ro_branch}
use hepunion.SpecialPath.{path_to_special}
use hepunion.CString.{strrchr, strncmp_eq, snprintf}
use hepunion.Names.{is_flag_set}
use hepunion.Copyup.Found.{find_file_copyup}
use hepunion.Tree.Reached.{PtrErrors}
use hepunion.Base.{Option-cases, inl, inr}

abbrev world_of_device : World ⦃K = memory⦄
world_of_device = record {
  kernel =
      record { path = bytes "/rw/d/"; stat = stat_of 0o40777 0 0 }
      ∷ record { path = bytes "/ro/d"; stat = stat_of 0o40777 0 0 }
      ∷ record { path = bytes "/ro/d/a"; stat = stat_of 0o20666 0 0 }
      ∷ [];
  fsuid = 1000;
  fsgid = 100;
  uid = 0;
  gid = 0;
  id_lock = pos 0;
  buffers_in_use = false;
  live = 0;
  bug = false;
}

copied : (find_file ⦃K = memory⦄ branches 3 (bytes "/d/a") [] 1 world_of_device).0.0 ≡ pos 2
unfolding pure ◌>>=◌ call call_ ask current_fsuid current_fsgid push_root pop_root as_root kmalloc
    kfree with_buffer oops inc dec check_exist get_path_dentry lstat_retry lstat find_me
    find_whiteout get_file_attr_worker merge clear_mode_flags match_rights check_rights can_access
    traverse_loop traverse_from can_traverse find_file_with find_lower find_to_copy check_visible
    make_ro_path make_rw_path find_present find_path_worker find_file create_copyup create_copyup_at
    copyup_with copy_by_type finish_copy masked create_node mknod_in mknod_retry mknod dbg_mknod
    on_ro_branch path_to_special strrchr strncmp_eq snprintf is_flag_set
copied = refl

lookup_errors : PtrErrors ⦃K = memory⦄
lookup_errors p f c k e h = elim (Option-cases (find_node k p)) [
  | inl missing ↦ ground (arith, missing)
  | inr (st, there) ↦ absurd (ground (arith, there))
]

find_file_copyup_example :
    let out = (find_file ⦃K = memory⦄ branches 3 (bytes "/d/a") [] 1 world_of_device).0.1 in
    (out ≡ bytes "/rw/d/a") ⊎ ((◌≡◌ {A = ℕ} 2 0) × (out ≡ bytes "/rw/"))
unfolding strrchr
find_file_copyup_example =
    find_file_copyup ⦃K = memory⦄ branches (bytes "d/a") 2 3 [] 1 world_of_device lookup_errors refl
      (omega arith) (omega arith) copied
