-- ===== src/Tests/Shown.antt =====
-- The theorems on what the union shows at concrete inputs.
use hepunion.Base.{
  ℕ, ◌≡◌, refl, ap, pos, is_neg, true, none, some, List, [], ◌∷◌, arith, length, length-take,
}
use hepunion.Exec.{World}
use hepunion.CString.{strrchr, strncmp_eq, snprintf}
use hepunion.Names.{is_flag_set}
use hepunion.SpecialPath.{path_to_special}
use hepunion.SpecialPath.Bytes.{c_string}
use hepunion.Exec.{
  pure, ◌>>=◌, call, call_, ask, current_fsuid, current_fsgid, push_root, pop_root, as_root,
  kmalloc, kfree, with_buffer, oops, inc, dec, will_use_buffers, release_buffers,
}
use hepunion.Lookup.{check_exist, get_path_dentry, lstat_retry, lstat}
use hepunion.Attributes.{find_me, find_whiteout, get_file_attr_worker, merge, clear_mode_flags}
use hepunion.Access.{
  match_rights, check_rights, can_access, can_remove, traverse_loop, traverse_from, can_traverse,
}
use hepunion.Find.{
  read_only, find_file_with, find_lower, find_read_only, check_visible, make_ro_path, make_rw_path,
}
use hepunion.Tree.{find_present, find_path_worker, find_path_null, make_tree}
use hepunion.Workers.{on_ro_branch, dbg_creat}
use hepunion.Whiteout.{create_whiteout_worker}
use hepunion.Hiding.{create_whiteout}
use hepunion.Paths.{
  get_relative_path_for_file, get_inode_path, get_full_path_i, alias_loop, get_full_path_d,
  relative, path_loop,
}
use hepunion.Ops.{in_buffers, validate_both, validate_inode, validate_dentry}
use hepunion.Ops.Remove.{hepunion_unlink, unlink_by_branch, unlink_ro_file, cover}
use hepunion.View.{IsNamed, union_lookup}
use hepunion.View.Hides.{IsApart}
use hepunion.View.Found.{Answers, find_present-Answers}
use hepunion.View.Kept.{SameView}
use hepunion.Ops.{fill_inode}
use hepunion.Ops.Make.{hepunion_create, for_new_name, create_file, add_inode}
use hepunion.Whiteout.{unlink_whiteout}
use hepunion.Lookup.{unlink, remove_by}
use hepunion.Create.{mkdir, mkdir_retry, if_allowed, masked}
use hepunion.Workers.{dbg_mkdir}
use hepunion.Tree.{tree_loop, make_directory}
use hepunion.Find.{read_write}
use hepunion.View.Created.{find_present-hepunion_create}
use hepunion.Hiding.{unlink_rw_file, has_ro, remove_rw}
use hepunion.View.Upper.{union_lookup-hepunion_unlink}
use hepunion.Base.{false, ◌≢◌}
use hepunion.View.{ro_lookup}
use hepunion.Tests.Places.{at_path}
use hepunion.Ops.Make.{hepunion_link, make_link, link_to}
use hepunion.Create.{symlink, symlink_retry}
use hepunion.Workers.{dbg_symlink}
use hepunion.Paths.{get_dentry_path}
use hepunion.Base.{inr}
use hepunion.View.Linked.{union_lookup-linked}
use hepunion.Ops.Rmdir.{union_lookup-hepunion_rmdir, looked}
use hepunion.Ops.Remove.{hepunion_rmdir}
use hepunion.Base.{◌⊎◌}
use hepunion.View.Found.{IsDenied}
use hepunion.View.Unlinked.{find_present-hepunion_unlink}
use hepunion.Tests.Memory.{memory, bytes, branches, stat_of, world}
use hepunion.Tests.Places.{places, writes}

abbrev world_of_files : World ⦃K = memory⦄
world_of_files = record world {
  kernel =
      record { path = bytes "/ro"; stat = stat_of 0o40777 0 0 }
      ∷ record { path = bytes "/ro/a"; stat = stat_of 0o100644 0 0 }
      ∷ [];
}

named : IsNamed branches (bytes "/a") (bytes "/rw/.wh.a")
unfolding path_to_special strrchr
named = record { rw_fits = omega arith; ro_fits = omega arith; marked = refl }

apart : IsApart ⦃K = memory⦄ ⦃V = places⦄ branches (bytes "a") (bytes "/rw/.wh.a")
apart = record {
  whiteout = λ h. absurd (ground arith);
  above =
      λ n lt h. absurd (omega (arith, length-take n (bytes "/rw/a") (omega arith), ap length h));
}

named_a :
    (old : List ℕ) (w : World ⦃K = memory⦄)
    → (get_relative_path_for_file ⦃K = memory⦄ branches (bytes "/") (bytes "/a") old true w).0
      ≡ (pos 0, bytes "/a")
unfolding get_relative_path_for_file get_inode_path get_full_path_i alias_loop get_full_path_d
    path_loop relative c_string with_buffer kmalloc kfree ◌>>=◌ pure ask
named_a old w = refl

unlinked : (hepunion_unlink ⦃K = memory⦄ branches (bytes "/") (bytes "/a") world_of_files).0 ≡ pos 0
unfolding pure ◌>>=◌ call call_ ask current_fsuid current_fsgid push_root pop_root as_root kmalloc
    kfree with_buffer oops inc dec will_use_buffers release_buffers check_exist get_path_dentry
    lstat_retry lstat find_me find_whiteout get_file_attr_worker merge clear_mode_flags match_rights
    check_rights can_access can_remove traverse_loop traverse_from can_traverse find_file_with
    find_lower find_read_only check_visible make_ro_path make_rw_path find_present find_path_worker
    find_path_null make_tree on_ro_branch dbg_creat create_whiteout_worker create_whiteout
    get_relative_path_for_file get_inode_path get_full_path_i alias_loop get_full_path_d relative
    path_loop c_string in_buffers validate_both validate_inode validate_dentry hepunion_unlink
    unlink_by_branch unlink_ro_file cover path_to_special strrchr strncmp_eq snprintf is_flag_set
unlinked = refl

find_present-hepunion_unlink_example :
    let after = (hepunion_unlink ⦃K = memory⦄ branches (bytes "/") (bytes "/a") world_of_files).1 in
    (union_lookup ⦃K = memory⦄ ⦃V = places⦄ branches after.kernel (bytes "/a") (bytes "/rw/.wh.a") 0
      ≡ none)
    × (is_neg (find_present ⦃K = memory⦄ branches (bytes "/a") [] 0 after).0.0 ≡ true)
unfolding is_flag_set
find_present-hepunion_unlink_example =
    find_present-hepunion_unlink ⦃K = memory⦄ ⦃V = places⦄ ⦃W = writes⦄ branches (bytes "a")
      (bytes "/rw/.wh.a") named apart (omega arith) (λ s. refl) (bytes "/") (bytes "/a")
      world_of_files [] 0 named_a refl unlinked refl refl

-- The file of the RO branch.
find_present-Answers_example :
    Answers ⦃K = memory⦄ ⦃V = places⦄ branches
      (bytes "/a")
      (bytes "/rw/.wh.a")
      0
      named
      (λ s. refl)
      world_of_files
      (some read_only)
      (find_present ⦃K = memory⦄ branches (bytes "/a") [] 0 world_of_files).0.0
    × SameView ⦃K = memory⦄ ⦃V = places⦄ world_of_files
        (find_present ⦃K = memory⦄ branches (bytes "/a") [] 0 world_of_files).1
unfolding is_flag_set
find_present-Answers_example =
    find_present-Answers ⦃K = memory⦄ ⦃V = places⦄ branches (bytes "/a") (bytes "/rw/.wh.a") 0 named
      (λ s. refl) [] world_of_files refl

-- A new file in a directory of the RO branch, where a whiteout hides the name.
abbrev world_of_directory : World ⦃K = memory⦄
world_of_directory = record world {
  kernel =
      record { path = bytes "/ro/"; stat = stat_of 0o40777 0 0 }
      ∷ record { path = bytes "/ro/d"; stat = stat_of 0o40777 0 0 }
      ∷ record { path = bytes "/rw/"; stat = stat_of 0o40777 0 0 }
      ∷ record { path = bytes "/rw/d/.wh.a"; stat = stat_of 0o100400 0 0 }
      ∷ [];
}

named_below : IsNamed branches (bytes "/d/a") (bytes "/rw/d/.wh.a")
unfolding path_to_special strrchr
named_below = record { rw_fits = omega arith; ro_fits = omega arith; marked = refl }

named_d_a :
    (old : List ℕ) (w : World ⦃K = memory⦄)
    → (get_relative_path_for_file ⦃K = memory⦄ branches (bytes "/") (bytes "/d/a") old true w).0
      ≡ (pos 0, bytes "/d/a")
unfolding get_relative_path_for_file get_inode_path get_full_path_i alias_loop get_full_path_d
    path_loop relative c_string with_buffer kmalloc kfree ◌>>=◌ pure ask
named_d_a old w = refl

created :
    (hepunion_create ⦃K = memory⦄ branches (bytes "/") (bytes "/d/a") 0o100644 world_of_directory).0
    ≡ pos 0
unfolding pure ◌>>=◌ call call_ ask current_fsuid current_fsgid push_root pop_root as_root kmalloc
    kfree with_buffer oops inc dec will_use_buffers release_buffers check_exist get_path_dentry
    lstat_retry lstat find_me find_whiteout get_file_attr_worker merge clear_mode_flags match_rights
    check_rights can_access can_remove traverse_loop traverse_from can_traverse find_file_with
    find_lower find_read_only check_visible make_ro_path make_rw_path find_present find_path_worker
    make_tree tree_loop make_directory on_ro_branch dbg_creat dbg_mkdir mkdir mkdir_retry
    get_relative_path_for_file get_inode_path get_full_path_i alias_loop get_full_path_d relative
    path_loop c_string in_buffers validate_both validate_inode validate_dentry hepunion_create
    for_new_name create_file add_inode fill_inode unlink_whiteout unlink remove_by path_to_special
    strrchr strncmp_eq snprintf is_flag_set if_allowed masked
created = refl

find_present-hepunion_create_example :
    let after =
      (hepunion_create ⦃K = memory⦄ branches
        (bytes "/")
        (bytes "/d/a")
        0o100644
        world_of_directory).1 in
    (union_lookup ⦃K = memory⦄ ⦃V = places⦄ branches after.kernel
        (bytes "/d/a")
        (bytes "/rw/d/.wh.a")
        0
      ≡ some read_write)
    × Answers ⦃K = memory⦄ ⦃V = places⦄ branches
        (bytes "/d/a")
        (bytes "/rw/d/.wh.a")
        0
        named_below
        (λ s. refl)
        after
        (some read_write)
        (find_present ⦃K = memory⦄ branches (bytes "/d/a") [] 0 after).0.0
unfolding is_flag_set
find_present-hepunion_create_example =
    find_present-hepunion_create ⦃K = memory⦄ ⦃V = places⦄ ⦃W = writes⦄ branches (bytes "d/a")
      (bytes "/rw/d/.wh.a") named_below (λ h. absurd (ground arith)) (λ s. refl) (bytes "/")
      (bytes "/d/a") 0o100644 world_of_directory [] 0 named_d_a refl created refl refl

-- A file of both branches.
abbrev world_of_both : World ⦃K = memory⦄
world_of_both = record world {
  kernel =
      record { path = bytes "/ro"; stat = stat_of 0o40777 0 0 }
      ∷ record { path = bytes "/rw"; stat = stat_of 0o40777 0 0 }
      ∷ record { path = bytes "/ro/a"; stat = stat_of 0o100644 0 0 }
      ∷ record { path = bytes "/rw/a"; stat = stat_of 0o100644 0 0 }
      ∷ [];
}

unlinked_both :
    (hepunion_unlink ⦃K = memory⦄ branches (bytes "/") (bytes "/a") world_of_both).0 ≡ pos 0
unfolding pure ◌>>=◌ call call_ ask current_fsuid current_fsgid push_root pop_root as_root kmalloc
    kfree with_buffer oops inc dec will_use_buffers release_buffers check_exist get_path_dentry
    lstat_retry lstat find_me find_whiteout get_file_attr_worker merge clear_mode_flags match_rights
    check_rights can_access can_remove traverse_loop traverse_from can_traverse find_file_with
    find_lower find_read_only check_visible make_ro_path make_rw_path find_present find_path_worker
    find_path_null make_tree on_ro_branch dbg_creat create_whiteout_worker create_whiteout
    get_relative_path_for_file get_inode_path get_full_path_i alias_loop get_full_path_d relative
    path_loop c_string in_buffers validate_both validate_inode validate_dentry hepunion_unlink
    unlink_by_branch unlink_rw_file has_ro remove_rw unlink remove_by path_to_special strrchr
    strncmp_eq snprintf is_flag_set
unlinked_both = refl

union_lookup-hepunion_unlink_example :
    let after = (hepunion_unlink ⦃K = memory⦄ branches (bytes "/") (bytes "/a") world_of_both).1 in
    (at_path after.kernel (bytes "/rw/a") ≡ false)
    × (union_lookup ⦃K = memory⦄ ⦃V = places⦄ branches after.kernel
          (bytes "/a")
          (bytes "/rw/.wh.a")
          0
        ≡ ro_lookup ⦃K = memory⦄ ⦃V = places⦄ branches after.kernel
            (bytes "/a")
            (bytes "/rw/.wh.a")
            0)
    × ((find_present ⦃K = memory⦄ branches (bytes "/a") [] 0 after).0.0 ≢ read_write)
unfolding is_flag_set
union_lookup-hepunion_unlink_example =
    union_lookup-hepunion_unlink ⦃K = memory⦄ ⦃V = places⦄ ⦃W = writes⦄ branches (bytes "a")
      (bytes "/rw/.wh.a") named apart (omega arith) (λ s. refl) (bytes "/") (bytes "/a")
      world_of_both [] 0 named_a unlinked_both refl refl refl

-- The same directory with a file of the RO branch, to which a link is made.
abbrev world_of_target : World ⦃K = memory⦄
world_of_target = record world_of_directory {
  kernel =
      record { path = bytes "/ro/d/b"; stat = stat_of 0o100644 0 0 } ∷ world_of_directory.kernel;
}

linked :
    (hepunion_link ⦃K = memory⦄ branches
      (bytes "/d/b")
      (bytes "/")
      (bytes "/d/a")
      world_of_target).0
    ≡ pos 0
unfolding pure ◌>>=◌ call call_ ask current_fsuid current_fsgid push_root pop_root as_root kmalloc
    kfree with_buffer oops inc dec will_use_buffers release_buffers check_exist get_path_dentry
    lstat_retry lstat find_me find_whiteout get_file_attr_worker merge clear_mode_flags match_rights
    check_rights can_access can_remove traverse_loop traverse_from can_traverse find_file_with
    find_lower find_read_only check_visible make_ro_path make_rw_path find_present find_path_worker
    make_tree tree_loop make_directory on_ro_branch dbg_mkdir mkdir mkdir_retry dbg_symlink symlink
    symlink_retry get_relative_path_for_file get_inode_path get_full_path_i alias_loop
    get_full_path_d get_dentry_path relative path_loop c_string in_buffers validate_inode
    validate_dentry hepunion_link for_new_name make_link link_to unlink_whiteout unlink remove_by
    path_to_special strrchr strncmp_eq snprintf is_flag_set if_allowed masked
linked = refl

union_lookup-linked_example :
    let after =
      (hepunion_link ⦃K = memory⦄ branches
        (bytes "/d/b")
        (bytes "/")
        (bytes "/d/a")
        world_of_target).1 in
    union_lookup ⦃K = memory⦄ ⦃V = places⦄ branches after.kernel
      (bytes "/d/a")
      (bytes "/rw/d/.wh.a")
      0
    ≡ some read_write
unfolding is_flag_set
union_lookup-linked_example =
    union_lookup-linked ⦃K = memory⦄ ⦃V = places⦄ ⦃W = writes⦄ branches (bytes "d/a")
      (bytes "/rw/d/.wh.a") named_below (λ h. absurd (ground arith)) (λ s. refl) (bytes "/")
      (bytes "/d/a") (bytes "/d/b") []
      (hepunion_link ⦃K = memory⦄ branches (bytes "/d/b") (bytes "/") (bytes "/d/a"))
      world_of_target 0 named_d_a (inr refl) refl linked refl

-- A directory of the RO branch that is not empty, and which its owner, root, may remove.
abbrev world_of_full : World ⦃K = memory⦄
world_of_full = record world {
  kernel =
      record { path = bytes "/ro"; stat = stat_of 0o40755 0 0 }
      ∷ record { path = bytes "/ro/d"; stat = stat_of 0o40755 0 0 }
      ∷ record { path = bytes "/ro/d/a"; stat = stat_of 0o100644 0 0 }
      ∷ [];
  fsuid = 0;
}

named_d : IsNamed branches (bytes "/d") (bytes "/rw/.wh.d")
unfolding path_to_special strrchr
named_d = record { rw_fits = omega arith; ro_fits = omega arith; marked = refl }

path_of_d :
    (old : List ℕ) (w : World ⦃K = memory⦄)
    → (get_relative_path_for_file ⦃K = memory⦄ branches (bytes "/") (bytes "/d") old true w).0
      ≡ (pos 0, bytes "/d")
unfolding get_relative_path_for_file get_inode_path get_full_path_i alias_loop get_full_path_d
    path_loop relative c_string with_buffer kmalloc kfree ◌>>=◌ pure ask
path_of_d old w = refl

removable :
    (can_remove ⦃K = memory⦄ branches (bytes "/d") (bytes "/ro/d") (
      looked ⦃K = memory⦄ ⦃V = places⦄ branches
        (bytes "/d")
        (bytes "/rw/.wh.d")
        named_d
        (λ s. refl)
        (bytes "/")
        (bytes "/d")
        world_of_full)).0
    ≡ pos 0
unfolding pure ◌>>=◌ call call_ ask current_fsuid current_fsgid push_root pop_root as_root kmalloc
    kfree with_buffer oops inc dec will_use_buffers check_exist lstat_retry lstat find_me
    find_whiteout get_file_attr_worker merge clear_mode_flags match_rights check_rights can_access
    can_remove traverse_loop traverse_from can_traverse find_file_with find_lower find_read_only
    check_visible make_ro_path make_rw_path find_present get_relative_path_for_file get_inode_path
    get_full_path_i alias_loop get_full_path_d relative path_loop c_string validate_both
    validate_inode validate_dentry path_to_special strrchr strncmp_eq snprintf is_flag_set
removable = refl

union_lookup-hepunion_rmdir_example :
    let out = hepunion_rmdir ⦃K = memory⦄ branches (bytes "/") (bytes "/d") world_of_full in
    ((out.0 ≡ pos 0)
      ⊎ IsDenied ⦃K = memory⦄ ⦃V = places⦄ branches
          (bytes "/d")
          (bytes "/rw/.wh.d")
          0
          named_d
          (λ s. refl)
          world_of_full
          out.0)
    × SameView ⦃K = memory⦄ ⦃V = places⦄ world_of_full out.1
    × (union_lookup ⦃K = memory⦄ ⦃V = places⦄ branches out.1.kernel
          (bytes "/d")
          (bytes "/rw/.wh.d")
          0
        ≡ some read_only)
unfolding is_flag_set
union_lookup-hepunion_rmdir_example =
    union_lookup-hepunion_rmdir ⦃K = memory⦄ ⦃V = places⦄ branches (bytes "/d") (bytes "/rw/.wh.d")
      named_d (λ s. refl) (bytes "/") (bytes "/d") world_of_full path_of_d refl removable
