-- ===== src/Tests/Identity.antt =====
-- The theorems on the identity of the process and on the guard of the RO branch, at concrete inputs.
use hepunion.Base.{ℕ, ◌≡◌, ◌≢◌, refl, pos, ptr, err_ptr, false, List, [], ◌∷◌, ◌++◌, arith}
use hepunion.Base.{none, some}
use hepunion.Base.Errno.{einval, eacces}
use hepunion.Kernel.{Kernel}
use hepunion.Exec.{World, inc, pure}
use hepunion.Exec.Tidy.{IsTidy}
use hepunion.Names.{must_read_only, is_flag_set, is_special}
use hepunion.CString.{strrchr, snprintf}
use hepunion.SpecialPath.{path_to_special}
use hepunion.Access.{check_rights}
use hepunion.Access.Rights.{check_rights-class}
use hepunion.Whiteout.Empty.{is_empty_dir-hides_only}
use hepunion.Names.{is_whiteout}
use hepunion.Base.Errno.{enotempty}
use hepunion.Find.{find_file_with}
use hepunion.Find.Tidy.{find_file_with-IsTidy}
use hepunion.Find.Located.{IsLocated, find_file_with-IsLocated}
use hepunion.Create.{mknod}
use hepunion.Create.Leaks.{mknod_keeps_root}
use hepunion.Workers.{
  writing_flags, dbg_open, dbg_open_2, dbg_creat, dbg_mkdir, dbg_mknod, dbg_mkfifo, dbg_symlink,
  dbg_link,
}
use hepunion.Workers.Guard.{ro_branch_kept}
use hepunion.Whiteout.{is_empty_dir}
use hepunion.Whiteout.Nested.{is_empty_dir_keeps_root}
use hepunion.Tests.Memory.{memory, stat_of, bytes, branches, measured, world}
use Prim.Native.Nat.{bit_and}

find_file_with-IsTidy_example : IsTidy (
    find_file_with branches
      (λ path ro_path rw_path. pure (einval, rw_path))
      (bytes "/a")
      []
      must_read_only)
unfolding is_flag_set
find_file_with-IsTidy_example =
    find_file_with-IsTidy branches (λ path ro_path rw_path. pure (einval, rw_path)) (bytes "/a") []
      must_read_only refl

ro_branch_kept_example :
    let path = bytes "/ro" ++ bytes "/a" in
    ((flags : ℕ)
      → bit_and flags writing_flags ≢ 0
      → dbg_open branches path flags world ≡ (err_ptr einval, world))
    × ((flags mode : ℕ)
        → bit_and flags writing_flags ≢ 0
        → dbg_open_2 branches path flags mode world ≡ (err_ptr einval, world))
    × ((mode : ℕ) → dbg_creat branches path mode world ≡ (err_ptr einval, world))
    × ((mode : ℕ) → dbg_mkdir branches path mode world ≡ (einval, world))
    × ((mode dev : ℕ) → dbg_mknod branches path mode dev world ≡ (einval, world))
    × ((mode : ℕ) → dbg_mkfifo branches path mode world ≡ (einval, world))
    × ((old : List ℕ) → dbg_symlink branches old path world ≡ (einval, world))
    × ((old : List ℕ) → dbg_link branches old path world ≡ (einval, world))
ro_branch_kept_example = ro_branch_kept branches measured (bytes "/a") world

-- A kernel that finds room for a new entry and whose security hook refuses it.
abbrev refusing : Kernel
refusing = record memory {
  kern_path_create = λ p f c s. (ptr (bytes "/rw", p), s);
  security_path_mknod = λ d e m v c s. (eacces, s);
}

abbrev world_of_refusing : World ⦃K = refusing⦄
world_of_refusing = record {
  kernel = [];
  fsuid = 1000;
  fsgid = 100;
  uid = 0;
  gid = 0;
  id_lock = pos 0;
  buffers_in_use = false;
  live = 0;
  bug = false;
}

mknod_keeps_root_example :
    let (e, w) = mknod ⦃K = refusing⦄ (bytes "/rw/a") 0o100644 0 world_of_refusing in
    (e ≡ eacces) × (w.fsuid ≡ 0) × (w.fsgid ≡ 0) × (w.id_lock ≡ inc (pos 0))
mknod_keeps_root_example =
    mknod_keeps_root ⦃K = refusing⦄ (bytes "/rw/a") 0o100644 0 12 (bytes "/rw", bytes "/rw/a")
      (λ k. refl) (λ m k. refl) refl world_of_refusing

-- A kernel whose directories have one entry.
abbrev one_entry : Kernel
one_entry = record memory {
  filp_open = λ p f m c s. (ptr p, s);
  dir_entries = λ f c s. (record { name = bytes "a"; d_type = 8 } ∷ [], s);
}

abbrev world_of_one_entry : World ⦃K = one_entry⦄
world_of_one_entry = record {
  kernel = [];
  fsuid = 1000;
  fsgid = 100;
  uid = 0;
  gid = 0;
  id_lock = pos 0;
  buffers_in_use = false;
  live = 0;
  bug = false;
}

is_empty_dir_keeps_root_example :
    let (e, w) =
      is_empty_dir ⦃K = one_entry⦄ branches
        (bytes "/d/")
        (some (bytes "/ro/d"))
        none
        world_of_one_entry in
    (w.fsuid ≡ 0) × (w.fsgid ≡ 0)
unfolding path_to_special strrchr is_special snprintf
is_empty_dir_keeps_root_example =
    is_empty_dir_keeps_root ⦃K = one_entry⦄ branches (bytes "/d/") (bytes "/ro/d") (bytes "/ro/d")
      (record { name = bytes "a"; d_type = 8 }) [] (λ k. refl) (λ c k. refl) (λ c k. refl) refl
      (omega arith) refl world_of_one_entry

find_file_with-IsLocated_example :
    IsLocated branches
      (bytes "/a")
      0
      (find_file_with branches
        (λ path ro_path rw_path. pure (einval, rw_path))
        (bytes "/a")
        []
        0
        world).0
unfolding is_flag_set
find_file_with-IsLocated_example =
    find_file_with-IsLocated branches (λ path ro_path rw_path. pure (einval, rw_path)) (bytes "/a")
      [] 0 world refl

is_empty_dir-hides_only_example :
    (is_empty_dir ⦃K = one_entry⦄ branches
      (bytes "/d")
      none
      (some (bytes "/rw/d"))
      world_of_one_entry).0
    ≡ enotempty
unfolding is_whiteout is_special
is_empty_dir-hides_only_example =
    is_empty_dir-hides_only ⦃K = one_entry⦄ branches (bytes "/d") (bytes "/rw/d") (bytes "/rw/d")
      world_of_one_entry refl

-- A member of the file's group may read it and not write it.
check_rights-class_example : check_rights 1000 100 (stat_of 0o100640 0 100) 4 ≡ pos 0
check_rights-class_example = check_rights-class 1000 100 (stat_of 0o100640 0 100) 4 (omega arith)
