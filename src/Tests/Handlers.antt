-- ===== src/Tests/Handlers.antt =====
-- Witnesses of the theorems about the handlers of fs/hepunion/opts.c, the paths of
-- fs/hepunion/helpers.c and the copies of fs/hepunion/cow.c and me.c.
use hepunion.Base.{ℕ, suc, ◌≡◌, refl, ℤ, pos, true, false, some, List, [], ◌∷◌, ◌++◌, arith}
use hepunion.Base.{◌⊎◌, ◌≤◌, length, ptr, is_zero}
use hepunion.Kernel.{Kernel, Dirent, Iattr}
use hepunion.Exec.{
  World, ◌>>=◌, kmalloc, with_buffer, ask, as_root, call, call_, current_fsuid, current_fsgid, dec,
  inc,
}
use hepunion.Exec.{kfree, pop_root, push_root, pure}
use hepunion.Lookup.{check_exist, lstat, lstat_retry}
use hepunion.Access.{
  can_traverse, can_access, check_rights, match_rights, traverse_from, traverse_loop,
}
use hepunion.Attributes.{get_file_attr_worker, find_me, merge, clear_mode_flags}
use hepunion.Find.{find_file_with, make_rw_path}
use hepunion.Tree.{find_present}
use hepunion.Names.{is_me, is_whiteout, is_flag_set}
use hepunion.CString.{strrchr, snprintf}
use hepunion.SpecialPath.{path_to_special}
use hepunion.SpecialPath.Bytes.{c_string}
use hepunion.Hash.{name_to_ino}
use hepunion.Paths.{get_dentry_path, get_relative_path_for_file, get_inode_path}
use hepunion.Paths.Joined.{dentry_path-joined, joined}
use hepunion.Readdir.{
  OpendirContext, ReaddirFile, names_file, names_whiteout, read_rw_branch, read_ro_branch,
}
use hepunion.Readdir.Names.{whiteout_hides, listed_as_looked_up}
use hepunion.Ops.Buffers.{AllServed, handlers_served}
use hepunion.Ops.Open.{hepunion_opendir}
use hepunion.Ops.Opendir.{opendir_closedir, list_directory}
use hepunion.Copyup.{create_copyup_at, create_copyup, copy_data}
use hepunion.Copyup.Depth.{create_copyup_at-enough}
use hepunion.Copyup.Rounds.{copy_data-enough}
use hepunion.Tree.{find_path_worker}
use hepunion.Tree.RealPath.{find_path_worker-real_path}
use hepunion.Metadata.{new_me_attr}
use hepunion.Metadata.Requested.{new_me_attr-completed}
use hepunion.Tests.Memory.{Node, memory, bytes, branches, measured, world, stat_of}

-- A kernel in which a dentry has the names `b` and, above it, `a`.
abbrev two_names : Kernel
two_names = record memory { d_names = λ d s. bytes "b" ∷ bytes "a" ∷ [] }

abbrev world_of_two_names : World ⦃K = two_names⦄
world_of_two_names = record {
  kernel = [];
  fsuid = 1000;
  fsgid = 100;
  uid = 0;
  gid = 0;
  id_lock = pos 0;
  buffers_in_use = false;
  live = 0;
  bug = false;
}

dentry_path-joined_example :
    let found =
      (get_dentry_path ⦃K = two_names⦄ branches (bytes "/a/b") [] true world_of_two_names).0 in
    (found.0 ≡ pos 0) × (c_string found.1 ≡ bytes "/a/b")
unfolding joined
dentry_path-joined_example =
    dentry_path-joined ⦃K = two_names⦄ branches (bytes "/a/b") (bytes "b" ∷ bytes "a" ∷ []) []
      world_of_two_names (λ k. refl) (λ k. refl) (refl, (refl, (refl, (refl, tt)))) (omega arith)

abbrev context : OpendirContext
context = record {
  files = [];
  whiteouts = [];
  ro_len = 5;
  ro_path = bytes "/ro/d";
  rw_len = 5;
  rw_path = bytes "/rw/d";
}

abbrev entry : Dirent
entry = record { name = bytes "f"; d_type = 8 }

abbrev whiteout_entry : Dirent
whiteout_entry = record { name = bytes ".wh.f"; d_type = 8 }

whiteout_hides_example :
    let seen = (read_rw_branch branches context whiteout_entry world).0.1 in
    read_ro_branch branches seen entry world ≡ ((pos 0, seen), world)
unfolding path_to_special strrchr read_rw_branch is_me is_whiteout ◌>>=◌ kmalloc
whiteout_hides_example =
    whiteout_hides branches (bytes "/d") (bytes "f") [] (bytes "/rw/d/.wh.f") 5 whiteout_entry entry
      context world world measured (refl, tt) refl refl refl refl refl refl refl

listed_as_looked_up_example :
    let (err, path) =
      (get_relative_path_for_file branches (bytes "/d") (bytes "/f") [] true world).0 in
    let listed : ReaddirFile = record { d_name = bytes "f"; ino = name_to_ino path; type = 8 } in
    (err ≡ pos 0)
    × ((read_rw_branch branches context entry world).0.1.files ≡ listed ∷ [])
    × ((read_ro_branch branches context entry world).0.1.files ≡ listed ∷ [])
unfolding read_rw_branch read_ro_branch is_me is_whiteout names_whiteout names_file get_inode_path
    c_string with_buffer ask
listed_as_looked_up_example =
    listed_as_looked_up branches (bytes "/d") (bytes "/d" ++ 0 ∷ []) [] (bytes "/d") (bytes "/f")
      entry context world world world measured
      (record { rw_path = refl; rw_len = refl; ro_path = refl; ro_len = refl }) refl refl refl refl
      refl refl refl refl refl

handlers_served_example : AllServed branches 3
handlers_served_example = handlers_served branches 3

opendir_closedir_example :
    let out = hepunion_opendir branches (bytes "/d") (bytes "/d") world in
    (out.1.buffers_in_use ≡ false)
    × ((list_directory branches (bytes "/d") (0 ∷ 1 ∷ []) out.0 out.1).1.live ≡ 0)
opendir_closedir_example =
    opendir_closedir branches (bytes "/d") (bytes "/d") (0 ∷ 1 ∷ []) world refl

create_copyup_at-enough_example :
    create_copyup_at branches 3 5000 (bytes "/a") (bytes "/ro/a") []
    ≡ create_copyup branches 3 (bytes "/a") (bytes "/ro/a") []
create_copyup_at-enough_example =
    create_copyup_at-enough branches 3 5000 (bytes "/a") (bytes "/ro/a") [] (λ f c k. tt)
      (omega arith)

-- A kernel in which each node of the state stands for a byte to read.
abbrev read_one : List Node → (ℤ × List ℕ) × List Node
read_one [] = ((pos 0, []), [])
read_one (n ∷ ns) = ((pos 1, 0 ∷ []), ns)

abbrev draining : Kernel
draining = record memory { vfs_read = λ f n c s. read_one s }

abbrev world_of_draining : World ⦃K = draining⦄
world_of_draining = record {
  kernel = record { path = []; stat = stat_of 0 0 0 } ∷ [];
  fsuid = 1000;
  fsgid = 100;
  uid = 0;
  gid = 0;
  id_lock = pos 0;
  buffers_in_use = false;
  live = 0;
  bug = false;
}

read_one-less :
    (s : List Node) → is_zero (read_one s).0.0 ≡ false → suc (length (read_one s).1) ≤ length s
read_one-less [] h = absurd cc
read_one-less (n ∷ ns) h = omega arith

copy_data-enough_example :
    (err : ℤ) × ((copy_data ⦃K = draining⦄ 3 (bytes "/ro/a") (bytes "/rw/a") world_of_draining).0
      ≡ some err)
copy_data-enough_example =
    copy_data-enough ⦃K = draining⦄ (bytes "/ro/a") (bytes "/rw/a") length 3 world_of_draining
      (record { read = λ c k given more. read_one-less k more; write = λ c k text. omega arith })
      (omega arith)

-- A kernel in which each path is there.
abbrev full_of_paths : Kernel
full_of_paths = record memory {
  kern_path = λ p f c s. (ptr p, s);
  vfs_getattr = λ d c s. ((pos 0, stat_of 0o40777 0 0), s);
}

abbrev world_of_paths : World ⦃K = full_of_paths⦄
world_of_paths = record {
  kernel = [];
  fsuid = 1000;
  fsgid = 100;
  uid = 0;
  gid = 0;
  id_lock = pos 0;
  buffers_in_use = false;
  live = 0;
  bug = false;
}

find_path_worker-real_path_example :
    let out =
      (find_path_worker ⦃K = full_of_paths⦄ branches (bytes "/d/a") [] world_of_paths).0.1 in
    (out ≡ bytes "/rw/d/a") ⊎ ((◌≡◌ {A = ℕ} 2 0) × (out ≡ bytes "/rw/"))
unfolding find_path_worker strrchr with_buffer is_flag_set check_exist as_root call can_traverse
    can_access get_file_attr_worker lstat lstat_retry check_rights current_fsuid call_ find_me
    path_to_special merge current_fsgid match_rights traverse_from traverse_loop clear_mode_flags
    snprintf ask dec inc kfree kmalloc pop_root pure push_root ◌>>=◌ find_file_with make_rw_path
    find_present
find_path_worker-real_path_example =
    find_path_worker-real_path ⦃K = full_of_paths⦄ branches (bytes "d/a") [] 2 world_of_paths
      (λ p f c k e h. absurd cc) refl (omega arith) (omega arith) refl

-- A request for the user alone.
abbrev chown : Iattr
chown = record {
  ia_valid = 2;
  ia_mode = 0;
  ia_uid = 7;
  ia_gid = 0;
  ia_size = 0;
  ia_atime = 0;
  ia_mtime = 0;
  ia_ctime = 0;
}

new_me_attr-completed_example :
    new_me_attr chown (stat_of 0o644 1000 100)
    ≡ record chown { ia_valid = 0x36; ia_uid = 1000; ia_gid = 100 }
unfolding is_flag_set
new_me_attr-completed_example = new_me_attr-completed chown (stat_of 0o644 1000 100) (omega arith)
