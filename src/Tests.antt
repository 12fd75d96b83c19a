-- ===== src/Tests.antt =====
-- The theorems at concrete inputs.
mod Memory
mod Identity
mod Mounting
mod Handlers
mod Copies
mod Places
mod Shown
mod Readers
use Prim.Native.String.{String}
use Prim.Native.Char.{Char, code}
use hepunion.Base.{ℕ, zero, suc, ◌+◌, ◌≡◌, refl, ℤ, pos, Bool, true, false, ◌&&◌, ◌||◌, not}
use hepunion.Base.{Option, none, some, List, [], ◌∷◌, ◌++◌, arith, length, take, drop, path_max}
use hepunion.Base.{◌==◌, ◌⊎◌}
use hepunion.Kernel.{Kernel, Kstat, Dirent}
use hepunion.Exec.{World, M, pure, ◌>>=◌, call, kmalloc, kfree, with_buffer}
use hepunion.CString.{strrchr}
use hepunion.CString.Laws.{lacks→Lacks}
use hepunion.Names.{slash, Special, mark, is_me, is_whiteout}
use hepunion.SpecialPath.{Branches, IsMeasured, path_to_special}
use hepunion.SpecialPath.Laws.{path_to_special_split, path_to_special_injective}
use hepunion.SpecialPath.Bytes.{path_to_special_bytes, c_string}
use hepunion.SpecialPath.Buffer.{path_to_special_bytes_refines, path_to_special_bytes_overflows}
use hepunion.Lookup.{lstat_retry, lstat}
use hepunion.Lookup.Retry.{lstat_retry_enough}
use hepunion.Readdir.{ReaddirFile, OpendirContext, names_file, read_rw_branch, read_ro_branch}
use hepunion.Readdir.{fill, is_empty, hepunion_readdir, hepunion_closedir}
use hepunion.Readdir.Union.{shown, hidden, has_entry, fill_union}
use hepunion.Readdir.Memory.{hepunion_readdir_accounted, hepunion_closedir_frees}
use hepunion.Readdir.Order.{list_from, list_from-take}
use hepunion.Mutex.{Mutex, Pc, System, Step, Reach, start, holds, counts, add_first, add_more}
use hepunion.Mutex.{spin_first, set_owner, is_other, sub_more, move₀, move₁, here, next}
use hepunion.Mutex.{recursive_mutex_init}
use hepunion.Mutex.Exclusion.{mutual_exclusion}
use hepunion.Mutex.Starvation.{IsStuck, waiter_starves}
use hepunion.Mutex.Reentrant.{Run, locked, nested_locks}
use hepunion.Tests.Memory.{memory, Node, stat_of, bytes, branches, measured, world}

special_path :
    path_to_special (bytes "/etc/passwd") Special.wh branches []
    ≡ (pos 0, bytes "/rw/etc/.wh.passwd")
unfolding path_to_special strrchr
special_path = refl

path_to_special_split_example :
    path_to_special (bytes "/etc" ++ slash ∷ bytes "passwd") Special.wh branches []
    ≡ (pos 0, bytes "/rw" ++ ((bytes "/etc" ++ slash ∷ []) ++ (mark Special.wh ++ bytes "passwd")))
path_to_special_split_example =
    path_to_special_split (bytes "/etc") (bytes "passwd") Special.wh branches [] measured
      (lacks→Lacks slash (bytes "passwd") refl) (omega arith)

path_to_special_injective_example : (bytes "/a/b" ≡ bytes "/a/b") × (Special.me ≡ Special.me)
unfolding path_to_special strrchr
path_to_special_injective_example =
    path_to_special_injective (bytes "/a/b") (bytes "/a/b") Special.me Special.me branches [] []
      (bytes "/rw/a/.me.b") measured refl refl

abbrev zeros : ℕ → List ℕ
zeros zero = []
zeros (suc n) = 0 ∷ zeros n

path_to_special_bytes_refines_example :
    (buf : List ℕ) × (path_to_special_bytes (bytes "/a/b") Special.me branches (zeros 4096)
      ≡ some (pos 0, buf))
    × (path_to_special (bytes "/a/b") Special.me branches (zeros 4096) ≡ (pos 0, c_string buf))
unfolding strrchr
path_to_special_bytes_refines_example =
    path_to_special_bytes_refines (bytes "/a/b") Special.me branches (zeros 4096) 2 measured
      (lacks→Lacks 0 (bytes "/a/b") refl) (lacks→Lacks 0 (bytes "/rw") refl) refl refl (omega arith)

-- A path of 4088 bytes, with a branch of three.
abbrev letters : ℕ → List ℕ
letters zero = []
letters (suc n) = b'a' ∷ letters n

path_to_special_bytes_overflows_example :
    path_to_special_bytes (slash ∷ letters 4087) Special.wh branches (zeros 4096) ≡ none
unfolding strrchr
path_to_special_bytes_overflows_example =
    path_to_special_bytes_overflows (slash ∷ letters 4087) Special.wh branches (zeros 4096) 0
      measured refl refl (omega arith) (omega arith)

lstat_retry_enough_example :
    (answer : ℤ × Kstat) × ((lstat_retry 5 0 (bytes "/ro/a") (stat_of 0 0 0) world).0 ≡ some answer)
    × (lstat (bytes "/ro/a") (stat_of 0 0 0) world
        ≡ (answer, (lstat_retry 5 0 (bytes "/ro/a") (stat_of 0 0 0) world).1))
lstat_retry_enough_example =
    lstat_retry_enough (λ error flags. refl) 3 (bytes "/ro/a") (stat_of 0 0 0) world

abbrev entry : String → Dirent
entry s = record { name = bytes s; d_type = 8 }

abbrev context : OpendirContext
context = record {
  files = [];
  whiteouts = [];
  ro_len = 3;
  ro_path = bytes "/ro";
  rw_len = 3;
  rw_path = bytes "/rw";
}

abbrev upper : List Dirent
upper = entry "new" ∷ entry ".wh.gone" ∷ entry ".me.kept" ∷ []

abbrev lower : List Dirent
lower = entry "gone" ∷ entry "kept" ∷ entry "new" ∷ []

fill_union_example :
    names_file
      (bytes "kept")
      (fill
        (read_ro_branch branches)
        (fill (read_rw_branch branches) context upper world).0.1
        lower
        world).0.1.files
    ≡ (shown upper (bytes "kept")
        || (has_entry lower (bytes "kept") && not (hidden upper (bytes "kept"))))
unfolding fill read_rw_branch read_ro_branch ◌>>=◌ with_buffer is_me is_whiteout
fill_union_example =
    fill_union branches context upper lower world world (bytes "kept") refl refl refl refl refl

abbrev file : String → ReaddirFile
file s = record { d_name = bytes s; ino = 1; type = 8 }

abbrev read_context : OpendirContext
read_context = record context { files = file "b" ∷ file "a" ∷ []; whiteouts = [] }

abbrev busy : World
busy = record world { live = 5 }

hepunion_readdir_accounted_example :
    let (answer, w') = hepunion_readdir branches read_context 1 busy in w'.live + 2 ≡ 5 + 2
unfolding hepunion_readdir ◌>>=◌
hepunion_readdir_accounted_example =
    hepunion_readdir_accounted branches read_context 1 busy (omega arith)

list_from-take_example : list_from branches 5 read_context 1 world ≡ (file "a" ∷ [], world)
list_from-take_example = list_from-take branches 5 1 read_context world refl

-- Thread 0 is before its `spin_lock`, and thread 1 has gone to wait.
abbrev contended : System
contended = record {
  mutex = record { count = 2; owner = none; held = false };
  pc₀ = Pc.first_spin;
  depth₀ = 0;
  pc₁ = Pc.spin;
  depth₁ = 0;
}

to_contended : Reach start contended
to_contended =
    next (next (next here (move₀ (add_first refl))) (move₁ (add_more (omega arith))))
      (move₁ (is_other (ground arith)))

mutual_exclusion_example :
    ((holds Pc.first_spin 0 && holds Pc.spin 0) ≡ false)
    × (holds Pc.first_spin 0 ≡ true → false ≡ true)
    × (holds Pc.spin 0 ≡ true → false ≡ true)
    × (2 ≡ counts Pc.first_spin 0 + counts Pc.spin 0)
mutual_exclusion_example = mutual_exclusion to_contended

-- Thread 0 has the lock while thread 1 waits, and then gives it up.
abbrev waiting : System
waiting = record contended {
  mutex = record { count = 2; owner = some 0; held = true };
  pc₀ = Pc.out;
  depth₀ = 1;
}

abbrev given_up : System
given_up = record contended {
  mutex = record { count = 1; owner = some 0; held = true };
  pc₀ = Pc.out;
}

waiting-IsStuck : IsStuck waiting
waiting-IsStuck = record { waits = refl; taken = refl; kept = refl; counted = refl }

waiter_starves_example : IsStuck given_up
waiter_starves_example = waiter_starves waiting-IsStuck (next here (move₀ (sub_more refl)))

nested_locks_example :
    Run 7 recursive_mutex_init Pc.out 0 (locked 7 3) Pc.out 3
    × Run 7 (locked 7 3) Pc.out 3 recursive_mutex_init Pc.out 0
nested_locks_example = nested_locks 7 3
