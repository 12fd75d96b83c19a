-- ===== src/Tests/Readers.antt =====
-- Witnesses of the theorems about the identity of the process and about the inode numbers.
use hepunion.Base.{ℕ, ◌≡◌, refl, pos, true, false, List, [], inl, inr}
use hepunion.Exec.{World}
use hepunion.Lookup.{lstat, lstat_retry}
use hepunion.Exec.{◌>>=◌, as_root, call, call_, dec, pop_root, push_root, pure}
use hepunion.Tree.{tree_loop}
use hepunion.Tree.Unlocks.{tree_loop_unlocks, slashes, dec_times}
use hepunion.Ops.Readers.{AllRestored, readers_restore}
use hepunion.Ops.Helpers.{AllTidy, helpers_tidy}
use hepunion.View.Kept.{SameView}
use hepunion.Names.{slash}
use hepunion.Hash.{name_to_ino}
use hepunion.Hash.Steps.{IsBytes}
use hepunion.Hash.Distinct.{name_to_ino-distinct}
use hepunion.Attributes.{unset}
use hepunion.Base.{
  zero, suc, ap, sym, arith, length, length-append, ◌++◌, ◌∷◌, Option-cases, is_neg,
}
use hepunion.Tests.Places.{at_path, places}
use hepunion.Tests.Memory.{find_node, world, memory, bytes, branches, stat_of}

readers_restore_example : AllRestored ⦃K = memory⦄ branches
readers_restore_example = readers_restore branches

helpers_tidy_example : AllTidy ⦃K = memory⦄ branches
helpers_tidy_example = helpers_tidy branches

-- A world in which the directory of `d/a` is on the RW branch.
abbrev world_of_directories : World ⦃K = memory⦄
world_of_directories = record world {
  kernel = record { path = bytes "/rw/d"; stat = stat_of 0o40777 0 0 } ∷ [];
  id_lock = pos 1;
}

-- The kernel of the tests finds what is there.
lstat_there :
    (p : List ℕ) (w : World ⦃K = memory⦄)
    → at_path w.kernel p ≡ true
    → is_neg (lstat ⦃K = memory⦄ p unset w).0.0 ≡ false
unfolding lstat lstat_retry ◌>>=◌ pure as_root call call_ push_root pop_root
lstat_there p w h = elim (Option-cases (find_node w.kernel p)) [
  | inl missing ↦ absurd (cc (rw missing at h))
  | inr (st, there) ↦ rw (there, there) refl
]

-- The element at a place, or 0.
abbrev nth : ℕ → List ℕ → ℕ
nth n [] = 0
nth zero (x ∷ xs) = x
nth (suc n) (x ∷ xs) = nth n xs

directories_there :
    (dir rest : List ℕ) (v : World ⦃K = memory⦄)
    → bytes "d/a" ≡ dir ++ slash ∷ rest
    → SameView ⦃K = memory⦄ ⦃V = places⦄ world_of_directories v
    → is_neg (lstat ⦃K = memory⦄ (bytes "/rw/" ++ dir) unset v).0.0 ≡ false
directories_there [] rest v split near = absurd (omega (arith, ap (nth 0) split))
directories_there (a ∷ []) rest v split near =
    rw (sym (ap (nth 0) split)) (lstat_there (bytes "/rw/d") v (near (bytes "/rw/d")))
directories_there (a ∷ c ∷ []) rest v split near = absurd (omega (arith, ap (nth 2) split))
directories_there (a ∷ c ∷ d ∷ dir) rest v split near =
    absurd (omega (arith, ap length split, length-append dir (slash ∷ rest)))

tree_loop_unlocks_example :
    (tree_loop ⦃K = memory⦄ branches
      (bytes "/ro/")
      (bytes "/rw/")
      []
      (bytes "d/a")
      world_of_directories).1.id_lock
    ≡ pos 0
unfolding slashes dec_times dec
tree_loop_unlocks_example =
    tree_loop_unlocks ⦃K = memory⦄ ⦃V = places⦄ branches (bytes "/ro/") (bytes "/rw/") []
      (bytes "d/a") world_of_directories directories_there

-- The path in a listing of a directory has a block of eight bytes and a last byte.
name_IsBytes : IsBytes (bytes "/subdir/a")
name_IsBytes = (
  omega arith,
  (
    omega arith,
    (
      omega arith,
      (omega arith, (omega arith, (omega arith, (omega arith, (omega arith, (omega arith, tt)))))),
    ),
  ),
)

name_to_ino-distinct_example : ¬ (name_to_ino (bytes "/subdir/a") ≡ name_to_ino (bytes "/sibdir/a"))
name_to_ino-distinct_example =
    name_to_ino-distinct (bytes "/subdir/a") 2 117 105 name_IsBytes (omega arith) (omega arith)
      (omega arith) (λ same. absurd (omega arith))
