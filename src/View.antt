-- ===== src/View.antt =====
-- What the union shows of its two branches. Which paths the file systems under the branches have is
-- seen through `Vfs`: what the driver relies on of the kernel's lookups, as an interface.
pub mod Kept
pub mod Looks
pub mod Found
pub mod Writes
pub mod Absent
pub mod Gone
pub mod Hides
pub mod Ends
pub mod Removed
pub mod Rooted
pub mod Handlers
pub mod Unlinked
pub mod Made
pub mod Created
pub mod Linked
pub mod Links
pub mod Cleared
pub mod Upper
use hepunion.Base.{
  ℕ, ◌≡◌, ℤ, pos, is_neg, Bool, true, false, not, ◌&&◌, ◌||◌, Ptr, ptr, err_ptr, Option, none, some,
  List, [], ◌<◌, ◌++◌, length, path_max, if◌then◌else◌,
}
use hepunion.Kernel.{Kernel, Creds}
use hepunion.Names.{Special, is_flag_set, must_read_only, must_read_write, ignore_whiteout}
use hepunion.SpecialPath.{Branches, path_to_special}
use hepunion.Find.{read_only, read_write}

abbrev pub is_ptr : {A : Type 0} → Ptr A → Bool
is_ptr (ptr a) = true
is_ptr (err_ptr e) = false

abbrev pub root : Creds
root = record { fsuid = 0; fsgid = 0 }

module _ ⦃K : Kernel⦄ where
  -- `entry` is the place in the file systems to which a path leads, and `has` tells whether there
  -- is something at it. A lookup as root, without flags, finds what there is, an error pointer
  -- carries an error, and what only looks leaves the places as they are.
  pub record Vfs : Type 1 where
    pub Entry : Type 0
    pub entry : List ℕ → Entry
    pub has : K.State → Entry → Bool
    pub kern_path_finds :
        (p : List ℕ) (s : K.State) → is_ptr (K.kern_path p 0 root s).0 ≡ has s (entry p)
    pub kern_path_fails :
        (p : List ℕ) (f : ℕ) (c : Creds) (s : K.State) (e : ℤ)
        → (K.kern_path p f c s).0 ≡ err_ptr e
        → is_neg e ≡ true
    pub kern_path_keeps :
        (p : List ℕ) (f : ℕ) (c : Creds) (s : K.State) (e : Entry)
        → has (K.kern_path p f c s).1 e ≡ has s e
    pub path_put_keeps : (d : K.Dentry) (s : K.State) (e : Entry) → has (K.path_put d s) e ≡ has s e
    pub vfs_getattr_keeps :
        (d : K.Dentry) (c : Creds) (s : K.State) (e : Entry)
        → has (K.vfs_getattr d c s).1 e ≡ has s e
    pub kmalloc_keeps : (s : K.State) (e : Entry) → has (K.kmalloc s).1 e ≡ has s e

module _ ⦃K : Kernel⦄ ⦃V : Vfs⦄ (b : Branches) where
  -- What the RO branch shows of a path, whose whiteout would be at `wh_path`.
  abbrev pub ro_lookup : K.State → List ℕ → List ℕ → ℕ → Option ℤ
  ro_lookup s path wh_path flags =
      if V.has s (V.entry (b.read_only_branch ++ path))
        && (is_flag_set flags ignore_whiteout || not (V.has s (V.entry wh_path)))
      then some read_only
      else none

  -- What the union has under a path, for the flags of `find_file`: the file of the RW branch, or
  -- that of the RO branch where no whiteout hides it.
  abbrev pub union_lookup : K.State → List ℕ → List ℕ → ℕ → Option ℤ
  union_lookup s path wh_path flags =
      if is_flag_set flags must_read_only
      then ro_lookup s path wh_path flags
      else if V.has s (V.entry (b.read_write_branch ++ path))
      then some read_write
      else if is_flag_set flags must_read_write
      then none
      else ro_lookup s path wh_path flags

-- The paths of a name on both branches, and that of its whiteout, fit their buffers.
pub record IsNamed (b : Branches) (path wh_path : List ℕ) : Type 0 where
  pub rw_fits : length (b.read_write_branch ++ path) < path_max
  pub ro_fits : length (b.read_only_branch ++ path) < path_max
  pub marked : path_to_special path Special.wh b [] ≡ (pos 0, wh_path)

-- A status of `find_file` that is no error.
abbrev pub answer : ℤ → Option ℤ
answer e = if is_neg e then none else some e
