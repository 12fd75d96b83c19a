-- ===== src/SpecialPath.antt =====
-- fs/hepunion/helpers.c, `path_to_special`: the path on the RW branch of the metadata file or the
-- whiteout of a path of the union.
pub mod Laws
pub mod Bytes
pub mod Buffer
use hepunion.Base.{ℕ, suc, ◌+◌, ◌≡◌, ℤ, pos, Option, none, some, List, ◌++◌, ltb, if◌then◌else◌}
use hepunion.Base.{length, take, drop, path_max}
use hepunion.Base.Errno.{einval, enametoolong}
use hepunion.CString.{strrchr}
use hepunion.Names.{slash, Special, mark}

-- The fields of `struct hepunion_sb_info` that name the branches.
pub record Branches : Type 0 where
  pub read_write_branch : List ℕ
  pub rw_len : ℕ
  pub read_only_branch : List ℕ
  pub ro_len : ℕ

-- What mounting establishes of the lengths.
pub record IsMeasured (b : Branches) : Type 0 where
  pub rw : b.rw_len ≡ length b.read_write_branch
  pub ro : b.ro_len ≡ length b.read_only_branch

-- The string that is left in `outpath`; on an early error that is what it held before. The second
-- test, which the first one implies, stands before the copy of the branch here.
unfoldable pub path_to_special : List ℕ → Special → Branches → List ℕ → ℤ × List ℕ
path_to_special path type b outpath = elim (strrchr path slash) [
  | none ↦ (einval, outpath)
  | some off ↦
      if ltb path_max (b.rw_len + length path + 5)
      then (enametoolong, outpath)
      else if ltb path_max (b.rw_len + off + 5)
      then (enametoolong, outpath)
      else (
        pos 0,
        take b.rw_len b.read_write_branch
            ++ (take (suc off) path ++ (mark type ++ drop (suc off) path)),
      )
]
