-- ===== src/SpecialPath/Bytes.antt =====
-- fs/hepunion/helpers.c, `path_to_special` at the level of the bytes that it writes into
-- `outpath`: each `memcpy` in turn, where a write past the end of the buffer is a fault.
use hepunion.Base.{ℕ, suc, ◌+◌, ◌-◌, ℤ, pos, path_max, ◌==◌}
use hepunion.Base.{Option, none, some, List, [], ◌∷◌, ◌++◌, ltb, if◌then◌else◌, length, take, drop}
use hepunion.Base.Errno.{einval, enametoolong}
use hepunion.CString.{strrchr}
use hepunion.Names.{slash, Special, mark}
use hepunion.SpecialPath.{Branches}

infixl 5 ◌>>=◌
abbrev pub ◌>>=◌ : {A B : Type 0} → Option A → (A → Option B) → Option B
none >>= f = none
some a >>= f = f a

-- `memcpy(buf + off, src, n)` with the `n` bytes of `src`; `none` is a write out of bounds.
unfoldable pub memcpy : List ℕ → ℕ → List ℕ → Option (List ℕ)
memcpy buf off src =
    if ltb (length buf) (off + length src)
    then none
    else some (take off buf ++ (src ++ drop (off + length src) buf))

-- The bytes before the first zero.
unfoldable pub c_string : List ℕ → List ℕ
c_string [] = []
c_string (x ∷ xs) = let rest = c_string xs in if x == 0 then [] else x ∷ rest

-- The last `memcpy` takes its `len - off` bytes from behind the slash, the final zero of `path`
-- among them. The second test, which the first one implies, stands before the first `memcpy` here.
unfoldable pub path_to_special_bytes : List ℕ → Special → Branches → List ℕ → Option (ℤ × List ℕ)
path_to_special_bytes path type b outpath = elim (strrchr path slash) [
  | none ↦ some (einval, outpath)
  | some off ↦
      if ltb path_max (b.rw_len + length path + 5)
      then some (enametoolong, outpath)
      else if ltb path_max (b.rw_len + off + 5)
      then some (enametoolong, outpath)
      else do
        o ← memcpy outpath 0 (take b.rw_len b.read_write_branch)
        o ← memcpy o b.rw_len (take (suc off) path)
        o ← memcpy o (b.rw_len + suc off) (mark type)
        o ←
            memcpy o (b.rw_len + suc off + 4)
              (take (length path - off) (drop (suc off) (path ++ 0 ∷ [])))
        o ← memcpy o (b.rw_len + suc off + 4 + (length path - off)) (0 ∷ [])
        some (pos 0, o)
]
