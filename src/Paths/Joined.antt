-- ===== src/Paths/Joined.antt =====
-- fs/hepunion/helpers.c, `get_full_path_d` and `get_relative_path`: the string that they leave.
use hepunion.Base.{
  ℕ, zero, suc, ◌+◌, ◌-◌, ◌*◌, ◌≤◌, ◌<◌, ◌≡◌, refl, ap, ◌∙◌, pos, true, false, some, List, [], ◌∷◌,
}
use hepunion.Base.{◌++◌, ◌==◌, arith, length, take, drop, path_max, length-append, le→ltb}
use hepunion.Kernel.{Kernel}
use hepunion.Exec.{World, pure, ◌>>=◌, ask, with_buffer, kmalloc}
use hepunion.CString.Laws.{Lacks}
use hepunion.Names.{slash}
use hepunion.SpecialPath.{Branches}
use hepunion.SpecialPath.Bytes.{c_string}
use hepunion.Paths.{path_loop, or_root, overwrite, get_full_path_d, relative, get_dentry_path}
use mathlib.Core.List.{append_assoc, append-nil}
use hepunion.SpecialPath.Buffer.{c_string_ends}

-- The names from a dentry up, its own first, as a path from the root down.
unfoldable pub joined : List (List ℕ) → List ℕ
joined [] = []
joined (name ∷ parents) = joined parents ++ slash ∷ name

-- The root's path is a slash.
abbrev pub rooted : List ℕ → List ℕ
rooted [] = slash ∷ []
rooted (c ∷ path) = c ∷ path

path_loop-joined :
    (names : List (List ℕ)) (buflen : ℕ) (end : List ℕ)
    → length (joined names) ≤ buflen
    → path_loop names buflen end ≡ some (buflen - length (joined names), joined names ++ end)
unfolding path_loop joined
path_loop-joined [] buflen end fits = ap (λ n. some (n, end)) (omega arith)
path_loop-joined (name ∷ parents) buflen end fits =
    let left = buflen - (length name + 1) in
    let len = length-append (joined parents) (slash ∷ name) in
    let same_len : left - length (joined parents) ≡ buflen - length (joined (name ∷ parents)) =
      omega (arith, len) in
    rw
      (
        le→ltb buflen (length name + 1) (omega (arith, len)),
        path_loop-joined parents left (slash ∷ (name ++ end)) (omega (arith, len)),
        same_len,
        append_assoc (joined parents) (slash ∷ name) end,
      )
      refl

-- A string and its zero, with something behind them.
record Holds (s buf : List ℕ) : Type 0 where
  rest : List ℕ
  whole : buf ≡ s ++ 0 ∷ rest

take-append_lt :
    (n : ℕ) (s rest : List ℕ)
    → length s < n
    → take n (s ++ 0 ∷ rest) ≡ s ++ 0 ∷ take (n - length s - 1) rest
take-append_lt zero s rest lt = absurd (omega arith)
take-append_lt (suc n) [] rest lt = ap (λ k. 0 ∷ take k rest) (omega arith)
take-append_lt (suc n) (c ∷ s) rest lt =
    let same_left : n - length s - 1 ≡ suc n - suc (length s) - 1 = omega arith in
    ap (λ r. c ∷ r) (take-append_lt n s rest (omega arith))
    ∙ ap (λ k. c ∷ (s ++ 0 ∷ take k rest)) same_left

overwrite-Holds :
    (n : ℕ) (s src dest : List ℕ) → Holds s src → length s < n → Holds s (overwrite n src dest)
overwrite-Holds n s src dest h lt = record {
  rest = take (n - length s - 1) h.rest ++ drop n dest;
  whole =
      ap (λ l. take n l ++ drop n dest) h.whole
      ∙ ap (λ l. l ++ drop n dest) (take-append_lt n s h.rest lt)
      ∙ append_assoc s _ _;
}

Holds-c_string : (s buf : List ℕ) → Lacks 0 s → Holds s buf → c_string buf ≡ s
Holds-c_string s buf lacks h = ap c_string h.whole ∙ c_string_ends s h.rest lacks

le-rooted : (path : List ℕ) → length path ≤ length (rooted path)
le-rooted [] = omega arith
le-rooted (c ∷ path) = omega arith

or_root-rooted :
    (path : List ℕ)
    → length path < path_max
    → or_root (path_max - 1 - length path, path)
      ≡ (path_max - 1 - length (rooted path), rooted path)
or_root-rooted [] lt = refl
or_root-rooted (c ∷ path) lt =
    let less : (path_max - 1 - length (c ∷ path) == path_max - 1) ≡ false = ground arith in
    rw less refl

module _ ⦃K : Kernel⦄ where
  full_path :
      (dentry : K.Dentry) (names : List (List ℕ)) (real_path : List ℕ) (w : World)
      → ((k : K.State) → (K.kmalloc k).0 ≡ true)
      → ((k : K.State) → K.d_names dentry k ≡ names)
      → 2 * length (rooted (joined names)) < path_max - 1
      → let found = (get_full_path_d dentry real_path w).0 in
        (found.0 ≡ pos (path_max - 1 - length (rooted (joined names))))
        × Holds (rooted (joined names)) found.1
  unfolding get_full_path_d with_buffer ◌>>=◌ ask pure kmalloc
  full_path dentry names real_path w memory named fits =
      let path = joined names in
      let n = path_max - 1 - length (rooted path) in
      let behind = K.behind (K.kmalloc w.kernel).1 in
      let small = le-rooted path in
      let nil : path ++ [] ≡ path = append-nil path in
      rw
        (
          memory w.kernel,
          named (K.kmalloc w.kernel).1,
          path_loop-joined names (path_max - 1) [] (omega (arith, small)),
          nil,
          or_root-rooted path (omega (arith, small)),
        )
        (
          refl,
          overwrite-Holds n (rooted path) (rooted path ++ 0 ∷ behind) real_path
              (record { rest = behind; whole = refl }) (omega arith),
        )

module _ ⦃K : Kernel⦄ (b : Branches) where
  -- Where there is memory, the names from a dentry up to the root have no zero byte and the path
  -- that they make is shorter than half the buffer, `get_relative_path` for a dentry of the union
  -- succeeds and leaves that path: a slash before each name, from the root down, or one slash for
  -- the root.
  pub dentry_path-joined :
      (dentry : K.Dentry) (names : List (List ℕ)) (old : List ℕ) (w : World)
      → ((k : K.State) → (K.kmalloc k).0 ≡ true)
      → ((k : K.State) → K.d_names dentry k ≡ names)
      → Lacks 0 (rooted (joined names))
      → 2 * length (rooted (joined names)) < path_max - 1
      → let found = (get_dentry_path b dentry old true w).0 in
        (found.0 ≡ pos 0) × (c_string found.1 ≡ rooted (joined names))
  unfolding get_dentry_path with_buffer ◌>>=◌ ask pure kmalloc relative
  dentry_path-joined dentry names old w memory named lacks fits =
      let v : World = record w { kernel = (K.kmalloc w.kernel).1; live = suc w.live } in
      let full = full_path dentry names (K.fresh v.kernel) v memory named fits in
      let found = get_full_path_d dentry (K.fresh v.kernel) v in
      let n = path_max - 1 - length (rooted (joined names)) in
      rw (memory w.kernel, full.0)
        (
          refl,
          Holds-c_string (rooted (joined names)) _ lacks
              (overwrite-Holds n (rooted (joined names)) found.0.1 old full.1 (omega arith)),
        )
