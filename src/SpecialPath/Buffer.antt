-- ===== src/SpecialPath/Buffer.antt =====
-- fs/hepunion/helpers.c, `path_to_special`: its writes and the bounds of the buffer.
use hepunion.Base.{ℕ, zero, suc, ◌+◌, ◌-◌, ◌≤◌, ◌<◌, ◌≡◌, refl, ap, sym, ◌∙◌, pos}
use hepunion.Base.{true, none, some, List, [], ◌∷◌, ◌++◌, arith, ltb}
use hepunion.Base.{length, take, drop, path_max, le→ltb, lt→ltb, take-append}
use hepunion.Base.{length-append, take-length_le, length-drop, length-take}
use hepunion.CString.{strrchr}
use hepunion.CString.Laws.{Lacks, strrchr_split}
use hepunion.Names.{slash, Special, mark}
use hepunion.SpecialPath.{Branches, IsMeasured, path_to_special}
use mathlib.Core.List.{append_assoc}
use hepunion.SpecialPath.Bytes.{memcpy, c_string, path_to_special_bytes, ◌>>=◌}
use hepunion.CString.Laws.{Lacks-append, Lacks-take, Lacks-drop}

drop-length_add : (xs ys : List ℕ) (n : ℕ) → drop (length xs + n) (xs ++ ys) ≡ drop n ys
drop-length_add [] ys n = let e : 0 + n ≡ n = omega arith in rw e
drop-length_add (x ∷ xs) ys n =
    let e : suc (length xs) + n ≡ suc (length xs + n) = omega arith in
    rw e (drop-length_add xs ys n)

-- A write at the end of a known part extends it.
memcpy_extend :
    (known rest src : List ℕ) (off : ℕ)
    → off ≡ length known
    → length src ≤ length rest
    → memcpy (known ++ rest) off src ≡ some ((known ++ src) ++ drop (length src) rest)
unfolding memcpy
memcpy_extend known rest src off e fits = rw (
  e,
  le→ltb (length (known ++ rest)) (length known + length src)
      (omega (arith, length-append known rest)),
  take-append,
  drop-length_add known rest (length src),
  append_assoc known src (drop (length src) rest),
)

pub c_string_ends : (xs rest : List ℕ) → Lacks 0 xs → c_string (xs ++ 0 ∷ rest) ≡ xs
unfolding c_string
c_string_ends [] rest h = refl
c_string_ends (x ∷ xs) rest h = rw (h.0, c_string_ends xs rest h.1)

-- What the last `memcpy` copies is the name with its zero.
name_bytes :
    (path : List ℕ) (off n : ℕ)
    → off < length path
    → n ≡ length path - off
    → take n (drop (suc off) (path ++ 0 ∷ [])) ≡ drop (suc off) path ++ 0 ∷ []
name_bytes [] off n h e = absurd (omega arith)
name_bytes (x ∷ path) zero n h e =
    take-length_le n (path ++ 0 ∷ []) (omega (arith, length-append path (0 ∷ [])))
name_bytes (x ∷ path) (suc off) n h e = name_bytes path off n (omega arith) (omega arith)

module _ (path : List ℕ) (type : Special) (b : Branches) (outpath : List ℕ) where
  -- What stands in the buffer before the zero that ends it is written once more.
  abbrev body : ℕ → List ℕ
  body off =
      ((take b.rw_len b.read_write_branch ++ take (suc off) path) ++ mark type)
      ++ (drop (suc off) path ++ 0 ∷ [])

  abbrev rest : ℕ → List ℕ
  rest off = drop (length (drop (suc off) path ++ 0 ∷ [])) (
      drop (length (mark type)) (
        drop (length (take (suc off) path))
          (drop (length (take b.rw_len b.read_write_branch)) outpath)))

module _ (path : List ℕ) (type : Special) (b : Branches) (outpath : List ℕ) (off : ℕ)
    (m : IsMeasured b) (found : strrchr path slash ≡ some off) (full : length outpath ≡ path_max)
    (fits : b.rw_len + length path + 5 ≤ path_max) where
  off_lt : off < length path
  off_lt = (strrchr_split slash path off found).0

  len_rw : length (take b.rw_len b.read_write_branch) ≡ b.rw_len
  len_rw = length-take b.rw_len b.read_write_branch (omega (arith, m.rw))

  len_dir : length (take (suc off) path) ≡ suc off
  len_dir = length-take (suc off) path off_lt

  len_mark : (t : Special) → length (mark t) ≡ 4
  len_mark Special.me = refl
  len_mark Special.wh = refl

  len_name : length (drop (suc off) path ++ 0 ∷ []) ≡ length path - off
  len_name =
      omega
        (arith, length-append (drop (suc off) path) (0 ∷ []), length-drop (suc off) path, off_lt)

  before_zero : path_to_special_bytes path type b outpath ≡ (
      memcpy
        (body path type b outpath off ++ rest path type b outpath off)
        (b.rw_len + suc off + 4 + (length path - off))
        (0 ∷ [])
      >>= λ o. some (pos 0, o))
  unfolding path_to_special_bytes
  before_zero =
      let rw_part = take b.rw_len b.read_write_branch in
      let dir_part = take (suc off) path in
      let name_part = drop (suc off) path ++ 0 ∷ [] in
      let r1 = drop (length rw_part) outpath in
      let r2 = drop (length dir_part) r1 in
      let r3 = drop (length (mark type)) r2 in
      let l1 = length-drop (length rw_part) outpath in
      let l2 = length-drop (length dir_part) r1 in
      let l3 = length-drop (length (mark type)) r2 in
      let k2 = length-append rw_part dir_part in
      let k3 = length-append (rw_part ++ dir_part) (mark type) in
      rw (
        found,
        path_to_special_bytes,
        le→ltb path_max (b.rw_len + length path + 5) fits,
        le→ltb path_max (b.rw_len + off + 5) (omega (arith, off_lt)),
        name_bytes path off (length path - off) off_lt refl,
        memcpy_extend [] outpath rw_part 0 refl (omega (arith, len_rw)),
        memcpy_extend rw_part r1 dir_part b.rw_len (sym len_rw)
            (omega (arith, len_rw, len_dir, l1, off_lt)),
        memcpy_extend (rw_part ++ dir_part) r2 (mark type) (b.rw_len + suc off)
            (omega (arith, len_rw, len_dir, k2))
            (omega (arith, len_rw, len_dir, len_mark type, l1, l2, off_lt)),
        memcpy_extend ((rw_part ++ dir_part) ++ mark type) r3 name_part (b.rw_len + suc off + 4)
            (omega (arith, len_rw, len_dir, len_mark type, k2, k3))
            (omega (arith, len_rw, len_dir, len_mark type, len_name, l1, l2, l3, off_lt)),
      )

  length-body : length (body path type b outpath off) ≡ b.rw_len + length path + 5
  length-body =
      let rw_part = take b.rw_len b.read_write_branch in
      let dir_part = take (suc off) path in
      omega (
        arith,
        len_rw,
        len_dir,
        len_mark type,
        len_name,
        off_lt,
        length-append rw_part dir_part,
        length-append (rw_part ++ dir_part) (mark type),
        length-append ((rw_part ++ dir_part) ++ mark type) (drop (suc off) path ++ 0 ∷ []),
      )

  length-rest : length (rest path type b outpath off) + (b.rw_len + length path + 5) ≡ path_max
  length-rest =
      let r1 = drop (length (take b.rw_len b.read_write_branch)) outpath in
      let r2 = drop (length (take (suc off) path)) r1 in
      let r3 = drop (length (mark type)) r2 in
      omega (
        arith,
        len_rw,
        len_dir,
        len_mark type,
        len_name,
        off_lt,
        length-drop (length (take b.rw_len b.read_write_branch)) outpath,
        length-drop (length (take (suc off) path)) r1,
        length-drop (length (mark type)) r2,
        length-drop (length (drop (suc off) path ++ 0 ∷ [])) r3,
      )

  end_of_body : b.rw_len + suc off + 4 + (length path - off) ≡ length (body path type b outpath off)
  end_of_body = omega (arith, length-body, off_lt)

  -- For a path that has a slash, a measured RW branch, a buffer of `path_max` bytes and
  -- `rw_len + len + 5 = path_max`, which the guard lets through, `outpath[written] = 0` writes
  -- behind the end of the buffer.
  pub path_to_special_bytes_overflows :
      b.rw_len + length path + 5 ≡ path_max → path_to_special_bytes path type b outpath ≡ none
  unfolding memcpy
  path_to_special_bytes_overflows e =
      let all = body path type b outpath off ++ rest path type b outpath off in
      let at = b.rw_len + suc off + 4 + (length path - off) in
      let room = length-append (body path type b outpath off) (rest path type b outpath off) in
      let past : ltb (length all) (at + 1) ≡ true =
        lt→ltb _ _ (omega (arith, length-body, length-rest, off_lt, room)) in
      let fault : memcpy all at (0 ∷ []) ≡ none = rw past in
      before_zero ∙ ap (λ w. w >>= λ o. some (pos 0, o)) fault

  pub written :
      b.rw_len + length path + 5 < path_max
      → path_to_special_bytes path type b outpath
        ≡ some (
          pos 0,
          (body path type b outpath off ++ 0 ∷ []) ++ drop 1 (rest path type b outpath off),
        )
  written lt =
      before_zero
      ∙ ap (λ m. m >>= λ o. some (pos 0, o))
          (memcpy_extend (body path type b outpath off) (rest path type b outpath off) (0 ∷ []) _
            end_of_body (omega (arith, length-rest)))

mark-Lacks_zero : (t : Special) → Lacks 0 (mark t)
mark-Lacks_zero Special.me = (refl, (refl, (refl, (refl, tt))))
mark-Lacks_zero Special.wh = (refl, (refl, (refl, (refl, tt))))

c_string-body :
    (a d k n r : List ℕ)
    → Lacks 0 a
    → Lacks 0 d
    → Lacks 0 k
    → Lacks 0 n
    → c_string (((((a ++ d) ++ k) ++ (n ++ 0 ∷ [])) ++ 0 ∷ []) ++ r) ≡ a ++ (d ++ (k ++ n))
c_string-body a d k n r la ld lk ln =
    let regroup : ((((a ++ d) ++ k) ++ (n ++ 0 ∷ [])) ++ 0 ∷ []) ++ r
        ≡ (a ++ (d ++ (k ++ n))) ++ 0 ∷ 0 ∷ r =
      simp append_assoc in
    let lacks =
      Lacks-append 0 a (d ++ (k ++ n)) la
        (Lacks-append 0 d (k ++ n) ld (Lacks-append 0 k n lk ln)) in
    rw regroup (c_string_ends _ (0 ∷ r) lacks)

-- For a path that has a slash, with no zero byte in it and in the RW branch, a measured RW branch,
-- a buffer of `path_max` bytes and `rw_len + len + 5 < path_max`, the writes of `path_to_special`
-- stay in the buffer, and leave the string that `path_to_special` gives.
pub path_to_special_bytes_refines :
    (path : List ℕ) (type : Special) (b : Branches) (outpath : List ℕ) (off : ℕ)
    → IsMeasured b
    → Lacks 0 path
    → Lacks 0 b.read_write_branch
    → length outpath ≡ path_max
    → strrchr path slash ≡ some off
    → b.rw_len + length path + 5 < path_max
    → (buf : List ℕ) × (path_to_special_bytes path type b outpath ≡ some (pos 0, buf))
      × (path_to_special path type b outpath ≡ (pos 0, c_string buf))
unfolding path_to_special
path_to_special_bytes_refines path type b outpath off m lp lb full found lt = (
  (body path type b outpath off ++ 0 ∷ []) ++ drop 1 (rest path type b outpath off),
  written path type b outpath off m found full (omega arith) lt,
  rw
      (
        found,
        path_to_special,
        le→ltb path_max (b.rw_len + length path + 5) (omega arith),
        le→ltb path_max (b.rw_len + off + 5)
            (omega (arith, off_lt path type b outpath off m found full (omega arith))),
      )
      (ap (λ w. (pos 0, w))
        (sym (
          c_string-body _ _ (mark type) _ _ (Lacks-take 0 _ _ lb) (Lacks-take 0 (suc off) path lp)
            (mark-Lacks_zero type) (Lacks-drop 0 (suc off) path lp)))),
)
