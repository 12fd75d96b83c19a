-- ===== src/SpecialPath/Laws.antt =====
-- fs/hepunion/helpers.c, `path_to_special`: its result for a path, and the way back.
use hepunion.Base.{ℕ, zero, suc, ◌≢◌, ◌+◌, ◌≤◌, ◌≡◌, refl, ap, sym, ◌∙◌, pos, some}
use hepunion.Base.{List, [], ◌∷◌, ◌++◌, arith, length, take, drop, path_max}
use hepunion.Base.{le→ltb, take-append, length-append, take-length_le, Option-cases, inl, inr}
use hepunion.CString.{strrchr}
use hepunion.CString.Laws.{Lacks, strrchr-append}
use hepunion.Names.{slash, Special, mark}
use hepunion.SpecialPath.{Branches, IsMeasured, path_to_special}
use mathlib.Core.List.{append_assoc, append_cancel_left}
use hepunion.CString.Laws.{strrchr_split}

take-suc_append : (c : ℕ) (xs ys : List ℕ) → take (suc (length xs)) (xs ++ c ∷ ys) ≡ xs ++ c ∷ []
take-suc_append c [] ys = refl
take-suc_append c (x ∷ xs) ys = ap (λ r. x ∷ r) (take-suc_append c xs ys)

drop-suc_append : (c : ℕ) (xs ys : List ℕ) → drop (suc (length xs)) (xs ++ c ∷ ys) ≡ ys
drop-suc_append c [] ys = refl
drop-suc_append c (x ∷ xs) ys = drop-suc_append c xs ys

append-ne-nil : (xs : List ℕ) (c : ℕ) (ys : List ℕ) → xs ++ c ∷ ys ≢ []
append-ne-nil [] c ys h = cc
append-ne-nil (x ∷ xs) c ys h = cc

-- For a path `dir/name` whose name has no slash, where the lengths of the branches are measured
-- and the RW branch, the path and five bytes fit `path_max`, `path_to_special` succeeds with the
-- RW branch, `dir/`, the mark of the kind and the name.
pub path_to_special_split :
    (dir name : List ℕ) (type : Special) (b : Branches) (out : List ℕ)
    → IsMeasured b
    → Lacks slash name
    → length b.read_write_branch + length (dir ++ slash ∷ name) + 5 ≤ path_max
    → path_to_special (dir ++ slash ∷ name) type b out
      ≡ (pos 0, b.read_write_branch ++ ((dir ++ slash ∷ []) ++ (mark type ++ name)))
unfolding path_to_special
path_to_special_split dir name type b out m lacks fits =
    let len = length-append dir (slash ∷ name) in
    rw (
      strrchr-append slash dir name lacks,
      path_to_special,
      le→ltb path_max (b.rw_len + length (dir ++ slash ∷ name) + 5) (omega (arith, m.rw)),
      le→ltb path_max (b.rw_len + length dir + 5) (omega (arith, m.rw, len)),
      take-suc_append,
      drop-suc_append,
      m.rw,
      take-length_le (length b.read_write_branch) b.read_write_branch (omega arith),
    )

mark-Lacks : (type : Special) (name : List ℕ) → Lacks slash name → Lacks slash (mark type ++ name)
mark-Lacks Special.me name h = (refl, (refl, (refl, (refl, h))))
mark-Lacks Special.wh name h = (refl, (refl, (refl, (refl, h))))

mark_cancel : (t u : Special) (m n : List ℕ) → mark t ++ m ≡ mark u ++ n → (t ≡ u) × (m ≡ n)
mark_cancel Special.me Special.me m n h = (refl, ground arith)
mark_cancel Special.me Special.wh m n h = absurd (ground arith)
mark_cancel Special.wh Special.me m n h = absurd (ground arith)
mark_cancel Special.wh Special.wh m n h = (refl, ground arith)

-- The last slash of the marked path is the one of the directory.
join_cancel :
    (d e : List ℕ) (m n : List ℕ)
    → Lacks slash m
    → Lacks slash n
    → d ++ slash ∷ m ≡ e ++ slash ∷ n
    → (d ≡ e) × (m ≡ n)
join_cancel d e m n lm ln h =
    let at : some (length d) ≡ some (length e) =
      sym (strrchr-append slash d m lm)
      ∙ ap (λ s. strrchr s slash) h
      ∙ strrchr-append slash e n ln in
    let same_len : length d ≡ length e = cc in
    (
      sym (take-append d (slash ∷ m))
          ∙ ap (take (length d)) h
          ∙ ap (λ k. take k (e ++ slash ∷ n)) same_len
          ∙ take-append e (slash ∷ n),
      sym (drop-suc_append slash d m)
          ∙ ap (drop (suc (length d))) h
          ∙ ap (λ k. drop (suc k) (e ++ slash ∷ n)) same_len
          ∙ drop-suc_append slash e n,
    )

take-suc_split :
    (c i : ℕ) (p rest : List ℕ) → p ≡ take i p ++ c ∷ rest → take (suc i) p ≡ take i p ++ c ∷ []
take-suc_split c i [] rest h = absurd (append-ne-nil _ _ _ (sym h))
take-suc_split c zero (x ∷ p) rest h = ground arith
take-suc_split c (suc i) (x ∷ p) rest h = ap (λ r. x ∷ r) (take-suc_split c i p rest (ground arith))

-- What a success says of the path and the result.
record Marked (b : Branches) (p : List ℕ) (t : Special) (r : List ℕ) : Type 0 where
  dir : List ℕ
  name : List ℕ
  path : p ≡ dir ++ slash ∷ name
  lacks : Lacks slash name
  result : r ≡ b.read_write_branch ++ (dir ++ slash ∷ (mark t ++ name))

path_to_special_written :
    (p : List ℕ) (t : Special) (b : Branches) (out r : List ℕ) (off : ℕ)
    → strrchr p slash ≡ some off
    → path_to_special p t b out ≡ (pos 0, r)
    → r ≡ take b.rw_len b.read_write_branch ++ (take (suc off) p ++ (mark t ++ drop (suc off) p))
unfolding path_to_special
path_to_special_written p t b out r off e h = ground arith

path_to_special_inv :
    (p : List ℕ) (t : Special) (b : Branches) (out r : List ℕ)
    → IsMeasured b
    → path_to_special p t b out ≡ (pos 0, r)
    → Marked b p t r
unfolding path_to_special
path_to_special_inv p t b out r m h = elim (Option-cases (strrchr p slash)) [
  | inl e ↦ absurd (ground arith)
  | inr (off, e) ↦
      let (lt, whole, lacks) = strrchr_split slash p off e in
      record {
        dir = take off p;
        name = drop (suc off) p;
        path = whole;
        lacks = lacks;
        result =
            path_to_special_written p t b out r off e h
            ∙ ap (λ l. l ++ (take (suc off) p ++ (mark t ++ drop (suc off) p)))
                (take-length_le b.rw_len b.read_write_branch (omega (arith, m.rw)))
            ∙ ap (λ l. b.read_write_branch ++ (l ++ (mark t ++ drop (suc off) p)))
                (take-suc_split slash off p _ whole)
            ∙ ap (λ l. b.read_write_branch ++ l) (append_assoc (take off p) _ _);
      }
]

-- If two calls of `path_to_special`, over branches whose lengths are measured, succeed with one
-- result, their paths and their kinds are the same.
pub path_to_special_injective :
    (p q : List ℕ) (t u : Special) (b : Branches) (out₁ out₂ r : List ℕ)
    → IsMeasured b
    → path_to_special p t b out₁ ≡ (pos 0, r)
    → path_to_special q u b out₂ ≡ (pos 0, r)
    → (p ≡ q) × (t ≡ u)
path_to_special_injective p q t u b out₁ out₂ r m h k =
    let x = path_to_special_inv p t b out₁ r m h in
    let y = path_to_special_inv q u b out₂ r m k in
    let both = append_cancel_left b.read_write_branch _ _ (sym x.result ∙ y.result) in
    let (dirs, names) =
      join_cancel x.dir y.dir _ _ (mark-Lacks t x.name x.lacks) (mark-Lacks u y.name y.lacks)
        both in
    let (kinds, same_name) = mark_cancel t u x.name y.name names in
    (x.path ∙ rw (dirs, same_name) (sym y.path), kinds)

-- The name behind the last slash of the result is the marked name of the path.
pub path_to_special-last_name :
    (dir name : List ℕ) (t : Special) (b : Branches) (out r : List ℕ) (off : ℕ)
    → IsMeasured b
    → Lacks slash name
    → path_to_special (dir ++ slash ∷ name) t b out ≡ (pos 0, r)
    → strrchr r slash ≡ some off
    → drop (suc off) r ≡ mark t ++ name
path_to_special-last_name dir name t b out r off m lacks h e =
    let x = path_to_special_inv (dir ++ slash ∷ name) t b out r m h in
    let same_name = (join_cancel dir x.dir name x.name lacks x.lacks x.path).1 in
    let front : List ℕ = b.read_write_branch ++ x.dir in
    let whole : r ≡ front ++ slash ∷ (mark t ++ x.name) =
      x.result ∙ sym (append_assoc b.read_write_branch x.dir _) in
    let at : some off ≡ some (length front) =
      sym e
      ∙ ap (λ s. strrchr s slash) whole
      ∙ strrchr-append slash front _ (mark-Lacks t x.name x.lacks) in
    let same_off : off ≡ length front = cc in
    ap (λ k. drop (suc k) r) same_off
    ∙ ap (drop (suc (length front))) whole
    ∙ drop-suc_append slash front _
    ∙ ap (λ n. mark t ++ n) (sym same_name)
