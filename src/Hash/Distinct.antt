-- ===== src/Hash/Distinct.antt =====
-- The inode numbers of whole paths by the hash of fs/hepunion/hash.c.
use hepunion.Base.{
  ℕ, zero, suc, ◌*◌, ◌^◌, ◌<◌, ◌≡◌, refl, ap, sym, ◌∙◌, List, [], ◌∷◌, length, arith,
}
use hepunion.Hash.{
  u64, m, mix, load, tail, body, finish, murmur_hash_64a, name_to_ino, hepunion_seed,
}
use hepunion.Hash.Digits.{bit_xor-fits}
use hepunion.Hash.Steps.{IsBytes, set_byte, finish-injective, mix-fits, tail-set, length-set_byte}
use hepunion.Hash.Blocks.{block-set, body-fits}
use Prim.Native.Nat.{bit_xor}

body-short : (h : ℕ) (path : List ℕ) → length path < 8 → body h path ≡ tail h path
unfolding body
body-short h [] few = refl
body-short h (b0 ∷ []) few = refl
body-short h (b0 ∷ b1 ∷ []) few = refl
body-short h (b0 ∷ b1 ∷ b2 ∷ []) few = refl
body-short h (b0 ∷ b1 ∷ b2 ∷ b3 ∷ []) few = refl
body-short h (b0 ∷ b1 ∷ b2 ∷ b3 ∷ b4 ∷ []) few = refl
body-short h (b0 ∷ b1 ∷ b2 ∷ b3 ∷ b4 ∷ b5 ∷ []) few = refl
body-short h (b0 ∷ b1 ∷ b2 ∷ b3 ∷ b4 ∷ b5 ∷ b6 ∷ []) few = refl
body-short h (b0 ∷ b1 ∷ b2 ∷ b3 ∷ b4 ∷ b5 ∷ b6 ∷ b7 ∷ rest) few = absurd (omega arith)

short-set :
    (h j b b' : ℕ) (path : List ℕ)
    → h < 2 ^ 64
    → length path < 8
    → j < length path
    → IsBytes path
    → b < 256
    → b' < 256
    → body h (set_byte j b path) ≡ body h (set_byte j b' path)
    → b ≡ b'
short-set h j b b' path hh few inside bytes hb hb' e =
    let same = length-set_byte j b path in
    let same' = length-set_byte j b' path in
    tail-set h j b b' path hh few inside bytes hb hb' (
      sym (body-short h (set_byte j b path) (omega arith))
      ∙ e
      ∙ body-short h (set_byte j b' path) (omega arith))

body-set :
    (h j b b' : ℕ) (path : List ℕ)
    → h < 2 ^ 64
    → j < length path
    → IsBytes path
    → b < 256
    → b' < 256
    → body h (set_byte j b path) ≡ body h (set_byte j b' path)
    → b ≡ b'
unfolding body
body-set h j b b' [] hh inside bytes hb hb' e =
    short-set h j b b' [] hh (omega arith) inside bytes hb hb' e
body-set h j b b' (b0 ∷ []) hh inside bytes hb hb' e =
    short-set h j b b' (b0 ∷ []) hh (omega arith) inside bytes hb hb' e
body-set h j b b' (b0 ∷ b1 ∷ []) hh inside bytes hb hb' e =
    short-set h j b b' (b0 ∷ b1 ∷ []) hh (omega arith) inside bytes hb hb' e
body-set h j b b' (b0 ∷ b1 ∷ b2 ∷ []) hh inside bytes hb hb' e =
    short-set h j b b' (b0 ∷ b1 ∷ b2 ∷ []) hh (omega arith) inside bytes hb hb' e
body-set h j b b' (b0 ∷ b1 ∷ b2 ∷ b3 ∷ []) hh inside bytes hb hb' e =
    short-set h j b b' (b0 ∷ b1 ∷ b2 ∷ b3 ∷ []) hh (omega arith) inside bytes hb hb' e
body-set h j b b' (b0 ∷ b1 ∷ b2 ∷ b3 ∷ b4 ∷ []) hh inside bytes hb hb' e =
    short-set h j b b' (b0 ∷ b1 ∷ b2 ∷ b3 ∷ b4 ∷ []) hh (omega arith) inside bytes hb hb' e
body-set h j b b' (b0 ∷ b1 ∷ b2 ∷ b3 ∷ b4 ∷ b5 ∷ []) hh inside bytes hb hb' e =
    short-set h j b b' (b0 ∷ b1 ∷ b2 ∷ b3 ∷ b4 ∷ b5 ∷ []) hh (omega arith) inside bytes hb hb' e
body-set h j b b' (b0 ∷ b1 ∷ b2 ∷ b3 ∷ b4 ∷ b5 ∷ b6 ∷ []) hh inside bytes hb hb' e =
    short-set h j b b' (b0 ∷ b1 ∷ b2 ∷ b3 ∷ b4 ∷ b5 ∷ b6 ∷ []) hh (omega arith) inside bytes hb hb'
      e
body-set h zero b b' (b0 ∷ b1 ∷ b2 ∷ b3 ∷ b4 ∷ b5 ∷ b6 ∷ b7 ∷ rest) hh inside
      (p0, (p1, (p2, (p3, (p4, (p5, (p6, (p7, after)))))))) hb hb' e =
    block-set h 0 b b' (b0 ∷ b1 ∷ b2 ∷ b3 ∷ b4 ∷ b5 ∷ b6 ∷ b7 ∷ []) rest hh (omega arith)
      (omega arith) (p0, (p1, (p2, (p3, (p4, (p5, (p6, (p7, tt)))))))) after hb hb' e
body-set h (suc zero) b b' (b0 ∷ b1 ∷ b2 ∷ b3 ∷ b4 ∷ b5 ∷ b6 ∷ b7 ∷ rest) hh inside
      (p0, (p1, (p2, (p3, (p4, (p5, (p6, (p7, after)))))))) hb hb' e =
    block-set h 1 b b' (b0 ∷ b1 ∷ b2 ∷ b3 ∷ b4 ∷ b5 ∷ b6 ∷ b7 ∷ []) rest hh (omega arith)
      (omega arith) (p0, (p1, (p2, (p3, (p4, (p5, (p6, (p7, tt)))))))) after hb hb' e
body-set h (suc (suc zero)) b b' (b0 ∷ b1 ∷ b2 ∷ b3 ∷ b4 ∷ b5 ∷ b6 ∷ b7 ∷ rest) hh inside
      (p0, (p1, (p2, (p3, (p4, (p5, (p6, (p7, after)))))))) hb hb' e =
    block-set h 2 b b' (b0 ∷ b1 ∷ b2 ∷ b3 ∷ b4 ∷ b5 ∷ b6 ∷ b7 ∷ []) rest hh (omega arith)
      (omega arith) (p0, (p1, (p2, (p3, (p4, (p5, (p6, (p7, tt)))))))) after hb hb' e
body-set h (suc (suc (suc zero))) b b' (b0 ∷ b1 ∷ b2 ∷ b3 ∷ b4 ∷ b5 ∷ b6 ∷ b7 ∷ rest) hh inside
      (p0, (p1, (p2, (p3, (p4, (p5, (p6, (p7, after)))))))) hb hb' e =
    block-set h 3 b b' (b0 ∷ b1 ∷ b2 ∷ b3 ∷ b4 ∷ b5 ∷ b6 ∷ b7 ∷ []) rest hh (omega arith)
      (omega arith) (p0, (p1, (p2, (p3, (p4, (p5, (p6, (p7, tt)))))))) after hb hb' e
body-set h (suc (suc (suc (suc zero)))) b b' (b0 ∷ b1 ∷ b2 ∷ b3 ∷ b4 ∷ b5 ∷ b6 ∷ b7 ∷ rest) hh
      inside (p0, (p1, (p2, (p3, (p4, (p5, (p6, (p7, after)))))))) hb hb' e =
    block-set h 4 b b' (b0 ∷ b1 ∷ b2 ∷ b3 ∷ b4 ∷ b5 ∷ b6 ∷ b7 ∷ []) rest hh (omega arith)
      (omega arith) (p0, (p1, (p2, (p3, (p4, (p5, (p6, (p7, tt)))))))) after hb hb' e
body-set h (suc (suc (suc (suc (suc zero))))) b b' (b0 ∷ b1 ∷ b2 ∷ b3 ∷ b4 ∷ b5 ∷ b6 ∷ b7 ∷ rest) hh
      inside (p0, (p1, (p2, (p3, (p4, (p5, (p6, (p7, after)))))))) hb hb' e =
    block-set h 5 b b' (b0 ∷ b1 ∷ b2 ∷ b3 ∷ b4 ∷ b5 ∷ b6 ∷ b7 ∷ []) rest hh (omega arith)
      (omega arith) (p0, (p1, (p2, (p3, (p4, (p5, (p6, (p7, tt)))))))) after hb hb' e
body-set h (suc (suc (suc (suc (suc (suc zero)))))) b b'
      (b0 ∷ b1 ∷ b2 ∷ b3 ∷ b4 ∷ b5 ∷ b6 ∷ b7 ∷ rest) hh inside
      (p0, (p1, (p2, (p3, (p4, (p5, (p6, (p7, after)))))))) hb hb' e =
    block-set h 6 b b' (b0 ∷ b1 ∷ b2 ∷ b3 ∷ b4 ∷ b5 ∷ b6 ∷ b7 ∷ []) rest hh (omega arith)
      (omega arith) (p0, (p1, (p2, (p3, (p4, (p5, (p6, (p7, tt)))))))) after hb hb' e
body-set h (suc (suc (suc (suc (suc (suc (suc zero))))))) b b'
      (b0 ∷ b1 ∷ b2 ∷ b3 ∷ b4 ∷ b5 ∷ b6 ∷ b7 ∷ rest) hh inside
      (p0, (p1, (p2, (p3, (p4, (p5, (p6, (p7, after)))))))) hb hb' e =
    block-set h 7 b b' (b0 ∷ b1 ∷ b2 ∷ b3 ∷ b4 ∷ b5 ∷ b6 ∷ b7 ∷ []) rest hh (omega arith)
      (omega arith) (p0, (p1, (p2, (p3, (p4, (p5, (p6, (p7, tt)))))))) after hb hb' e
body-set h (suc (suc (suc (suc (suc (suc (suc (suc j)))))))) b b'
      (b0 ∷ b1 ∷ b2 ∷ b3 ∷ b4 ∷ b5 ∷ b6 ∷ b7 ∷ rest) hh inside
      (p0, (p1, (p2, (p3, (p4, (p5, (p6, (p7, after)))))))) hb hb' e =
    body-set (mix h (load (b0 ∷ b1 ∷ b2 ∷ b3 ∷ b4 ∷ b5 ∷ b6 ∷ b7 ∷ []))) j b b' rest (mix-fits h _)
      (omega arith) after hb hb' e

-- Paths of one length with one inode number leave the loop with the same hash.
name_to_ino-body :
    (start : ℕ) (path path' : List ℕ)
    → start < 2 ^ 64
    → bit_xor hepunion_seed (u64 (length path * m)) ≡ start
    → bit_xor hepunion_seed (u64 (length path' * m)) ≡ start
    → name_to_ino path ≡ name_to_ino path'
    → body start path ≡ body start path'
unfolding name_to_ino murmur_hash_64a
name_to_ino-body start path path' hs one other e =
    finish-injective (body start path) (body start path') (body-fits start path hs)
      (body-fits start path' hs)
      (ap (λ h. finish (body h path)) (sym one) ∙ e ∙ ap (λ h. finish (body h path')) other)

-- Take a path all of whose elements are less than 256, a place in it, and two different numbers less
-- than 256. The two paths that have the one number or the other at that place, and else agree with the
-- given path, have different inode numbers.
pub name_to_ino-distinct :
    (path : List ℕ) (j b b' : ℕ)
    → IsBytes path
    → j < length path
    → b < 256
    → b' < 256
    → ¬ (b ≡ b')
    → ¬ (name_to_ino (set_byte j b path) ≡ name_to_ino (set_byte j b' path))
name_to_ino-distinct path j b b' bytes inside hb hb' differs e =
    let start = bit_xor hepunion_seed (u64 (length path * m)) in
    let fits : start < 2 ^ 64 = bit_xor-fits hepunion_seed _ (omega arith) (omega arith) in
    let same : (c : ℕ) → bit_xor hepunion_seed (u64 (length (set_byte j c path) * m)) ≡ start =
      (λ c. ap (λ n. bit_xor hepunion_seed (u64 (n * m))) (length-set_byte j c path)) in
    differs (
      body-set start j b b' path fits inside bytes hb hb'
        (name_to_ino-body start (set_byte j b path) (set_byte j b' path) fits (same b) (same b') e))
