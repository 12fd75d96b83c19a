-- ===== src/Hash/Blocks.antt =====
-- The loop of the hash of fs/hepunion/hash.c over blocks of eight bytes.
use hepunion.Base.{ℕ, zero, suc, ◌^◌, ◌<◌, ◌≡◌, List, [], ◌∷◌, length, arith}
use hepunion.Hash.{mix, load, body}
use hepunion.Hash.Steps.{
  IsBytes, set_byte, mix-fits, mix-injective_state, mix-injective_key, tail-injective, tail-fits,
  length-set_byte, set_byte-IsBytes,
}

load-fits : (bytes : List ℕ) → IsBytes bytes → length bytes < 9 → load bytes < 2 ^ 64
unfolding load
load-fits [] bytes few = omega arith
load-fits (b0 ∷ []) (p0, bytes) few = omega arith
load-fits (b0 ∷ b1 ∷ []) (p0, (p1, bytes)) few = omega arith
load-fits (b0 ∷ b1 ∷ b2 ∷ []) (p0, (p1, (p2, bytes))) few = omega arith
load-fits (b0 ∷ b1 ∷ b2 ∷ b3 ∷ []) (p0, (p1, (p2, (p3, bytes)))) few = omega arith
load-fits (b0 ∷ b1 ∷ b2 ∷ b3 ∷ b4 ∷ []) (p0, (p1, (p2, (p3, (p4, bytes))))) few = omega arith
load-fits (b0 ∷ b1 ∷ b2 ∷ b3 ∷ b4 ∷ b5 ∷ []) (p0, (p1, (p2, (p3, (p4, (p5, bytes)))))) few =
    omega arith
load-fits (b0 ∷ b1 ∷ b2 ∷ b3 ∷ b4 ∷ b5 ∷ b6 ∷ []) (p0, (p1, (p2, (p3, (p4, (p5, (p6, bytes)))))))
      few =
    omega arith
load-fits (b0 ∷ b1 ∷ b2 ∷ b3 ∷ b4 ∷ b5 ∷ b6 ∷ b7 ∷ [])
      (p0, (p1, (p2, (p3, (p4, (p5, (p6, (p7, bytes)))))))) few =
    omega arith
load-fits (b0 ∷ b1 ∷ b2 ∷ b3 ∷ b4 ∷ b5 ∷ b6 ∷ b7 ∷ b8 ∷ bs) bytes few = absurd (omega arith)

body-injective :
    (h h' : ℕ) (path : List ℕ)
    → h < 2 ^ 64
    → h' < 2 ^ 64
    → IsBytes path
    → body h path ≡ body h' path
    → h ≡ h'
unfolding body
body-injective h h' [] hh hh' bytes e = tail-injective h h' [] hh hh' (omega arith) bytes e
body-injective h h' (b0 ∷ []) hh hh' bytes e =
    tail-injective h h' (b0 ∷ []) hh hh' (omega arith) bytes e
body-injective h h' (b0 ∷ b1 ∷ []) hh hh' bytes e =
    tail-injective h h' (b0 ∷ b1 ∷ []) hh hh' (omega arith) bytes e
body-injective h h' (b0 ∷ b1 ∷ b2 ∷ []) hh hh' bytes e =
    tail-injective h h' (b0 ∷ b1 ∷ b2 ∷ []) hh hh' (omega arith) bytes e
body-injective h h' (b0 ∷ b1 ∷ b2 ∷ b3 ∷ []) hh hh' bytes e =
    tail-injective h h' (b0 ∷ b1 ∷ b2 ∷ b3 ∷ []) hh hh' (omega arith) bytes e
body-injective h h' (b0 ∷ b1 ∷ b2 ∷ b3 ∷ b4 ∷ []) hh hh' bytes e =
    tail-injective h h' (b0 ∷ b1 ∷ b2 ∷ b3 ∷ b4 ∷ []) hh hh' (omega arith) bytes e
body-injective h h' (b0 ∷ b1 ∷ b2 ∷ b3 ∷ b4 ∷ b5 ∷ []) hh hh' bytes e =
    tail-injective h h' (b0 ∷ b1 ∷ b2 ∷ b3 ∷ b4 ∷ b5 ∷ []) hh hh' (omega arith) bytes e
body-injective h h' (b0 ∷ b1 ∷ b2 ∷ b3 ∷ b4 ∷ b5 ∷ b6 ∷ []) hh hh' bytes e =
    tail-injective h h' (b0 ∷ b1 ∷ b2 ∷ b3 ∷ b4 ∷ b5 ∷ b6 ∷ []) hh hh' (omega arith) bytes e
body-injective h h' (b0 ∷ b1 ∷ b2 ∷ b3 ∷ b4 ∷ b5 ∷ b6 ∷ b7 ∷ rest) hh hh'
      (p0, (p1, (p2, (p3, (p4, (p5, (p6, (p7, bytes)))))))) e =
    mix-injective_state h h' _ hh hh' (
      body-injective (mix h (load (b0 ∷ b1 ∷ b2 ∷ b3 ∷ b4 ∷ b5 ∷ b6 ∷ b7 ∷ [])))
        (mix h' (load (b0 ∷ b1 ∷ b2 ∷ b3 ∷ b4 ∷ b5 ∷ b6 ∷ b7 ∷ []))) rest (mix-fits h _)
        (mix-fits h' _) bytes e)

-- The block of eight bytes that the loop reads shows in the result.
block-injective :
    (h : ℕ) (block block' rest : List ℕ)
    → h < 2 ^ 64
    → IsBytes block
    → IsBytes block'
    → length block < 9
    → length block' < 9
    → IsBytes rest
    → body (mix h (load block)) rest ≡ body (mix h (load block')) rest
    → load block ≡ load block'
block-injective h block block' rest hh hb hb' few few' bytes e =
    mix-injective_key h (load block) (load block') hh (load-fits block hb few)
      (load-fits block' hb' few')
      (body-injective (mix h (load block)) (mix h (load block')) rest (mix-fits h _) (mix-fits h _)
        bytes e)

load-set :
    (j b b' : ℕ) (bytes : List ℕ)
    → j < length bytes
    → load (set_byte j b bytes) ≡ load (set_byte j b' bytes)
    → b ≡ b'
unfolding load
load-set j b b' [] inside e = absurd (omega arith)
load-set zero b b' (c ∷ bs) inside e = omega arith
load-set (suc j) b b' (c ∷ bs) inside e = load-set j b b' bs (omega arith) (omega arith)

pub block-set :
    (h j b b' : ℕ) (block rest : List ℕ)
    → h < 2 ^ 64
    → length block < 9
    → j < length block
    → IsBytes block
    → IsBytes rest
    → b < 256
    → b' < 256
    → body (mix h (load (set_byte j b block))) rest ≡ body (mix h (load (set_byte j b' block))) rest
    → b ≡ b'
block-set h j b b' block rest hh few inside bytes after hb hb' e =
    let same = length-set_byte j b block in
    let same' = length-set_byte j b' block in
    load-set j b b' block inside (
      block-injective h (set_byte j b block) (set_byte j b' block) rest hh
        (set_byte-IsBytes j b block hb bytes) (set_byte-IsBytes j b' block hb' bytes) (omega arith)
        (omega arith) after e)

pub body-fits : (h : ℕ) (path : List ℕ) → h < 2 ^ 64 → body h path < 2 ^ 64
unfolding body
body-fits h [] hh = tail-fits h [] hh
body-fits h (b0 ∷ []) hh = tail-fits h (b0 ∷ []) hh
body-fits h (b0 ∷ b1 ∷ []) hh = tail-fits h (b0 ∷ b1 ∷ []) hh
body-fits h (b0 ∷ b1 ∷ b2 ∷ []) hh = tail-fits h (b0 ∷ b1 ∷ b2 ∷ []) hh
body-fits h (b0 ∷ b1 ∷ b2 ∷ b3 ∷ []) hh = tail-fits h (b0 ∷ b1 ∷ b2 ∷ b3 ∷ []) hh
body-fits h (b0 ∷ b1 ∷ b2 ∷ b3 ∷ b4 ∷ []) hh = tail-fits h (b0 ∷ b1 ∷ b2 ∷ b3 ∷ b4 ∷ []) hh
body-fits h (b0 ∷ b1 ∷ b2 ∷ b3 ∷ b4 ∷ b5 ∷ []) hh =
    tail-fits h (b0 ∷ b1 ∷ b2 ∷ b3 ∷ b4 ∷ b5 ∷ []) hh
body-fits h (b0 ∷ b1 ∷ b2 ∷ b3 ∷ b4 ∷ b5 ∷ b6 ∷ []) hh =
    tail-fits h (b0 ∷ b1 ∷ b2 ∷ b3 ∷ b4 ∷ b5 ∷ b6 ∷ []) hh
body-fits h (b0 ∷ b1 ∷ b2 ∷ b3 ∷ b4 ∷ b5 ∷ b6 ∷ b7 ∷ rest) hh =
    body-fits (mix h _) rest (mix-fits h _)
