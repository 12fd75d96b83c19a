-- ===== src/Hash/Steps.antt =====
-- The steps of the hash of fs/hepunion/hash.c: on a block, on the last bytes and at the end.
use hepunion.Base.{
  ℕ, zero, suc, ◌+◌, ◌*◌, ◌/◌, ◌^◌, ◌<◌, ◌≡◌, refl, ap, sym, ◌∙◌, List, [], ◌∷◌, length, arith,
}
use hepunion.Hash.{u64, m, mix_key, mix, tail_bytes, tail, finish}
use hepunion.Hash.Digits.{
  times_m-injective, shift_xor-injective, bit_xor-fits, bit_xor_comm, bit_xor_cancel,
}
use Prim.Native.Nat.{bit_xor}

-- Every number of the list is a byte.
abbrev pub IsBytes : List ℕ → Type 0
IsBytes [] = Unit
IsBytes (b ∷ bs) = (b < 256) × IsBytes bs

-- The list with another byte at one place of it.
abbrev pub set_byte : ℕ → ℕ → List ℕ → List ℕ
set_byte i b [] = []
set_byte zero b (_ ∷ bs) = b ∷ bs
set_byte (suc i) b (c ∷ bs) = c ∷ set_byte i b bs

u64-fits : (n : ℕ) → u64 n < 2 ^ 64
u64-fits n = omega arith

bit_xor_cancel_left : (a b b' : ℕ) → bit_xor a b ≡ bit_xor a b' → b ≡ b'
bit_xor_cancel_left a b b' h = bit_xor_cancel b b' a (bit_xor_comm b a ∙ h ∙ bit_xor_comm a b')

shift_xor-fits : (x : ℕ) → x < 2 ^ 64 → bit_xor x (x / 2 ^ 47) < 2 ^ 64
shift_xor-fits x hx = bit_xor-fits x (x / 2 ^ 47) hx (omega arith)

pub finish-injective : (x y : ℕ) → x < 2 ^ 64 → y < 2 ^ 64 → finish x ≡ finish y → x ≡ y
unfolding finish
finish-injective x y hx hy h = shift_xor-injective x y hx hy (
    times_m-injective (bit_xor x (x / 2 ^ 47)) (bit_xor y (y / 2 ^ 47)) (shift_xor-fits x hx)
      (shift_xor-fits y hy)
      (shift_xor-injective (u64 (bit_xor x (x / 2 ^ 47) * m)) (u64 (bit_xor y (y / 2 ^ 47) * m))
        (u64-fits _) (u64-fits _) h))

mix_key-injective : (x y : ℕ) → x < 2 ^ 64 → y < 2 ^ 64 → mix_key x ≡ mix_key y → x ≡ y
mix_key-injective x y hx hy h = times_m-injective x y hx hy (
    shift_xor-injective (u64 (x * m)) (u64 (y * m)) (u64-fits _) (u64-fits _) (
      times_m-injective (bit_xor (u64 (x * m)) (u64 (x * m) / 2 ^ 47))
        (bit_xor (u64 (y * m)) (u64 (y * m) / 2 ^ 47)) (shift_xor-fits _ (u64-fits _))
        (shift_xor-fits _ (u64-fits _)) h))

mix_key-fits : (k : ℕ) → mix_key k < 2 ^ 64
mix_key-fits k = u64-fits _

pub mix-fits : (h k : ℕ) → mix h k < 2 ^ 64
unfolding mix
mix-fits h k = u64-fits _

pub mix-injective_state : (h h' k : ℕ) → h < 2 ^ 64 → h' < 2 ^ 64 → mix h k ≡ mix h' k → h ≡ h'
unfolding mix
mix-injective_state h h' k hh hh' e = bit_xor_cancel h h' (mix_key k) (
    times_m-injective (bit_xor h (mix_key k)) (bit_xor h' (mix_key k))
      (bit_xor-fits h _ hh (mix_key-fits k)) (bit_xor-fits h' _ hh' (mix_key-fits k)) e)

pub mix-injective_key :
    (h k k' : ℕ) → h < 2 ^ 64 → k < 2 ^ 64 → k' < 2 ^ 64 → mix h k ≡ mix h k' → k ≡ k'
unfolding mix
mix-injective_key h k k' hh hk hk' e = mix_key-injective k k' hk hk' (
    bit_xor_cancel_left h (mix_key k) (mix_key k') (
      times_m-injective (bit_xor h (mix_key k)) (bit_xor h (mix_key k'))
        (bit_xor-fits h _ hh (mix_key-fits k)) (bit_xor-fits h _ hh (mix_key-fits k')) e))

shifted-fits : (i b : ℕ) → i < 8 → b < 256 → b * 2 ^ (8 * i) < 2 ^ 64
shifted-fits zero b hi hb = omega arith
shifted-fits (suc zero) b hi hb = omega arith
shifted-fits (suc (suc zero)) b hi hb = omega arith
shifted-fits (suc (suc (suc zero))) b hi hb = omega arith
shifted-fits (suc (suc (suc (suc zero)))) b hi hb = omega arith
shifted-fits (suc (suc (suc (suc (suc zero))))) b hi hb = omega arith
shifted-fits (suc (suc (suc (suc (suc (suc zero)))))) b hi hb = omega arith
shifted-fits (suc (suc (suc (suc (suc (suc (suc zero))))))) b hi hb = omega arith
shifted-fits (suc (suc (suc (suc (suc (suc (suc (suc i)))))))) b hi hb = absurd (omega arith)

shifted-injective : (i b b' : ℕ) → i < 8 → b * 2 ^ (8 * i) ≡ b' * 2 ^ (8 * i) → b ≡ b'
shifted-injective zero b b' hi h = omega arith
shifted-injective (suc zero) b b' hi h = omega arith
shifted-injective (suc (suc zero)) b b' hi h = omega arith
shifted-injective (suc (suc (suc zero))) b b' hi h = omega arith
shifted-injective (suc (suc (suc (suc zero)))) b b' hi h = omega arith
shifted-injective (suc (suc (suc (suc (suc zero))))) b b' hi h = omega arith
shifted-injective (suc (suc (suc (suc (suc (suc zero)))))) b b' hi h = omega arith
shifted-injective (suc (suc (suc (suc (suc (suc (suc zero))))))) b b' hi h = omega arith
shifted-injective (suc (suc (suc (suc (suc (suc (suc (suc i)))))))) b b' hi h = absurd (omega arith)

tail_bytes-fits :
    (h i : ℕ) (bs : List ℕ)
    → h < 2 ^ 64
    → i + length bs < 9
    → IsBytes bs
    → tail_bytes h i bs < 2 ^ 64
unfolding tail_bytes
tail_bytes-fits h i [] hh few bytes = hh
tail_bytes-fits h i (b ∷ bs) hh few (hb, bytes) =
    bit_xor-fits (tail_bytes h (suc i) bs) (b * 2 ^ (8 * i))
      (tail_bytes-fits h (suc i) bs hh (omega arith) bytes) (shifted-fits i b (omega arith) hb)

tail_bytes-injective : (h h' i : ℕ) (bs : List ℕ) → tail_bytes h i bs ≡ tail_bytes h' i bs → h ≡ h'
unfolding tail_bytes
tail_bytes-injective h h' i [] e = e
tail_bytes-injective h h' i (b ∷ bs) e =
    tail_bytes-injective h h' (suc i) bs (bit_xor_cancel _ _ (b * 2 ^ (8 * i)) e)

tail_bytes-set :
    (h i j b b' : ℕ) (bs : List ℕ)
    → i + length bs < 9
    → j < length bs
    → tail_bytes h i (set_byte j b bs) ≡ tail_bytes h i (set_byte j b' bs)
    → b ≡ b'
unfolding tail_bytes
tail_bytes-set h i j b b' [] few inside e = absurd (omega arith)
tail_bytes-set h i zero b b' (c ∷ bs) few inside e =
    shifted-injective i b b' (omega arith) (bit_xor_cancel_left (tail_bytes h (suc i) bs) _ _ e)
tail_bytes-set h i (suc j) b b' (c ∷ bs) few inside e =
    tail_bytes-set h (suc i) j b b' bs (omega arith) (omega arith)
      (bit_xor_cancel _ _ (c * 2 ^ (8 * i)) e)

pub tail-injective :
    (h h' : ℕ) (bs : List ℕ)
    → h < 2 ^ 64
    → h' < 2 ^ 64
    → length bs < 8
    → IsBytes bs
    → tail h bs ≡ tail h' bs
    → h ≡ h'
unfolding tail
tail-injective h h' [] hh hh' few bytes e = e
tail-injective h h' (b ∷ bs) hh hh' few bytes e = tail_bytes-injective h h' 0 (b ∷ bs) (
    times_m-injective (tail_bytes h 0 (b ∷ bs)) (tail_bytes h' 0 (b ∷ bs))
      (tail_bytes-fits h 0 (b ∷ bs) hh (omega arith) bytes)
      (tail_bytes-fits h' 0 (b ∷ bs) hh' (omega arith) bytes) e)

pub length-set_byte : (j b : ℕ) (bs : List ℕ) → length (set_byte j b bs) ≡ length bs
length-set_byte j b [] = refl
length-set_byte zero b (c ∷ bs) = refl
length-set_byte (suc j) b (c ∷ bs) = ap suc (length-set_byte j b bs)

pub set_byte-IsBytes : (j b : ℕ) (bs : List ℕ) → b < 256 → IsBytes bs → IsBytes (set_byte j b bs)
set_byte-IsBytes j b [] hb bytes = bytes
set_byte-IsBytes zero b (c ∷ bs) hb (hc, bytes) = (hb, bytes)
set_byte-IsBytes (suc j) b (c ∷ bs) hb (hc, bytes) = (hc, set_byte-IsBytes j b bs hb bytes)

pub tail-fits : (h : ℕ) (bs : List ℕ) → h < 2 ^ 64 → tail h bs < 2 ^ 64
unfolding tail
tail-fits h [] hh = hh
tail-fits h (b ∷ bs) hh = u64-fits _

tail-nonempty : (h : ℕ) (bs : List ℕ) → 0 < length bs → tail h bs ≡ u64 (tail_bytes h 0 bs * m)
unfolding tail
tail-nonempty h [] some_left = absurd (omega arith)
tail-nonempty h (b ∷ bs) some_left = refl

pub tail-set :
    (h j b b' : ℕ) (bs : List ℕ)
    → h < 2 ^ 64
    → length bs < 8
    → j < length bs
    → IsBytes bs
    → b < 256
    → b' < 256
    → tail h (set_byte j b bs) ≡ tail h (set_byte j b' bs)
    → b ≡ b'
tail-set h j b b' bs hh few inside bytes hb hb' e =
    let same = length-set_byte j b bs in
    let same' = length-set_byte j b' bs in
    tail_bytes-set h 0 j b b' bs (omega arith) inside (
      times_m-injective (tail_bytes h 0 (set_byte j b bs)) (tail_bytes h 0 (set_byte j b' bs))
        (tail_bytes-fits h 0 (set_byte j b bs) hh (omega arith) (set_byte-IsBytes j b bs hb bytes))
        (tail_bytes-fits h 0 (set_byte j b' bs) hh (omega arith)
          (set_byte-IsBytes j b' bs hb' bytes))
        (sym (tail-nonempty h (set_byte j b bs) (omega arith))
          ∙ e
          ∙ tail-nonempty h (set_byte j b' bs) (omega arith)))
