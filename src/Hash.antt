-- ===== src/Hash.antt =====
-- fs/hepunion/hash.c: the hash that gives a path of the union its inode number.
pub mod Digits
pub mod Steps
pub mod Blocks
pub mod Distinct
use hepunion.Base.{ℕ, suc, ◌+◌, ◌*◌, ◌/◌, ◌%◌, ◌^◌, List, [], ◌∷◌, length}
use Prim.Native.Nat.{bit_xor}

-- `uint64_t`
abbrev pub u64 : ℕ → ℕ
u64 n = n % 2 ^ 64

abbrev pub m : ℕ
m = 0xc6a4a7935bd1e995

abbrev r : ℕ
r = 47

-- `*data++` on a little-endian machine.
unfoldable pub load : List ℕ → ℕ
load [] = 0
load (b ∷ bs) = b + 256 * load bs

abbrev pub mix_key : ℕ → ℕ
mix_key k = let k₁ = u64 (k * m) in let k₂ = bit_xor k₁ (k₁ / 2 ^ r) in u64 (k₂ * m)

-- The body of the `while` loop.
unfoldable pub mix : ℕ → ℕ → ℕ
mix h k = u64 (bit_xor h (mix_key k) * m)

-- `((uint64_t) data2[i]) << (8 * i)`, for the bytes from the last one that is left down to the
-- first, as the `switch` falls through.
unfoldable pub tail_bytes : ℕ → ℕ → List ℕ → ℕ
tail_bytes h i [] = h
tail_bytes h i (b ∷ bs) = bit_xor (tail_bytes h (suc i) bs) (b * 2 ^ (8 * i))

unfoldable pub tail : ℕ → List ℕ → ℕ
unfolding tail_bytes
tail h [] = h
tail h (b ∷ bs) = u64 (tail_bytes h 0 (b ∷ bs) * m)

-- The loop over the blocks of eight bytes, then the `switch`.
unfoldable pub body : ℕ → List ℕ → ℕ
unfolding load mix tail
body h (b0 ∷ b1 ∷ b2 ∷ b3 ∷ b4 ∷ b5 ∷ b6 ∷ b7 ∷ rest) =
    body (mix h (load (b0 ∷ b1 ∷ b2 ∷ b3 ∷ b4 ∷ b5 ∷ b6 ∷ b7 ∷ []))) rest
body h bytes = tail h bytes

unfoldable pub finish : ℕ → ℕ
finish h = let h₁ = bit_xor h (h / 2 ^ r) in let h₂ = u64 (h₁ * m) in bit_xor h₂ (h₂ / 2 ^ r)

unfoldable pub murmur_hash_64a : List ℕ → ℕ → ℕ
unfolding body finish
murmur_hash_64a key seed = finish (body (bit_xor seed (u64 (length key * m))) key)

abbrev pub hepunion_seed : ℕ
hepunion_seed = 0x9F5109F5109F510B

-- `name_to_ino(n)`
unfoldable pub name_to_ino : List ℕ → ℕ
unfolding murmur_hash_64a
name_to_ino n = murmur_hash_64a n hepunion_seed
