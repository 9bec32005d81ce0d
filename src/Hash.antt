-- ===== src/Hash.antt =====
-- MurmurHash (src/common/hash.cc, src/common/hash.h) over bytes, on a little-endian machine, where
-- DecodeFixed32 is the memcpy of its first branch. The words of 32 bits wrap around.
pub mod Bounds
use Prim.Native.Nat.{bit_xor}
use crocks.Prelude.{ℕ, ◌+◌, ◌*◌, ◌/◌, ◌%◌, ◌^◌, ◌≡◌, refl, List, [], ◌∷◌, Bytes, length}

abbrev pub word : ℕ
word = 2 ^ 32

abbrev pub m : ℕ
m = 0xc6a4a793

unfoldable pub decode_fixed32 : ℕ → ℕ → ℕ → ℕ → ℕ
decode_fixed32 a b c d = a + b * 2 ^ 8 + c * 2 ^ 16 + d * 2 ^ 24

-- `h += w; h *= m; h ^= (h >> shift)`
unfoldable pub mix : ℕ → ℕ → ℕ → ℕ
mix shift h w = let product = (h + w) % word * m % word in bit_xor product (product / 2 ^ shift)

-- `h += byte << shift`
abbrev pub add_byte : ℕ → ℕ → ℕ → ℕ
add_byte shift h byte = (h + byte * 2 ^ shift) % word

-- `h *= m; h ^= (h >> r)`
unfoldable pub finish : ℕ → ℕ
finish h = let product = h * m % word in bit_xor product (product / 2 ^ 24)

-- four bytes at a time, and the switch over the bytes that remain
unfoldable pub hash_from : ℕ → Bytes → ℕ
unfolding mix finish decode_fixed32
hash_from h [] = h
hash_from h (a ∷ []) = finish (add_byte 0 h a)
hash_from h (a ∷ b ∷ []) = finish (add_byte 0 (add_byte 8 h b) a)
hash_from h (a ∷ b ∷ c ∷ []) = finish (add_byte 0 (add_byte 8 (add_byte 16 h c) b) a)
hash_from h (a ∷ b ∷ c ∷ d ∷ rest) = hash_from (mix 16 h (decode_fixed32 a b c d)) rest

-- `n * m` has 64 bits
unfoldable pub murmur_hash : Bytes → ℕ → ℕ
unfolding hash_from
murmur_hash data_bytes seed =
    hash_from (bit_xor seed (length data_bytes * m % 2 ^ 64) % word) data_bytes

unfoldable pub hash : Bytes → ℕ
unfolding murmur_hash
hash string = murmur_hash string 0xACABACAB
