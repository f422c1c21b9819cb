-- ===== src/Sstl/HashMap/Hash.antt =====
-- The hash function of sstl/map.hpp and the range of buckets that it reaches.
use startos.Prelude.{
  ℕ, suc, ◌+◌, ◌-◌, ◌*◌, ◌/◌, ◌%◌, ◌^◌, ◌≤◌, ◌<◌, ◌≡◌, ◌&&◌, leb, true, refl, ◌∙◌, arith, ap,
}
use startos.Prelude.Bits.{shifted-lt}
use startos.Prelude.Run.{ok, ◌>>=◌}
use startos.Sstl.HashMap.{Map, add64, sub64, shl64, mix_64, hash_64, hash}

-- The top `bits` bits of the mixed word.
unfoldable pub top : ℕ → ℕ → ℕ
top val bits = mix_64 val / 2 ^ (64 - bits)

-- The bucket of a key, in a map whose hash is defined.
unfoldable pub slot : Map → ℕ → ℕ
unfolding top
slot m key = top key (m.bits - 1) % 2 ^ 32

hash_64-eq-ok : (val bits : ℕ) → 1 ≤ bits → bits ≤ 64 → hash_64 val bits ≡ ok (top val bits)
unfolding hash_64 top
hash_64-eq-ok val bits low high =
    let defined : leb 1 bits && leb bits 64 ≡ true = ground (arith, low, high) in
    rw (hash_64, defined) refl

pub hash-eq-ok : (m : Map) (key : ℕ) → 2 ≤ m.bits → m.bits ≤ 65 → hash m key ≡ ok (slot m key)
unfolding hash slot
hash-eq-ok m key low high =
    let fewer : (m.bits + 2 ^ 32 - 1) % 2 ^ 32 ≡ m.bits - 1 = omega arith in
    rw (hash, fewer, hash_64-eq-ok key (m.bits - 1) (omega arith) (omega arith), ◌>>=◌) refl

-- For 1 to 64 bits, where the last shift is defined, the shifts, additions and subtractions of
-- `hash_64` multiply by GOLDEN_RATIO_PRIME_64 modulo 2^64, and the last shift keeps the top `bits`
-- bits of the product.
pub hash_64-eq-mul :
    (val bits : ℕ)
    → val < 2 ^ 64
    → 1 ≤ bits
    → bits ≤ 64
    → hash_64 val bits ≡ ok (val * 0x9e37fffffffc0001 % 2 ^ 64 / 2 ^ (64 - bits))
unfolding top mix_64 add64 sub64 shl64
hash_64-eq-mul val bits h low high =
    hash_64-eq-ok val bits low high ∙ ap (λ (t : ℕ). ok (t / 2 ^ (64 - bits))) (omega arith)

mix_64-lt : (val : ℕ) → mix_64 val < 2 ^ 64
unfolding mix_64 add64
mix_64-lt val = omega arith

word_split : (bits : ℕ) → bits ≤ 64 → 2 ^ (bits + (64 - bits)) ≡ 2 ^ 64
word_split bits h = let whole : bits + (64 - bits) ≡ 64 = omega arith in ap (λ (t : ℕ). 2 ^ t) whole

top-lt : (val bits : ℕ) → bits ≤ 64 → top val bits < 2 ^ bits
unfolding top
top-lt val bits h =
    shifted-lt bits (64 - bits) (mix_64 val) (omega (arith, mix_64-lt val, word_split bits h))

pub slot-lt-half : (m : Map) (key b : ℕ) → m.bits ≡ suc b → b ≤ 32 → slot m key < 2 ^ b
unfolding slot
slot-lt-half m key b e h =
    let width : m.bits - 1 ≡ b = omega arith in
    omega (arith, top-lt key (m.bits - 1) (omega arith), ap (λ (t : ℕ). 2 ^ t) width)

-- A map of order 2 to 33 hashes every key into the lower half of its table: the bucket is always
-- in range, and the upper half is never used.
pub hash-lt-half :
    (m : Map) (key b : ℕ)
    → m.bits ≡ suc b
    → 1 ≤ b
    → b ≤ 32
    → (h : ℕ) × (hash m key ≡ ok h) × (h < 2 ^ b)
hash-lt-half m key b e split h =
    (slot m key, hash-eq-ok m key (omega arith) (omega arith), slot-lt-half m key b e h)
