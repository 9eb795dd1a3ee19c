-- ===== src/Zht/Hashing.antt =====
-- `myhash` and `hash_64bit_ring` of src/zht/src/common/zht_util.cpp: from a key to a server.
use fusionfs_cache.Novoht.Hash.{widen}
use fusionfs_cache.Prelude.{
  ℕ, ◌+◌, ◌-◌, ◌*◌, ◌%◌, ◌^◌, ◌<◌, ◌≡◌, refl, sym, [], ◌∷◌, Bytes, c_str, arith,
}

-- hash = c + (hash << 6) + (hash << 16) - hash, on 64 bits
unfoldable pub ring_step : ℕ → ℕ → ℕ
unfolding widen
ring_step h c = (widen c + (h * 2 ^ 6) % 2 ^ 64 + (h * 2 ^ 16) % 2 ^ 64 + 2 ^ 64 - h) % 2 ^ 64

ring_from : ℕ → Bytes → ℕ
unfolding ring_step
ring_from h [] = h
ring_from h (c ∷ s) = ring_from (ring_step h c) s

-- hash_64bit_ring; the loop stops at a zero byte
unfoldable pub hash_64bit_ring : Bytes → ℕ
unfolding ring_from
hash_64bit_ring s = ring_from 0 (c_str s)

-- myhash; the caller's `mod` is positive, and `% 0` would stop the program
unfoldable pub myhash : Bytes → ℕ → ℕ
unfolding ring_from
myhash s m = ring_from 0 (c_str s) % m

-- Every key has its place in a list of servers that is not empty.
pub myhash-lt : (s : Bytes) (m : ℕ) → 0 < m → myhash s m < m
unfolding myhash
myhash-lt s m h = omega arith

-- The polynomial that the shifts stand for.
pub polynomial : ℕ → Bytes → ℕ
polynomial h [] = h
polynomial h (c ∷ s) = polynomial (h * 65599 + widen c) s

ring_step-mod :
    (h c k : ℕ) → h < 2 ^ 64 → k % 2 ^ 64 ≡ h → ring_step h c ≡ (k * 65599 + widen c) % 2 ^ 64
unfolding ring_step
ring_step-mod h c k lt e = omega arith

ring_step-lt : (h c : ℕ) → ring_step h c < 2 ^ 64
unfolding ring_step
ring_step-lt h c = omega arith

ring_from-polynomial :
    (h k : ℕ) (s : Bytes) → h < 2 ^ 64 → k % 2 ^ 64 ≡ h → ring_from h s ≡ polynomial k s % 2 ^ 64
unfolding ring_from polynomial
ring_from-polynomial h k [] lt e = sym e
ring_from-polynomial h k (c ∷ s) lt e =
    ring_from-polynomial (ring_step h c) (k * 65599 + widen c) s (ring_step-lt h c)
      (sym (ring_step-mod h c k lt e))

-- The server of a key is that of the polynomial hash with the factor 65599, taken modulo 2 ^ 64 and
-- then modulo the number of servers; both functions of the source compute this hash.
pub myhash-polynomial :
    (s : Bytes) (m : ℕ)
    → (myhash s m ≡ hash_64bit_ring s % m) × (hash_64bit_ring s ≡ polynomial 0 (c_str s) % 2 ^ 64)
unfolding myhash hash_64bit_ring
myhash-polynomial s m = (refl, ring_from-polynomial 0 0 (c_str s) (omega arith) refl)
