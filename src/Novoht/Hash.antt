-- ===== src/Novoht/Hash.antt =====
-- `hash` of src/zht/src/common/novoht.cpp. No build file defines SIZE_OF_LONG_LONG_INT, so the
-- preprocessor takes the second pair of constants.
use fusionfs_cache.Prelude.{ℕ, ◌+◌, ◌-◌, ◌*◌, ◌%◌, ◌^◌, bit_xor, [], ◌∷◌, Bytes, ltb, if◌then◌else◌}

abbrev fnv_prime : ℕ
fnv_prime = 16777619

abbrev fnv_offset : ℕ
fnv_offset = 2166136261

-- A `char` is signed on the platforms of the build; widened to 64 bits it keeps its sign.
unfoldable pub widen : ℕ → ℕ
widen c = if ltb c 128 then c else c + 2 ^ 64 - 256

hash_from : ℕ → Bytes → ℕ
unfolding widen
hash_from x [] = x
hash_from x (c ∷ cs) = hash_from ((bit_xor x (widen c) * fnv_offset) % 2 ^ 64) cs

unfoldable pub hash : Bytes → ℕ
unfolding hash_from
hash k = hash_from fnv_prime k
