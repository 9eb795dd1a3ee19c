-- ===== src/Cache/Request.antt =====
-- A request for a file, on the list from the hand on: a file that is in the queue gets its bit set, any
-- other is added behind all.
use fusionfs_cache.Cache.Heap.{Ptr, File}
use fusionfs_cache.Cache.Marks.{mark, count-mark, length-mark}
use fusionfs_cache.Cache.Names.{count, count-append}
use fusionfs_cache.Cache.Ring.{Cells}
use fusionfs_cache.Prelude.{
  ◌+◌, ◌≤◌, ◌≡◌, refl, ap, false, ◌==◌, if◌then◌else◌, Bytes, eqb, eqb→eq, [], ◌∷◌, ◌++◌, arith,
  Bool-cases, inl, inr, length, length-append,
}

-- The file of a new node.
abbrev pub new_file : Bytes → File
new_file n = record { fname = n; freq = 0; ref_bit = 1 }

abbrev pub request : Ptr → Bytes → Cells → Cells
request e n xs = if count n xs == 0 then xs ++ (e, new_file n) ∷ [] else mark n xs

pub request-new :
    (e : Ptr) (n : Bytes) (xs : Cells)
    → count n xs ≡ 0
    → request e n xs ≡ xs ++ (e, new_file n) ∷ []
request-new e n xs z = rw z refl

pub request-old :
    (e : Ptr) (n : Bytes) (xs : Cells) → (count n xs == 0) ≡ false → request e n xs ≡ mark n xs
request-old e n xs z = rw z refl

-- Requests keep the names apart.
pub count-request :
    (e : Ptr) (n : Bytes) (xs : Cells)
    → ((m : Bytes) → count m xs ≤ 1)
    → (m : Bytes) → count m (request e n xs) ≤ 1
count-request e n xs one m = elim (Bool-cases (count n xs == 0)) [
  | inr f ↦ rw (f, count-mark n m xs) (one m)
  | inl t ↦
      let absent : count n xs ≡ 0 = ground (arith, t) in
      rw t (
        rw (count-append m xs ((e, new_file n) ∷ [])) (elim (Bool-cases (eqb n m)) [
          | inl same ↦
              let names : n ≡ m = eqb→eq n m same in
              rw same (omega (arith, ap (λ r. count r xs) names, absent))
          | inr other ↦ rw other (omega (arith, one m))
        ]))
]

pub length-request :
    (e : Ptr) (n : Bytes) (xs : Cells)
    → length xs ≤ length (request e n xs) × (length (request e n xs) ≤ 1 + length xs)
length-request e n xs = elim (Bool-cases (count n xs == 0)) [
  | inl t ↦ rw t (omega (arith, length-append xs ((e, new_file n) ∷ [])))
  | inr f ↦ rw f (omega (arith, length-mark n xs))
]
