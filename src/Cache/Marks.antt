-- ===== src/Cache/Marks.antt =====
-- A queue in which the reference bit of a name is set.
use fusionfs_cache.Cache.Heap.{Ptr, File, Heap, set_ref_bit}
use fusionfs_cache.Cache.Names.{named, count}
use fusionfs_cache.Cache.Ring.{Cells, first, last, Ring, Ring-rotate}
use fusionfs_cache.Cache.Ring.Steps.{set_ref_bit-first}
use fusionfs_cache.Prelude.{
  ℕ, ◌≡◌, refl, ap, ◌∙◌, true, some, if◌then◌else◌, Bytes, [], ◌∷◌, ◌++◌, arith, Bool-cases, inl,
  inr, suc, length,
}

abbrev pub set_bit : ℕ → Ptr × File → Ptr × File
set_bit b x = (x.0, record x.1 { ref_bit = b })

abbrev pub mark : Bytes → Cells → Cells
mark n [] = []
mark n (x ∷ xs) = (if named n x then set_bit 1 x else x) ∷ mark n xs

module _ (n : Bytes) where
  pub mark-append : (xs ys : Cells) → mark n (xs ++ ys) ≡ mark n xs ++ mark n ys
  mark-append [] ys = refl
  mark-append (x ∷ xs) ys = ap (λ r. (if named n x then set_bit 1 x else x) ∷ r) (mark-append xs ys)

  pub mark-absent : (xs : Cells) → count n xs ≡ 0 → mark n xs ≡ xs
  mark-absent [] z = refl
  mark-absent (x ∷ xs) z = elim (Bool-cases (named n x)) [
    | inl t ↦ ground (arith, t, z)
    | inr f ↦ rw f (ap (λ r. x ∷ r) (mark-absent xs (ground (arith, f, z))))
  ]

  pub mark-only :
      (xs : Cells) (x : Ptr × File) (ys : Cells)
      → named n x ≡ true
      → count n xs ≡ 0
      → count n ys ≡ 0
      → mark n (xs ++ x ∷ ys) ≡ xs ++ set_bit 1 x ∷ ys
  mark-only xs x ys t zx zy =
      rw (mark-append xs (x ∷ ys), mark-absent xs zx) (rw t (rw (mark-absent ys zy) refl))

  mark_address : (x : Ptr × File) → (if named n x then set_bit 1 x else x).0 ≡ x.0
  mark_address x = elim (Bool-cases (named n x)) [ inl t ↦ rw t refl | inr f ↦ rw f refl ]

  pub first-mark : (xs : Cells) (a : Ptr) → first (mark n xs) a ≡ first xs a
  first-mark [] a = refl
  first-mark (x ∷ xs) a = mark_address x

  pub last-mark : (xs : Cells) (b : Ptr) → last (mark n xs) b ≡ last xs b
  last-mark [] b = refl
  last-mark (x ∷ xs) b = last-mark xs _ ∙ ap (last xs) (mark_address x)

  pub count-mark : (m : Bytes) (xs : Cells) → count m (mark n xs) ≡ count m xs
  count-mark m [] = refl
  count-mark m (x ∷ xs) = elim (Bool-cases (named n x)) [
    | inl t ↦ rw (t, count-mark m xs) refl
    | inr f ↦ rw (f, count-mark m xs) refl
  ]

-- Setting the bit of one node, anywhere in a ring.
pub set_ref_bit-node :
    (h : Heap) (x : Ptr × File) (b : ℕ) (xs ys : Cells)
    → Ring h (xs ++ x ∷ ys)
    → (g : Heap) × (set_ref_bit x.0 b h ≡ some (tt, g)) × Ring g (xs ++ set_bit b x ∷ ys)
set_ref_bit-node h x b xs ys r =
    let (g, run, s) = set_ref_bit-first h x (ys ++ xs) b (Ring-rotate h xs (x ∷ ys) r) in
    (g, run, Ring-rotate g (set_bit b x ∷ ys) xs s)

pub length-mark : (n : Bytes) (xs : Cells) → length (mark n xs) ≡ length xs
length-mark n [] = refl
length-mark n (x ∷ xs) = ap suc (length-mark n xs)
