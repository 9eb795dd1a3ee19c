-- ===== src/Cache/Lfu/Position.antt =====
-- On the loop of `get_pos_lfu` (src/util.c), and the order by frequency.
use fusionfs_cache.Cache.Heap.{Ptr, File, Heap}
use fusionfs_cache.Cache.Lfu.{pos_from}
use fusionfs_cache.Cache.Names.{erase, named, count, count-append}
use fusionfs_cache.Cache.Ring.{Cells, first, has, Linked, load-some}
use fusionfs_cache.Prelude.{
  Bytes, true, false, if◌then◌else◌, ◌≡◌, ℕ, zero, suc, ◌≤◌, refl, ap, ltb, leb, some, [], ◌∷◌,
  ◌++◌, arith, ◌==◌, Bool-cases, inl, inr, length,
}

-- The files before the first of a greater frequency, and the files from it on.
abbrev pub lower : ℕ → Cells → Cells
lower f [] = []
lower f (x ∷ xs) = if ltb f x.1.freq then [] else x ∷ lower f xs

abbrev pub upper : ℕ → Cells → Cells
upper f [] = []
upper f (x ∷ xs) = if ltb f x.1.freq then x ∷ xs else upper f xs

-- Insertion by frequency, behind equals.
abbrev pub insert_by_freq : Ptr × File → Cells → Cells
insert_by_freq e xs = lower e.1.freq xs ++ e ∷ upper e.1.freq xs

abbrev pub Sorted : Cells → Type 0
Sorted [] = Unit
Sorted (x ∷ []) = Unit
Sorted (x ∷ y ∷ xs) = (x.1.freq ≤ y.1.freq) × Sorted (y ∷ xs)

pub lower-upper : (f : ℕ) (xs : Cells) → lower f xs ++ upper f xs ≡ xs
lower-upper f [] = refl
lower-upper f (x ∷ xs) = elim (Bool-cases (ltb f x.1.freq)) [
  | inl t ↦ rw t refl
  | inr u ↦ rw u (ap (λ r. x ∷ r) (lower-upper f xs))
]

-- Insertion keeps a queue sorted.
pub insert_by_freq-Sorted : (e : Ptr × File) (xs : Cells) → Sorted xs → Sorted (insert_by_freq e xs)
insert_by_freq-Sorted e [] s = tt
insert_by_freq-Sorted e (x ∷ []) s = elim (Bool-cases (ltb e.1.freq x.1.freq)) [
  | inl t ↦ rw t (ground (arith, t), tt)
  | inr u ↦ rw u (ground (arith, u), tt)
]
insert_by_freq-Sorted e (x ∷ y ∷ xs) s =
    let rest = insert_by_freq-Sorted e (y ∷ xs) s.1 in
    elim (Bool-cases (ltb e.1.freq x.1.freq)) [
      | inl t ↦ rw t (ground (arith, t), s)
      | inr u ↦ elim (Bool-cases (ltb e.1.freq y.1.freq)) [
        | inl t ↦ rw (u, t) (ground (arith, u), rw t at rest)
        | inr v ↦ rw (u, v) (s.0, rw v at rest)
      ]
    ]

Sorted-skip : (x y : Ptr × File) (xs : Cells) → Sorted (x ∷ y ∷ xs) → Sorted (x ∷ xs)
Sorted-skip x y [] s = tt
Sorted-skip x y (z ∷ xs) (a, (b, s)) = (omega (arith, a, b), s)

Sorted-tail : (x : Ptr × File) (xs : Cells) → Sorted (x ∷ xs) → Sorted xs
Sorted-tail x [] s = tt
Sorted-tail x (y ∷ xs) s = s.1

Sorted-erase_behind :
    (n : Bytes) (x : Ptr × File) (xs : Cells) → Sorted (x ∷ xs) → Sorted (x ∷ erase n xs)
Sorted-erase_behind n x [] s = tt
Sorted-erase_behind n x (y ∷ xs) s = elim (Bool-cases (named n y)) [
  | inl t ↦ rw t (Sorted-erase_behind n x xs (Sorted-skip x y xs s))
  | inr f ↦ rw f (s.0, Sorted-erase_behind n y xs s.1)
]

pub Sorted-erase : (n : Bytes) (xs : Cells) → Sorted xs → Sorted (erase n xs)
Sorted-erase n [] s = tt
Sorted-erase n (x ∷ xs) s = elim (Bool-cases (named n x)) [
  | inl t ↦ rw t (Sorted-erase n xs (Sorted-tail x xs s))
  | inr f ↦ rw f (Sorted-erase_behind n x xs s)
]

-- Insertion adds one name.
pub count-insert_by_freq :
    (m : Bytes) (e : Ptr × File) (xs : Cells)
    → count m (insert_by_freq e xs) ≡ count m (xs ++ e ∷ [])
count-insert_by_freq m e xs =
    let ls = lower e.1.freq xs in
    let us = upper e.1.freq xs in
    omega (
      arith,
      count-append m ls (e ∷ us),
      count-append m xs (e ∷ []),
      count-append m ls us,
      ap (count m) (lower-upper e.1.freq xs),
    )

-- The frequency with which a name is in the queue.
abbrev pub freq_of : Bytes → Cells → ℕ
freq_of n [] = 0
freq_of n (x ∷ xs) = if named n x then x.1.freq else freq_of n xs

pub freq_of-only :
    (n : Bytes) (xs : Cells) (x : Ptr × File) (ys : Cells)
    → named n x ≡ true
    → count n xs ≡ 0
    → freq_of n (xs ++ x ∷ ys) ≡ x.1.freq
freq_of-only n [] x ys t z = rw t refl
freq_of-only n (y ∷ xs) x ys t z = elim (Bool-cases (named n y)) [
  | inl u ↦ ground (arith, u, z)
  | inr u ↦ rw u (freq_of-only n xs x ys t (ground (arith, u, z)))
]

module _ (h : Heap) (q : Ptr) where
  -- The loop stops at the first file of a greater frequency, or at the head.
  pub pos_from-upper :
      (k f : ℕ) (x : Ptr × File) (xs : Cells) (b : Ptr)
      → length (x ∷ xs) ≤ k
      → has q xs ≡ false
      → Linked h b (x ∷ xs) q
      → pos_from k f q x.0 h
        ≡ some ((first (upper f (x ∷ xs)) q, leb 1 (length (upper f (x ∷ xs)))), h)
  unfolding pos_from
  pos_from-upper zero f x xs b enough out l = ground (arith, enough)
  pos_from-upper (suc k) f x [] b enough out (ne, at, l) = elim (Bool-cases (ltb f x.1.freq)) [
    | inl t ↦ rw (load-some h x.0 ne at, t) (ground arith)
    | inr u ↦ rw (load-some h x.0 ne at, u) (ground arith)
  ]
  pos_from-upper (suc k) f x (y ∷ xs) b enough out (ne, at, l) =
      let rest = pos_from-upper k f y xs x.0 (omega (arith, enough)) (ground (arith, out)) l in
      let out_first : (y.0 == q) ≡ false = ground (arith, out) in
      elim (Bool-cases (ltb f x.1.freq)) [
        | inl t ↦ rw (load-some h x.0 ne at, t) (ground arith)
        | inr u ↦ rw (load-some h x.0 ne at, u, out_first) rest
      ]
