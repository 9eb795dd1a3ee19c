-- ===== src/Cache/Names.antt =====
-- The files of a queue by name: where a name stands, and a queue without it.
use fusionfs_cache.Cache.Heap.{Ptr, null, File}
use fusionfs_cache.Cache.Ring.{Cells, has, has-append}
use fusionfs_cache.Prelude.{
  ℕ, suc, ◌+◌, ◌≤◌, ◌≡◌, refl, ap, ◌⊎◌, inl, inr, Bool, true, ◌==◌, if◌then◌else◌, Bytes, eqb,
  eqb→eq, ◌&&◌, [], ◌∷◌, ◌++◌, arith, Bool-cases,
}

-- x->fname is the name `n`
abbrev pub named : Bytes → Ptr × File → Bool
named n x = eqb x.1.fname n

-- How often a name stands in a queue.
abbrev pub count : Bytes → Cells → ℕ
count n [] = 0
count n (x ∷ xs) = (if named n x then 1 else 0) + count n xs

-- The first node of a name.
abbrev pub find : Bytes → Cells → Ptr
find n [] = null
find n (x ∷ xs) = if named n x then x.0 else find n xs

-- The queue without the nodes of a name.
abbrev pub erase : Bytes → Cells → Cells
erase n [] = []
erase n (x ∷ xs) = if named n x then erase n xs else x ∷ erase n xs

abbrev pub Unique : Cells → Type 0
Unique xs = (n : Bytes) → count n xs ≤ 1

-- Where a name stands.
pub record At (n : Bytes) (xs : Cells) : Type 0 where
  pub front : Cells
  pub node : Ptr × File
  pub back : Cells
  pub split : xs ≡ front ++ node ∷ back
  pub is_named : named n node ≡ true

pub At-cases : (n : Bytes) (xs : Cells) → (count n xs ≡ 0) ⊎ At n xs
At-cases n [] = inl refl
At-cases n (x ∷ xs) = elim (Bool-cases (named n x)) [
  | inl t ↦ inr (record { front = []; node = x; back = xs; split = refl; is_named = t })
  | inr f ↦ elim (At-cases n xs) [
    | inl z ↦ inl (rw f (omega (arith, z)))
    | inr a ↦ inr (record {
      front = x ∷ a.front;
      node = a.node;
      back = a.back;
      split = ap (λ r. x ∷ r) a.split;
      is_named = a.is_named;
    })
  ]
]

module _ (n : Bytes) where
  pub count-append : (xs ys : Cells) → count n (xs ++ ys) ≡ count n xs + count n ys
  count-append [] ys = omega arith
  count-append (x ∷ xs) ys = omega (arith, count-append xs ys)

  pub erase-append : (xs ys : Cells) → erase n (xs ++ ys) ≡ erase n xs ++ erase n ys
  erase-append [] ys = refl
  erase-append (x ∷ xs) ys = elim (Bool-cases (named n x)) [
    | inl t ↦ rw t (erase-append xs ys)
    | inr f ↦ rw f (ap (λ r. x ∷ r) (erase-append xs ys))
  ]

  pub erase-absent : (xs : Cells) → count n xs ≡ 0 → erase n xs ≡ xs
  erase-absent [] z = refl
  erase-absent (x ∷ xs) z = elim (Bool-cases (named n x)) [
    | inl t ↦ ground (arith, t, z)
    | inr f ↦ rw f (ap (λ r. x ∷ r) (erase-absent xs (ground (arith, f, z))))
  ]

  pub find-absent : (xs : Cells) → count n xs ≡ 0 → find n xs ≡ null
  find-absent [] z = refl
  find-absent (x ∷ xs) z = elim (Bool-cases (named n x)) [
    | inl t ↦ ground (arith, t, z)
    | inr f ↦ rw f (find-absent xs (ground (arith, f, z)))
  ]

  -- The only node of a name.
  module _ (xs : Cells) (x : Ptr × File) (ys : Cells) (t : named n x ≡ true) where
    pub apart_from_name : count n (xs ++ x ∷ ys) ≤ 1 → (count n xs ≡ 0) × (count n ys ≡ 0)
    apart_from_name one =
        let total = count-append xs (x ∷ ys) in
        let hit : count n (x ∷ ys) ≡ suc (count n ys) = rw t (omega arith) in
        (omega (arith, one, total, hit), omega (arith, one, total, hit))

    pub erase-only : count n xs ≡ 0 → count n ys ≡ 0 → erase n (xs ++ x ∷ ys) ≡ xs ++ ys
    erase-only zx zy = rw (erase-append xs (x ∷ ys), t, erase-absent xs zx, erase-absent ys zy) refl

  pub find-only :
      (xs : Cells) (x : Ptr × File) (ys : Cells)
      → named n x ≡ true
      → count n xs ≡ 0
      → find n (xs ++ x ∷ ys) ≡ x.0
  find-only [] x ys t z = rw t refl
  find-only (y ∷ xs) x ys t z = elim (Bool-cases (named n y)) [
    | inl u ↦ ground (arith, u, z)
    | inr u ↦ rw u (find-only xs x ys t (ground (arith, u, z)))
  ]

  pub count-erase : (m : Bytes) (xs : Cells) → count m (erase n xs) ≤ count m xs
  count-erase m [] = omega arith
  count-erase m (x ∷ xs) = elim (Bool-cases (named n x)) [
    | inl t ↦ rw t (omega (arith, count-erase m xs))
    | inr f ↦ rw f (omega (arith, count-erase m xs))
  ]

pub has-mid : (xs : Cells) (x : Ptr × File) (ys : Cells) → has x.0 (xs ++ x ∷ ys) ≡ true
has-mid xs x ys = rw (has-append x.0 xs (x ∷ ys)) (ground arith)

-- A test that finds repeated names.
abbrev pub distinct_names : Cells → Bool
distinct_names [] = true
distinct_names (x ∷ xs) = (count x.1.fname xs == 0) && distinct_names xs

pub distinct_names-Unique : (xs : Cells) → distinct_names xs ≡ true → Unique xs
distinct_names-Unique [] t m = omega arith
distinct_names-Unique (x ∷ xs) t m =
    let rest = distinct_names-Unique xs (ground (arith, t)) m in
    elim (Bool-cases (named m x)) [
      | inr f ↦ rw f (omega (arith, rest))
      | inl u ↦
          let here : count x.1.fname xs ≡ 0 = ground (arith, t) in
          rw u (omega (arith, here, ap (λ r. count r xs) (eqb→eq x.1.fname m u)))
    ]
