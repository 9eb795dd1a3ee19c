-- ===== src/Cache/Protection.antt =====
-- Requests for files and the eviction behind them, on lists.
use fusionfs_cache.Cache.Chance.{chance, second_chance}
use fusionfs_cache.Cache.Heap.{Ptr, File}
use fusionfs_cache.Cache.Marks.{mark, set_bit}
use fusionfs_cache.Cache.Names.{named, count}
use fusionfs_cache.Cache.Request.{request, new_file}
use fusionfs_cache.Cache.Ring.{Cells}
use fusionfs_cache.Prelude.{
  ◌≡◌, refl, Bool, true, false, not, ◌&&◌, ◌||◌, ◌==◌, Option, some, Bytes, eqb, [], ◌∷◌, ◌++◌,
  arith, Bool-cases, inl, inr, subst,
}

-- A file of another name whose bit is clear.
abbrev pub is_spare : Bytes → Ptr × File → Bool
is_spare n x = (x.1.ref_bit == 0) && not (named n x)

abbrev pub has_spare : Bytes → Cells → Bool
has_spare n [] = false
has_spare n (x ∷ xs) = is_spare n x || has_spare n xs

-- Every node of the name has its bit set.
abbrev pub Marked : Bytes → Cells → Type 0
Marked n [] = Unit
Marked n (x ∷ xs) = ((x.1.ref_bit == 0) && named n x ≡ false) × Marked n xs

module _ (n : Bytes) where
  Marked-mark : (xs : Cells) → Marked n (mark n xs)
  Marked-mark [] = tt
  Marked-mark (x ∷ xs) = (
    elim (Bool-cases (named n x)) [ inl t ↦ rw t refl | inr f ↦ rw f (ground (arith, f)) ],
    Marked-mark xs,
  )

  has_spare-mark : (xs : Cells) → has_spare n xs ≡ true → has_spare n (mark n xs) ≡ true
  has_spare-mark [] s = s
  has_spare-mark (x ∷ xs) s = elim (Bool-cases (named n x)) [
    | inl t ↦ rw t (ground (arith, has_spare-mark xs, s, t))
    | inr f ↦ rw f (ground (arith, has_spare-mark xs, s, f))
  ]

  Marked-new : (xs : Cells) (e : Ptr) → count n xs ≡ 0 → Marked n (xs ++ (e, new_file n) ∷ [])
  Marked-new [] e z = (refl, tt)
  Marked-new (x ∷ xs) e z = elim (Bool-cases (named n x)) [
    | inl t ↦ ground (arith, t, z)
    | inr f ↦ (rw f (ground arith), Marked-new xs e (ground (arith, f, z)))
  ]

  has_spare-append : (xs ys : Cells) → has_spare n xs ≡ true → has_spare n (xs ++ ys) ≡ true
  has_spare-append [] ys s = cc
  has_spare-append (x ∷ xs) ys s = ground (arith, has_spare-append xs ys, s)

  -- The rule passes over the name.
  chance-Marked :
      (seen xs : Cells) (name : Bytes) (rest : Cells)
      → Marked n xs
      → has_spare n xs ≡ true
      → chance seen xs ≡ some (name, rest)
      → eqb name n ≡ false
  chance-Marked seen [] name rest m s e = cc
  chance-Marked seen (x ∷ xs) name rest m s e = elim (Bool-cases (x.1.ref_bit == 0)) [
    | inl t ↦
        let chosen : ◌≡◌ {A = Option (Bytes × Cells)} (some (x.1.fname, xs ++ seen))
            (some (name, rest)) =
          rw t at e in
        let same : x.1.fname ≡ name = cc in
        subst (λ r. eqb r n ≡ false) same (ground (arith, t, m.0))
    | inr f ↦
        chance-Marked (seen ++ set_bit 0 x ∷ []) xs name rest m.1 (ground (arith, f, s)) (rw f at e)
  ]

-- When some other file's bit is clear, a requested file is not the one that the second-chance rule
-- takes next.
pub second_chance-request :
    (e : Ptr) (n : Bytes) (xs : Cells) (name : Bytes) (rest : Cells)
    → has_spare n xs ≡ true
    → second_chance (request e n xs) ≡ some (name, rest)
    → eqb name n ≡ false
second_chance-request e n xs name rest s chosen = elim (Bool-cases (count n xs == 0)) [
  | inl t ↦
      chance-Marked n [] (xs ++ (e, new_file n) ∷ []) name rest
        (Marked-new n xs e (ground (arith, t))) (has_spare-append n xs ((e, new_file n) ∷ []) s)
        (rw t at chosen)
  | inr f ↦
      chance-Marked n [] (mark n xs) name rest (Marked-mark n xs) (has_spare-mark n xs s)
        (rw f at chosen)
]
