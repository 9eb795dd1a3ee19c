-- ===== src/Cache/Chance.antt =====
-- The second-chance rule, on a list from the hand on: the first file whose bit is clear leaves, and the
-- files before it lose their bit and go to the back; when every bit is set, the first file leaves.
use fusionfs_cache.Cache.Heap.{Ptr, File}
use fusionfs_cache.Cache.Marks.{set_bit}
use fusionfs_cache.Cache.Names.{count, count-append}
use fusionfs_cache.Cache.Ring.{Cells}
use fusionfs_cache.Prelude.{
  ℕ, zero, suc, ◌+◌, ◌≤◌, ◌<◌, ◌≡◌, refl, true, ◌==◌, if◌then◌else◌, Option, none, some, Bytes, [],
  ◌∷◌, ◌++◌, arith, Bool-cases, inl, inr, length, length-append, append_assoc,
}

-- `seen` are the files that were spared.
abbrev pub chance : Cells → Cells → Option (Bytes × Cells)
chance [] [] = none
chance (y ∷ ys) [] = some (y.1.fname, ys)
chance seen (x ∷ xs) =
    let rest = chance (seen ++ set_bit 0 x ∷ []) xs in
    if x.1.ref_bit == 0 then some (x.1.fname, xs ++ seen) else rest

abbrev pub second_chance : Cells → Option (Bytes × Cells)
second_chance xs = chance [] xs

-- The same, as a loop that turns the list.
abbrev pub turn : ℕ → Cells → Option (Bytes × Cells)
turn k [] = none
turn zero (x ∷ xs) = none
turn (suc k) (x ∷ xs) =
    let rest = turn k (xs ++ set_bit 0 x ∷ []) in
    if x.1.ref_bit == 0 then some (x.1.fname, xs) else rest

-- The files whose bit is clear.
abbrev pub Clear : Cells → Type 0
Clear [] = Unit
Clear (x ∷ xs) = ((x.1.ref_bit == 0) ≡ true) × Clear xs

Clear-snoc : (xs : Cells) (x : Ptr × File) → Clear xs → Clear (xs ++ set_bit 0 x ∷ [])
Clear-snoc [] x c = (refl, tt)
Clear-snoc (y ∷ xs) x c = (c.0, Clear-snoc xs x c.1)

-- With fuel for one round and one more step, the loop follows the rule.
pub turn-chance :
    (k : ℕ) (seen xs : Cells) → Clear seen → length xs < k → turn k (xs ++ seen) ≡ chance seen xs
turn-chance zero seen xs c enough = ground (arith, enough)
turn-chance (suc k) [] [] c enough = refl
turn-chance (suc k) (y ∷ ys) [] c enough = rw (c.0) refl
turn-chance (suc k) seen (x ∷ xs) c enough = elim (Bool-cases (x.1.ref_bit == 0)) [
  | inl t ↦ rw t refl
  | inr f ↦
      rw (f, append_assoc xs seen (set_bit 0 x ∷ []))
        (turn-chance k (seen ++ set_bit 0 x ∷ []) xs (Clear-snoc seen x c) (omega (arith, enough)))
]

-- What an eviction leaves: one file fewer, and no new name.
pub record Evicts (seen xs : Cells) : Type 0 where
  pub name : Bytes
  pub rest : Cells
  pub chosen : chance seen xs ≡ some (name, rest)
  pub one_less : length rest + 1 ≡ length seen + length xs
  pub no_new : (n : Bytes) → count n rest ≤ count n seen + count n xs

pub chance-Evicts : (seen xs : Cells) → 1 ≤ length seen + length xs → Evicts seen xs
chance-Evicts [] [] nonempty = ground (arith, nonempty)
chance-Evicts (y ∷ ys) [] nonempty = record {
  name = y.1.fname;
  rest = ys;
  chosen = refl;
  one_less = omega arith;
  no_new = λ n. omega arith;
}
chance-Evicts seen (x ∷ xs) nonempty = elim (Bool-cases (x.1.ref_bit == 0)) [
  | inl t ↦ record {
    name = x.1.fname;
    rest = xs ++ seen;
    chosen = rw t refl;
    one_less = omega (arith, length-append xs seen);
    no_new = λ n. omega (arith, count-append n xs seen);
  }
  | inr f ↦
      let e =
        chance-Evicts (seen ++ set_bit 0 x ∷ []) xs
          (omega (arith, length-append seen (set_bit 0 x ∷ []))) in
      record {
        name = e.name;
        rest = e.rest;
        chosen = rw f e.chosen;
        one_less = omega (arith, e.one_less, length-append seen (set_bit 0 x ∷ []));
        no_new = λ n. omega (arith, e.no_new n, count-append n seen (set_bit 0 x ∷ []));
      }
]
