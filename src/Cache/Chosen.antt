-- ===== src/Cache/Chosen.antt =====
-- The names of a queue and the second-chance rule: what holds of all files holds of the chosen one and of
-- those that are left.
use fusionfs_cache.Cache.Chance.{second_chance, chance, chance-Evicts}
use fusionfs_cache.Cache.Marks.{set_bit}
use fusionfs_cache.Cache.Names.{count, count-append, named}
use fusionfs_cache.Cache.Ring.{Cells}
use fusionfs_cache.Prelude.{
  ℕ, ◌+◌, ◌≤◌, ◌<◌, ◌≡◌, sym, ◌∙◌, true, ◌==◌, Option, none, some, Bytes, eqb_refl, eqb→eq, [], ◌∷◌,
  ◌++◌, length, arith, Bool-cases, inl, inr, subst,
}

no_room : (n : ℕ) → n < 0 → ⊥
no_room n l = omega (arith, l)

-- What holds of the file of each cell holds of every name that stands in the queue.
abbrev pub Each : (Bytes → Type 0) → Cells → Type 0
Each P [] = Unit
Each P (x ∷ xs) = P x.1.fname × Each P xs

pub Each-count : (P : Bytes → Type 0) (xs : Cells) → Each P xs → (n : Bytes) → 1 ≤ count n xs → P n
Each-count P [] all n more = elim (no_room 0 (omega (arith, more))) [ ]
Each-count P (x ∷ xs) all n more = elim (Bool-cases (named n x)) [
  | inl t ↦ subst P (eqb→eq x.1.fname n t) all.0
  | inr f ↦ Each-count P xs all.1 n (ground (arith, f, more))
]

-- The name that the second-chance rule chooses stands in the queue.
same_choice :
    {m n : Bytes} {xs ys : Cells}
    → ◌≡◌ {A = Option (Bytes × Cells)} (some (m, xs)) (some (n, ys))
    → (m ≡ n) × (xs ≡ ys)
same_choice e = (cc, cc)

no_choice : {r : Bytes × Cells} → ◌≡◌ {A = Option (Bytes × Cells)} none (some r) → ⊥
no_choice e = cc

chance-count :
    (seen xs : Cells) (n : Bytes) (rest : Cells)
    → chance seen xs ≡ some (n, rest)
    → 1 ≤ count n seen + count n xs
chance-count [] [] n rest e = elim (no_choice e) [ ]
chance-count (y ∷ ys) [] n rest e =
    let chosen = subst (λ m. named m y ≡ true) (same_choice {xs = ys} e).0 (eqb_refl y.1.fname) in
    rw chosen (omega arith)
chance-count seen (x ∷ xs) n rest e = elim (Bool-cases (x.1.ref_bit == 0)) [
  | inl t ↦
      let found : ◌≡◌ {A = Option (Bytes × Cells)} (some (x.1.fname, xs ++ seen)) (some (n, rest)) =
        rw t at e in
      let chosen = subst (λ m. named m x ≡ true) (same_choice found).0 (eqb_refl x.1.fname) in
      rw chosen (omega arith)
  | inr f ↦
      let later = chance-count (seen ++ set_bit 0 x ∷ []) xs n rest (rw f at e) in
      omega (arith, later, count-append n seen (set_bit 0 x ∷ []))
]

-- What holds of all names of a queue holds of the chosen one and of those that the rule leaves.
pub chosen_lem :
    (P : Bytes → Type 0) (xs : Cells) (name : Bytes) (rest : Cells)
    → second_chance xs ≡ some (name, rest)
    → ((n : Bytes) → 1 ≤ count n xs → P n)
    → (length rest + 1 ≡ length xs) × ((n : Bytes) → 1 ≤ count n rest → P n) × P name
chosen_lem P [] name rest chosen all = elim (no_choice chosen) [ ]
chosen_lem P (x ∷ ws) name rest chosen all =
    let xs = x ∷ ws in
    let e = chance-Evicts [] xs (omega arith) in
    let same : e.rest ≡ rest = (same_choice {m = e.name} {n = name} (sym e.chosen ∙ chosen)).1 in
    let less = subst (λ r. length r + 1 ≡ 0 + length xs) same e.one_less in
    let left = subst (λ r. (n : Bytes) → count n r ≤ 0 + count n xs) same e.no_new in
    let here = chance-count [] xs name rest chosen in
    (omega (arith, less), λ n l. all n (omega (arith, l, left n)), all name (omega (arith, here)))
