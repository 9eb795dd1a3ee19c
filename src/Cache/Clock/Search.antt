-- ===== src/Cache/Clock/Search.antt =====
-- On `findelem_clock` (src/clock.c), and where in the queue a name stands.
use fusionfs_cache.Cache.Clock.{Clock, findelem_clock}
use fusionfs_cache.Cache.Heap.{null, Heap}
use fusionfs_cache.Cache.Names.{count, find, At, At-cases, count-append, find-absent, find-only}
use fusionfs_cache.Cache.Ring.{Cells, first, Ring}
use fusionfs_cache.Cache.Walk.{find-ring}
use fusionfs_cache.Prelude.{
  ℕ, ◌+◌, ◌≤◌, ◌≡◌, refl, sym, ap, ◌∙◌, some, [], ◌∷◌, ◌++◌, arith, Bytes, length, ◌⊎◌, inl, inr,
  append_assoc,
}

pub findelem_clock-find :
    (h : Heap) (c : Clock) (k : ℕ) (n : Bytes) (ws : Cells)
    → Ring h ws
    → c.clock_head ≡ first ws null
    → length ws ≤ k
    → findelem_clock k c n h ≡ some (find n ws, h)
unfolding findelem_clock
findelem_clock-find h c k n [] r e enough = rw e refl
findelem_clock-find h c k n (x ∷ xs) r e enough = rw (e, r.links.0) (find-ring h k x xs enough r n)

-- The only node of a name, in `xs`, when the rest of the queue is `others`, and that the search finds it.
pub record Placed (n : Bytes) (xs others ws : Cells) : Type 0 where
  pub place : At n xs
  pub found : find n ws ≡ place.node.0
  pub before_absent : count n place.front ≡ 0
  pub after_absent : count n place.back ≡ 0
  pub others_absent : count n others ≡ 0

-- A name that stands nowhere.
abbrev pub Absent : Bytes → Cells → Cells → Type 0
Absent n zs ys = (count n zs ≡ 0) × (count n ys ≡ 0) × (find n (zs ++ ys) ≡ null)

place :
    (n : Bytes) (xs others ws : Cells) (a : At n xs)
    → count n xs + count n others ≤ 1
    → (count n a.front ≡ 0 → find n ws ≡ a.node.0)
    → Placed n xs others ws
place n xs others ws a one found =
    let total : count n xs ≡ count n a.front + count n (a.node ∷ a.back) =
      rw a.split (count-append n a.front (a.node ∷ a.back)) in
    let hit : count n (a.node ∷ a.back) ≡ 1 + count n a.back = rw a.is_named refl in
    let before : count n a.front ≡ 0 = omega (arith, one, total, hit) in
    record {
      place = a;
      found = found before;
      before_absent = before;
      after_absent = omega (arith, one, total, hit);
      others_absent = omega (arith, one, total, hit);
    }

pub search_cases :
    (n : Bytes) (zs ys : Cells)
    → count n (ys ++ zs) ≤ 1
    → Placed n zs ys (zs ++ ys) ⊎ (Placed n ys zs (zs ++ ys) ⊎ Absent n zs ys)
search_cases n zs ys one =
    let total = count-append n ys zs in
    elim (At-cases n zs) [
      | inr a ↦ inl (
          place n zs ys (zs ++ ys) a (omega (arith, one, total)) (λ before.
            ap (λ r. find n (r ++ ys)) a.split
            ∙ (ap (find n) (append_assoc a.front (a.node ∷ a.back) ys)
                ∙ find-only n a.front a.node (a.back ++ ys) a.is_named before)))
      | inl z ↦ elim (At-cases n ys) [
        | inr a ↦ inr (
            inl (
              place n ys zs (zs ++ ys) a (omega (arith, one, total)) (λ before.
                ap (λ r. find n (zs ++ r)) a.split
                ∙ (ap (find n) (sym (append_assoc zs a.front (a.node ∷ a.back)))
                    ∙ find-only n (zs ++ a.front) a.node a.back a.is_named
                        (omega (arith, z, before, count-append n zs a.front))))))
        | inl y ↦
            inr (inr (z, y, find-absent n (zs ++ ys) (omega (arith, z, y, count-append n zs ys))))
      ]
    ]
