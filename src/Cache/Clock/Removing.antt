-- ===== src/Cache/Clock/Removing.antt =====
-- On `rmelem_clock` (src/clock.c).
use fusionfs_cache.Cache.Clock.{Clock, findelem_clock, rem_Q, rmelem_clock}
use fusionfs_cache.Cache.Clock.Invariant.{Turned, Queue, IsClock}
use fusionfs_cache.Cache.Clock.Places.{Leaves, rem_Q-behind, rem_Q-later, rem_Q-here}
use fusionfs_cache.Cache.Clock.Search.{findelem_clock-find, Placed, search_cases}
use fusionfs_cache.Cache.Heap.{Ptr, null, File, Heap}
use fusionfs_cache.Cache.Names.{count, erase, erase-append, erase-absent, erase-only, count-erase}
use fusionfs_cache.Cache.Ring.{Cells, Linked-split, Ring}
use fusionfs_cache.Prelude.{
  ℕ, ◌≤◌, ◌≡◌, refl, sym, ap, ◌∙◌, true, false, Option, some, [], ◌∷◌, ◌++◌, arith, ◌==◌,
  if◌then◌else◌, Bool-cases, Bytes, length, length-append, inl, inr, append_assoc, subst,
}

-- A node of a ring is not NULL.
pub node_is_some :
    (h : Heap) (xs : Cells) (x : Ptr × File) (ys : Cells)
    → Ring h (xs ++ x ∷ ys)
    → (x.0 == null) ≡ false
node_is_some h xs x ys r = (Linked-split h xs (x ∷ ys) _ _ r.links).1.0

-- A node from the hand on.
rem_Q-ahead :
    (h : Heap) (c : Clock) (zs cs : Cells) (x : Ptr × File) (bs : Cells)
    → Turned h c zs (cs ++ x ∷ bs)
    → Leaves h c x.0 ((cs ++ bs) ++ zs)
rem_Q-ahead h c zs [] x bs t = rem_Q-here h c x zs bs (node_is_some h zs x bs t.ring) t
rem_Q-ahead h c zs (y ∷ cs) x bs t =
    rem_Q-later h c x zs y cs bs
      (node_is_some h (zs ++ y ∷ cs) x bs (rw (append_assoc zs (y ∷ cs) (x ∷ bs)) t.ring)) t

-- Every node of the queue is at an address.
not_null :
    (h : Heap) (ws xs : Cells) (x : Ptr × File) (ys : Cells)
    → Ring h ws
    → ws ≡ xs ++ x ∷ ys
    → (x.0 == null) ≡ false
not_null h ws xs x ys r e = node_is_some h xs x ys (rw e at r)

module _ (h : Heap) (c : Clock) (n : Bytes) (zs ys : Cells) (t : Turned h c zs ys) where
  behind_is_some : (p : Placed n zs ys (zs ++ ys)) → (p.place.node.0 == null) ≡ false
  behind_is_some p =
      let a = p.place in
      not_null h (zs ++ ys) a.front a.node (a.back ++ ys) t.ring
        (ap (λ r. r ++ ys) a.split ∙ append_assoc a.front (a.node ∷ a.back) ys)

  ahead_is_some : (p : Placed n ys zs (zs ++ ys)) → (p.place.node.0 == null) ≡ false
  ahead_is_some p =
      let a = p.place in
      not_null h (zs ++ ys) (zs ++ a.front) a.node a.back t.ring
        (ap (λ r. zs ++ r) a.split ∙ sym (append_assoc zs a.front (a.node ∷ a.back)))

  erase_behind : (p : Placed n zs ys (zs ++ ys)) → Leaves h c p.place.node.0 (erase n (ys ++ zs))
  erase_behind p =
      let a = p.place in
      let gone : erase n (ys ++ zs) ≡ ys ++ (a.front ++ a.back) =
        rw
          (
            erase-append n ys zs,
            erase-absent n ys p.others_absent,
            a.split,
            erase-only n a.front a.node a.back a.is_named p.before_absent p.after_absent,
          )
          refl in
      rw gone (rem_Q-behind h c a.node a.front a.back ys (subst (λ r. Turned h c r ys) a.split t))

  erase_ahead : (p : Placed n ys zs (zs ++ ys)) → Leaves h c p.place.node.0 (erase n (ys ++ zs))
  erase_ahead p =
      let a = p.place in
      let gone : erase n (ys ++ zs) ≡ (a.front ++ a.back) ++ zs =
        rw
          (
            erase-append n ys zs,
            erase-absent n zs p.others_absent,
            a.split,
            erase-only n a.front a.node a.back a.is_named p.before_absent p.after_absent,
          )
          refl in
      rw gone (rem_Q-ahead h c zs a.front a.node a.back (subst (λ r. Turned h c zs r) a.split t))

module _ (h : Heap) (c : Clock) (k : ℕ) (n : Bytes) (p : Ptr)
    (search : findelem_clock k c n h ≡ some (p, h)) where
  nothing_found : (c.clock_head == null) ≡ true → p ≡ null
  unfolding findelem_clock
  nothing_found t =
      let empty : ◌≡◌ {A = Option (Ptr × Heap)} (some (null, h)) (some (p, h)) = rw t at search in
      cc

  rmelem_clock-search : rmelem_clock k c n h ≡ (if p == null then some (c, h) else rem_Q c p h)
  unfolding rmelem_clock
  rmelem_clock-search = elim (Bool-cases (c.clock_head == null)) [
    | inl t ↦ rw (t, nothing_found t) refl
    | inr f ↦
        rw (f, search) (elim (Bool-cases (p == null)) [ inl t ↦ rw t refl | inr u ↦ rw u refl ])
  ]

-- The cases of a search, put together.
rmelem_clock-Queue :
    (h : Heap) (c : Clock) (zs ys : Cells) (k : ℕ) (n : Bytes)
    → Turned h c zs ys
    → count n (ys ++ zs) ≤ 1
    → length (zs ++ ys) ≤ k
    → (g : Heap) × (d : Clock) × (rmelem_clock k c n h ≡ some (d, g))
      × Queue g d (erase n (ys ++ zs))
rmelem_clock-Queue h c zs ys k n t one enough =
    let search = findelem_clock-find h c k n (zs ++ ys) t.ring t.ends.0 enough in
    elim (search_cases n zs ys one) [
      | inl p ↦
          let (g, d, run, q) = erase_behind h c n zs ys t p in
          (
            g,
            d,
            rw (rmelem_clock-search h c k n _ search, p.found, behind_is_some h c n zs ys t p) run,
            q,
          )
      | inr (inl p) ↦
          let (g, d, run, q) = erase_ahead h c n zs ys t p in
          (
            g,
            d,
            rw (rmelem_clock-search h c k n _ search, p.found, ahead_is_some h c n zs ys t p) run,
            q,
          )
      | inr (inr (z, y, absent)) ↦
          let kept : erase n (ys ++ zs) ≡ ys ++ zs =
            rw (erase-append n ys zs, erase-absent n ys y, erase-absent n zs z) refl in
          (
            h,
            c,
            rw (rmelem_clock-search h c k n _ search, absent) refl,
            rw kept (record { behind = zs; ahead = ys; order = refl; turned = t }),
          )
    ]

-- On a queue without repeated names, and with fuel for one round, `rmelem_clock` returns, and leaves the
-- queue without the name.
pub rmelem_clock-IsClock :
    (h : Heap) (c : Clock) (xs : Cells) (k : ℕ) (n : Bytes)
    → IsClock h c xs
    → length xs ≤ k
    → (g : Heap) × (d : Clock) × (rmelem_clock k c n h ≡ some (d, g)) × IsClock g d (erase n xs)
unfolding rmelem_clock
rmelem_clock-IsClock h c xs k n i enough =
    let q = i.queue in
    let whole : length (q.behind ++ q.ahead) ≤ k = omega (
      arith,
      enough,
      ap length q.order,
      length-append q.behind q.ahead,
      length-append q.ahead q.behind,
    ) in
    let (g, d, run, left) =
      rmelem_clock-Queue h c q.behind q.ahead k n q.turned (rw q.order at i.unique n) whole in
    (
      g,
      d,
      run,
      record {
        queue = subst (λ r. Queue g d (erase n r)) (sym q.order) left;
        unique = λ m. omega (arith, i.unique m, count-erase n m xs);
      },
    )
