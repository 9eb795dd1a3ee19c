-- ===== src/Cache/Clock/Requesting.antt =====
-- On `insque_clock` (src/clock.c).
use fusionfs_cache.Cache.Clock.{Clock, findelem_clock, insert_file, insque_clock, name_max}
use fusionfs_cache.Cache.Clock.Evicting.{walk-Queue}
use fusionfs_cache.Cache.Clock.Invariant.{Hand, Turned, Queue, IsClock}
use fusionfs_cache.Cache.Clock.NewFile.{insert_file-Queue}
use fusionfs_cache.Cache.Clock.Removing.{node_is_some}
use fusionfs_cache.Cache.Clock.Search.{findelem_clock-find}
use fusionfs_cache.Cache.Heap.{Ptr, null, Heap, set_ref_bit}
use fusionfs_cache.Cache.Marks.{
  mark, length-mark, mark-append, mark-only, first-mark, last-mark, set_bit, set_ref_bit-node,
}
use fusionfs_cache.Cache.Names.{
  count, find, At, At-cases, count-append, find-absent, find-only, apart_from_name,
}
use fusionfs_cache.Cache.Request.{new_file, request, request-new, request-old, count-request}
use fusionfs_cache.Cache.Ring.{Cells, Ring}
use fusionfs_cache.Cache.Walk.{walk}
use fusionfs_cache.Prelude.{
  ℕ, ◌≤◌, ◌<◌, ◌≡◌, refl, sym, ap, ◌∙◌, false, none, some, Bytes, [], ◌∷◌, ◌++◌, arith, ◌==◌, inl,
  inr, subst, length, length-append,
}

module _ (h : Heap) (c : Clock) (k : ℕ) (e : Ptr) (n : Bytes) (p : Ptr)
    (search : findelem_clock k c n h ≡ some (p, h)) where
  insque_clock-hit :
      (g : Heap)
      → (p == null) ≡ false
      → set_ref_bit p 1 h ≡ some (tt, g)
      → walk k c.clock_head c.clock_head g ≡ some (tt, g)
      → insque_clock k c e n h ≡ some (c, g)
  unfolding insque_clock
  insque_clock-hit g found run walks = rw (search, found, run, walks) refl

  insque_clock-miss :
      (g : Heap) (d : Clock)
      → p ≡ null
      → insert_file c e n h ≡ some (d, g)
      → walk k d.clock_head d.clock_head g ≡ some (tt, g)
      → insque_clock k c e n h ≡ some (d, g)
  unfolding insque_clock
  insque_clock-miss g d missing run walks = rw (search, missing, run, walks) refl

Hand-mark : (n : Bytes) (v : Ptr) (zs ys : Cells) → Hand v zs ys → Hand v (mark n zs) (mark n ys)
Hand-mark n v zs [] (e, none_behind) = (e, ap (mark n) none_behind)
Hand-mark n v zs (y ∷ ys) hand = elim hand [
  | inl e ↦ inl (e ∙ sym (first-mark n (y ∷ ys) null))
  | inr (e, none_behind) ↦ inr (e, ap (mark n) none_behind)
]

-- A queue whose node of the name gets its bit set.
mark-Turned :
    (h : Heap) (c : Clock) (n : Bytes) (zs ys : Cells)
    → Turned h c zs ys
    → (a : At n (zs ++ ys)) → count n (zs ++ ys) ≤ 1
    → (g : Heap) × (set_ref_bit a.node.0 1 h ≡ some (tt, g)) × Turned g c (mark n zs) (mark n ys)
mark-Turned h c n zs ys t a one =
    let (before, after) =
      apart_from_name n a.front a.node a.back a.is_named (subst (λ r. count n r ≤ 1) a.split one) in
    let (g, run, r) = set_ref_bit-node h a.node 1 a.front a.back (subst (Ring h) a.split t.ring) in
    let marked : mark n zs ++ mark n ys ≡ a.front ++ set_bit 1 a.node ∷ a.back =
      sym (mark-append n zs ys)
      ∙ (ap (mark n) a.split ∙ mark-only n a.front a.node a.back a.is_named before after) in
    (
      g,
      run,
      record {
        ring = rw marked r;
        ends =
            rw
              (sym (mark-append n zs ys), first-mark n (zs ++ ys) null, last-mark n (zs ++ ys) null)
              t.ends;
        hand = Hand-mark n c.victim zs ys t.hand;
      },
    )

-- A request leaves the queue that `request` describes.
abbrev Requested : ℕ → Heap → Clock → Ptr → Bytes → Cells → Type 0
Requested k h c e n xs =
    (g : Heap) × (d : Clock) × (insque_clock k c e n h ≡ some (d, g)) × Queue g d (request e n xs)

module _ (h : Heap) (c : Clock) (k : ℕ) (e : Ptr) (n : Bytes) (zs ys : Cells) (t : Turned h c zs ys)
    (one : count n (ys ++ zs) ≤ 1) (enough : length (ys ++ zs) < k) where
  searches : findelem_clock k c n h ≡ some (find n (zs ++ ys), h)
  searches =
      findelem_clock-find h c k n (zs ++ ys) t.ring t.ends.0
        (omega (arith, enough, length-append zs ys, length-append ys zs))

  request_hit : At n (zs ++ ys) → Requested k h c e n (ys ++ zs)
  request_hit a =
      let total0 = count-append n ys zs in
      let total1 = count-append n zs ys in
      let one' : count n (zs ++ ys) ≤ 1 = omega (arith, one, total0, total1) in
      let (before, after) =
        apart_from_name n a.front a.node a.back a.is_named
          (subst (λ r. count n r ≤ 1) a.split one') in
      let found : find n (zs ++ ys) ≡ a.node.0 =
        ap (find n) a.split ∙ find-only n a.front a.node a.back a.is_named before in
      let hit : 1 ≤ count n (zs ++ ys) =
        rw (a.split, count-append n a.front (a.node ∷ a.back), a.is_named) (omega arith) in
      let (g, run, u) = mark-Turned h c n zs ys t a one' in
      let q : Queue g c (mark n (ys ++ zs)) = record {
        behind = mark n zs;
        ahead = mark n ys;
        order = mark-append n ys zs;
        turned = u;
      } in
      let old : (count n (ys ++ zs) == 0) ≡ false = ground (arith, hit, total0, total1) in
      let some_node : 1 ≤ length (mark n (ys ++ zs)) = omega (
        arith,
        length-mark n (ys ++ zs),
        length-append ys zs,
        length-append zs ys,
        ap length a.split,
        length-append a.front (a.node ∷ a.back),
      ) in
      (
        g,
        c,
        insque_clock-hit h c k e n (find n (zs ++ ys)) searches g
            (rw found (node_is_some h a.front a.node a.back (subst (Ring h) a.split t.ring)))
            (rw found run)
            (walk-Queue g c k (mark n (ys ++ zs)) q some_node
              (omega (arith, length-mark n (ys ++ zs), enough))),
        subst (Queue g c) (sym (request-old e n (ys ++ zs) old)) q,
      )

  request_miss :
      (e == null) ≡ false
      → h e ≡ none
      → length n < name_max
      → count n (zs ++ ys) ≡ 0
      → Requested k h c e n (ys ++ zs)
  request_miss ne new short missing =
      let (g, d, run, q) = insert_file-Queue h c zs ys e n t ne new short in
      let absent : count n (ys ++ zs) ≡ 0 =
        omega (arith, missing, count-append n ys zs, count-append n zs ys) in
      let size = length-append (ys ++ zs) ((e, new_file n) ∷ []) in
      (
        g,
        d,
        insque_clock-miss h c k e n (find n (zs ++ ys)) searches g d
            (find-absent n (zs ++ ys) missing) run
            (walk-Queue g d k ((ys ++ zs) ++ (e, new_file n) ∷ []) q (omega (arith, size))
              (omega (arith, size, enough))),
        subst (Queue g d) (sym (request-new e n (ys ++ zs) absent)) q,
      )

-- On a queue without repeated names, with fuel for one round of the longer queue, at a new address, and
-- for a name that fits its array, `insque_clock` returns and leaves the queue that `request` describes.
pub insque_clock-IsClock :
    (h : Heap) (c : Clock) (xs : Cells) (k : ℕ) (e : Ptr) (n : Bytes)
    → IsClock h c xs
    → length xs < k
    → (e == null) ≡ false
    → h e ≡ none
    → length n < name_max
    → (g : Heap) × (d : Clock) × (insque_clock k c e n h ≡ some (d, g))
      × IsClock g d (request e n xs)
insque_clock-IsClock h c xs k e n i enough ne new short =
    let q = i.queue in
    let one = subst (λ r. count n r ≤ 1) q.order (i.unique n) in
    let enough' : length (q.ahead ++ q.behind) < k = omega (arith, enough, ap length q.order) in
    let (g, d, run, left) : Requested k h c e n (q.ahead ++ q.behind) =
      elim (At-cases n (q.behind ++ q.ahead)) [
        | inr a ↦ request_hit h c k e n q.behind q.ahead q.turned one enough' a
        | inl z ↦ request_miss h c k e n q.behind q.ahead q.turned one enough' ne new short z
      ] in
    (
      g,
      d,
      run,
      record {
        queue = subst (λ r. Queue g d (request e n r)) (sym q.order) left;
        unique = count-request e n xs i.unique;
      },
    )
