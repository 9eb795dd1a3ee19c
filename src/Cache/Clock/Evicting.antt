-- ===== src/Cache/Clock/Evicting.antt =====
-- On `remque_clock` (src/clock.c).
use fusionfs_cache.Cache.Chance.{second_chance, chance, turn, turn-chance, Evicts, chance-Evicts}
use fusionfs_cache.Cache.Clock.{Clock, clock, rem_Q, find_victim, remque_clock}
use fusionfs_cache.Cache.Clock.Invariant.{Turned, Queue, IsClock}
use fusionfs_cache.Cache.Clock.Places.{rem_Q-here}
use fusionfs_cache.Cache.Clock.Removing.{node_is_some}
use fusionfs_cache.Cache.Clock.Turning.{find_victim-turn, load_hand}
use fusionfs_cache.Cache.Heap.{Ptr, null, File, Heap, inode, INode, load}
use fusionfs_cache.Cache.Names.{count}
use fusionfs_cache.Cache.Ring.{Cells, first, last, Ring, Ring-rotate, append_nil}
use fusionfs_cache.Cache.Walk.{walk, walk-ring}
use fusionfs_cache.Prelude.{
  ℕ, ◌≤◌, ◌<◌, ◌≡◌, refl, sym, ap, ◌∙◌, true, false, some, Bytes, [], ◌∷◌, ◌++◌, arith, ◌==◌,
  if◌then◌else◌, Bool-cases, inl, inr, subst, length, length-append,
}

-- The walk that prints the queue ends.
walk-ends_on :
    (h : Heap) (c : Clock) (k : ℕ) (ws : Cells)
    → Ring h ws
    → c.clock_head ≡ first ws null
    → 1 ≤ length ws
    → length ws ≤ k
    → walk k c.clock_head c.clock_head h ≡ some (tt, h)
walk-ends_on h c k [] r e nonempty enough = ground (arith, nonempty)
walk-ends_on h c k (x ∷ ws) r e nonempty enough = rw e (walk-ring h k x ws enough r)

pub walk-Queue :
    (h : Heap) (c : Clock) (k : ℕ) (xs : Cells)
    → Queue h c xs
    → 1 ≤ length xs
    → length xs ≤ k
    → walk k c.clock_head c.clock_head h ≡ some (tt, h)
walk-Queue h c k xs q nonempty enough =
    let same : length (q.behind ++ q.ahead) ≡ length xs =
      omega (
        arith,
        ap length q.order,
        length-append q.ahead q.behind,
        length-append q.behind q.ahead,
      ) in
    walk-ends_on h c k (q.behind ++ q.ahead) q.turned.ring q.turned.ends.0
      (omega (arith, same, nonempty)) (omega (arith, same, enough))

-- The hand of `remque_clock`, set on first use.
abbrev started : Clock → Clock
started c = clock c.clock_head c.clock_tail (if c.victim == null then c.clock_head else c.victim)

started-Turned :
    (h : Heap) (c : Clock) (zs : Cells) (x : Ptr × File) (ys : Cells)
    → Turned h c zs (x ∷ ys)
    → Turned h (started c) zs (x ∷ ys) × ((started c).victim ≡ x.0)
started-Turned h c zs x ys t =
    let ne = node_is_some h zs x ys t.ring in
    let at_hand : (started c).victim ≡ x.0 = elim t.hand [
      | inl v ↦ rw v (rw ne refl)
      | inr v ↦ rw v.0 (t.ends.0 ∙ ap (λ r. first (r ++ x ∷ ys) null) v.1)
    ] in
    (record { ring = t.ring; ends = t.ends; hand = inl at_hand }, at_hand)

module _ (h : Heap) (c : Clock) (k : ℕ) {v : INode}
    (loads : load (started c).victim h ≡ some (v, h)) where
  remque_clock-alone :
      (g : Heap) (d : Clock)
      → ((started c).victim == v.next) ≡ true
      → rem_Q (started c) (started c).victim h ≡ some (d, g)
      → remque_clock k c h ≡ some ((v.file.fname, d), g)
  unfolding remque_clock
  remque_clock-alone g d z run = rw (loads, z, run) refl

  remque_clock-many :
      (g : Heap) (d : Clock) (name : Bytes)
      → ((started c).victim == v.next) ≡ false
      → find_victim k (started c) h ≡ some ((name, d), g)
      → walk k d.clock_head d.clock_head g ≡ some (tt, g)
      → remque_clock k c h ≡ some ((name, d), g)
  unfolding remque_clock
  remque_clock-many g d name z run walks = rw (loads, z, run, walks) refl

-- The next node is the node itself only when it is alone.
next_is_other :
    (h : Heap) (x : Ptr × File) (ws : Cells)
    → Ring h (x ∷ ws)
    → 1 ≤ length ws
    → (x.0 == first ws x.0) ≡ false
next_is_other h x [] r more = ground (arith, more)
next_is_other h x (w ∷ ws) r more = ground (arith, r.apart.0)

-- An eviction, where the hand points at `x`.
abbrev Evicted : ℕ → Heap → Clock → Cells → Type 0
Evicted k h c xs =
    (e : Evicts [] xs) × (g : Heap) × (d : Clock) × (remque_clock k c h ≡ some ((e.name, d), g))
    × Queue g d e.rest

Evicts-alone : (x : Ptr × File) → chance [] (x ∷ []) ≡ some (x.1.fname, [])
Evicts-alone x = elim (Bool-cases (x.1.ref_bit == 0)) [ inl t ↦ rw t refl | inr f ↦ rw f refl ]

module _ (h : Heap) (c : Clock) (k : ℕ) (zs : Cells) (x : Ptr × File) where
  evict_alone : Turned h c [] (x ∷ []) → Evicted k h c (x ∷ [])
  evict_alone t =
      let (u, at_hand) = started-Turned h c [] x [] t in
      let loads : load (started c).victim h ≡ some (inode x.0 x.0 x.1, h) =
        rw at_hand (load_hand h c [] x [] t.ring) in
      let (g, d, run, q) = rem_Q-here h (started c) x [] [] t.ring.links.0 u in
      (
        record {
          name = x.1.fname;
          rest = [];
          chosen = Evicts-alone x;
          one_less = omega arith;
          no_new = λ n. omega arith;
        },
        g,
        d,
        remque_clock-alone h c k loads g d (rw at_hand (ground arith))
            (subst (λ p. rem_Q (started c) p h ≡ some (d, g)) (sym at_hand) run),
        q,
      )

  evict_many :
      (ys : Cells)
      → Turned h c zs (x ∷ ys)
      → 1 ≤ length (ys ++ zs)
      → length (x ∷ (ys ++ zs)) < k
      → Evicted k h c (x ∷ (ys ++ zs))
  evict_many ys t more enough =
      let xs : Cells = x ∷ (ys ++ zs) in
      let (u, at_hand) = started-Turned h c zs x ys t in
      let ne = node_is_some h zs x ys t.ring in
      let loads : load (started c).victim h
          ≡ some (inode (first (ys ++ zs) x.0) (last (ys ++ zs) x.0) x.1, h) =
        rw at_hand (load_hand h c zs x ys t.ring) in
      let other = next_is_other h x (ys ++ zs) (Ring-rotate h zs (x ∷ ys) t.ring) more in
      let e = chance-Evicts [] xs (omega arith) in
      let turns : turn k xs ≡ some (e.name, e.rest) =
        ap (turn k) (sym (append_nil xs)) ∙ (turn-chance k [] xs tt enough ∙ e.chosen) in
      let (g, d, run, q) =
        find_victim-turn k h (started c) zs (x ∷ ys) e.name e.rest u (rw at_hand ne) turns in
      (
        e,
        g,
        d,
        remque_clock-many h c k loads g d e.name (rw at_hand other) run (
            walk-Queue g d k e.rest q (omega (arith, more, e.one_less))
              (omega (arith, enough, e.one_less))),
        q,
      )

remque_clock-Queue :
    (h : Heap) (c : Clock) (k : ℕ) (zs ys : Cells)
    → Turned h c zs ys
    → 1 ≤ length (ys ++ zs)
    → length (ys ++ zs) < k
    → Evicted k h c (ys ++ zs)
remque_clock-Queue h c k zs [] t nonempty enough = ground (arith, nonempty, ap length t.hand.1)
remque_clock-Queue h c k [] (x ∷ []) t nonempty enough = evict_alone h c k [] x t
remque_clock-Queue h c k (z ∷ zs) (x ∷ []) t nonempty enough =
    evict_many h c k (z ∷ zs) x [] t (omega arith) enough
remque_clock-Queue h c k zs (x ∷ y ∷ ys) t nonempty enough =
    evict_many h c k zs x (y ∷ ys) t (omega arith) enough

-- On a queue that is not empty, and with fuel for one round and one more step, `remque_clock` returns the
-- name that the second-chance rule chooses, and leaves the queue that the rule leaves.
pub remque_clock-IsClock :
    (h : Heap) (c : Clock) (xs : Cells) (k : ℕ)
    → IsClock h c xs
    → 1 ≤ length xs
    → length xs < k
    → (name : Bytes) × (rest : Cells) × (g : Heap) × (d : Clock) × (second_chance xs
        ≡ some (name, rest))
      × (remque_clock k c h ≡ some ((name, d), g))
      × IsClock g d rest
remque_clock-IsClock h c xs k i nonempty enough =
    let q = i.queue in
    let same = ap length q.order in
    let (e, g, d, run, left) =
      remque_clock-Queue h c k q.behind q.ahead q.turned (omega (arith, same, nonempty))
        (omega (arith, same, enough)) in
    (
      e.name,
      e.rest,
      g,
      d,
      ap second_chance q.order ∙ e.chosen,
      run,
      record {
        queue = left;
        unique = λ n. omega (arith, e.no_new n, i.unique n, ap (count n) q.order);
      },
    )
