-- ===== src/Cache/Clock/Safety.antt =====
-- On calls of the clock queue (src/clock.c) behind one another, and on an empty queue.
use fusionfs_cache.Cache.Clock.{Clock, insque_clock, remque_clock, name_max}
use fusionfs_cache.Cache.Clock.Evicting.{remque_clock-IsClock}
use fusionfs_cache.Cache.Clock.Invariant.{Turned, IsClock}
use fusionfs_cache.Cache.Clock.Requesting.{insque_clock-IsClock}
use fusionfs_cache.Cache.Heap.{Ptr, null, Heap, load}
use fusionfs_cache.Cache.Protection.{has_spare, second_chance-request}
use fusionfs_cache.Cache.Request.{request, length-request}
use fusionfs_cache.Cache.Ring.{Cells}
use fusionfs_cache.Prelude.{
  ℕ, ◌+◌, ◌≤◌, ◌<◌, ◌≡◌, refl, true, false, none, some, Bytes, eqb, arith, ◌==◌, length, [], ◌∷◌,
  ◌++◌,
}

has_spare-length : (n : Bytes) (xs : Cells) → has_spare n xs ≡ true → 1 ≤ length xs
has_spare-length n [] s = cc
has_spare-length n (x ∷ xs) s = omega arith

-- When a file of another name has its bit clear, a request for a file and an eviction behind it both
-- return, and the eviction takes another file: for a queue without repeated names, enough fuel, a new
-- address, and a name that fits its array.
pub insque_clock-remque_clock :
    (h : Heap) (c : Clock) (xs : Cells) (k : ℕ) (e : Ptr) (n : Bytes)
    → IsClock h c xs
    → length xs + 1 < k
    → (e == null) ≡ false
    → h e ≡ none
    → length n < name_max
    → has_spare n xs ≡ true
    → (g1 g2 : Heap) × (d1 d2 : Clock) × (name : Bytes) × (insque_clock k c e n h ≡ some (d1, g1))
      × (remque_clock k d1 g1 ≡ some ((name, d2), g2))
      × (eqb name n ≡ false)
insque_clock-remque_clock h c xs k e n i enough ne new short spare =
    let (g1, d1, run1, j) =
      insque_clock-IsClock h c xs k e n i (omega (arith, enough)) ne new short in
    let (longer, bounded) = length-request e n xs in
    let (name, rest, g2, d2, chosen, run2, l) =
      remque_clock-IsClock g1 d1 (request e n xs) k j
        (omega (arith, longer, has_spare-length n xs spare)) (omega (arith, bounded, enough)) in
    (g1, g2, d1, d2, name, run1, run2, second_chance-request e n xs name rest spare chosen)

-- An empty queue has no head and no hand.
pub empty_handles :
    (h : Heap) (c : Clock) (zs ys : Cells)
    → Turned h c zs ys
    → ◌≡◌ {A = Cells} [] (ys ++ zs)
    → (c.clock_head ≡ null) × (c.victim ≡ null)
empty_handles h c [] [] t e = (t.ends.0, t.hand.0)
empty_handles h c (z ∷ zs) [] t e = cc
empty_handles h c zs (y ∷ ys) t e = cc

-- On an empty queue `remque_clock` reports the error and goes on: it reads through the NULL pointer,
-- with any fuel.
pub remque_clock-empty : (h : Heap) (c : Clock) (k : ℕ) → IsClock h c [] → remque_clock k c h ≡ none
unfolding remque_clock load
remque_clock-empty h c k i =
    let q = i.queue in
    let (no_head, no_hand) = empty_handles h c q.behind q.ahead q.turned q.order in
    rw (no_head, no_hand) refl
