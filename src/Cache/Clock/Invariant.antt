-- ===== src/Cache/Clock/Invariant.antt =====
-- What the pointers of the clock queue mean.
use fusionfs_cache.Cache.Clock.{Clock}
use fusionfs_cache.Cache.Heap.{Ptr, null, Heap}
use fusionfs_cache.Cache.Names.{Unique}
use fusionfs_cache.Cache.Ring.{Cells, first, last, Ring}
use fusionfs_cache.Prelude.{◌≡◌, ◌⊎◌, [], ◌∷◌, ◌++◌}

-- The head and the tail of the queue.
abbrev pub Ends : Clock → Cells → Type 0
Ends c ws = (c.clock_head ≡ first ws null) × (c.clock_tail ≡ last ws null)

-- The hand points at the first node of the second part, or has not been used.
abbrev pub Hand : Ptr → Cells → Cells → Type 0
Hand v zs [] = (v ≡ null) × (zs ≡ [])
Hand v zs (y ∷ ys) = (v ≡ y.0) ⊎ ((v ≡ null) × (zs ≡ []))

-- From the head, the nodes `zs` behind the hand and the nodes `ys` from the hand on.
pub record Turned (h : Heap) (c : Clock) (zs ys : Cells) : Type 0 where
  pub ring : Ring h (zs ++ ys)
  pub ends : Ends c (zs ++ ys)
  pub hand : Hand c.victim zs ys

-- The queue, in the order in which the hand meets the nodes.
pub record Queue (h : Heap) (c : Clock) (xs : Cells) : Type 0 where
  pub behind : Cells
  pub ahead : Cells
  pub order : xs ≡ ahead ++ behind
  pub turned : Turned h c behind ahead

-- A queue in which no name stands twice.
pub record IsClock (h : Heap) (c : Clock) (xs : Cells) : Type 0 where
  pub queue : Queue h c xs
  pub unique : Unique xs
