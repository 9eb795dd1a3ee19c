-- ===== src/Checks/Queues.antt =====
-- Tests and examples of the cache queues: three files a, b and c, whose nodes are at 16, 32 and 48, the
-- hand at b.
use fusionfs_cache.Cache.Chance.{second_chance}
use fusionfs_cache.Cache.Clock.{
  Clock, clock, findelem_clock, find_victim, insque_clock, remque_clock, rem_Q, rmelem_clock,
}
use fusionfs_cache.Cache.Clock.Evicting.{remque_clock-IsClock}
use fusionfs_cache.Cache.Clock.Invariant.{IsClock}
use fusionfs_cache.Cache.Clock.Requesting.{insque_clock-IsClock}
use fusionfs_cache.Cache.Clock.Safety.{insque_clock-remque_clock}
use fusionfs_cache.Cache.Heap.{
  null, File, inode, Heap, load, write, set_ref_bit, set_next, set_prev, free,
}
use fusionfs_cache.Cache.Lfu.{insque_lfu}
use fusionfs_cache.Cache.Lfu.Counting.{IsLfu, used, insque_lfu-IsLfu}
use fusionfs_cache.Cache.Lru.{Lru, lru, insque_lru, rmelem_lru, remque_lru}
use fusionfs_cache.Cache.Lru.Inserting.{insque_lru-IsLru}
use fusionfs_cache.Cache.Lru.Removing.{IsLru, remque_lru-IsLru, rmelem_lru-IsLru}
use fusionfs_cache.Cache.Names.{erase, distinct_names-Unique}
use fusionfs_cache.Cache.Request.{request}
use fusionfs_cache.Cache.Ring.{Cells, Ring, SameOutside}
use fusionfs_cache.Cache.Walk.{find_from, walk}
use fusionfs_cache.Prelude.{
  ℕ, ◌≡◌, refl, false, ◌==◌, if◌then◌else◌, Option, none, some, Bytes, eqb, [], ◌∷◌, ◌++◌, arith,
  inl,
}

abbrev pub file : ℕ → ℕ → File
file n b = record { fname = n ∷ []; freq = 0; ref_bit = b }

-- One file alone.
abbrev alone : Heap
alone p = if p == 16 then some (inode 16 16 (file 97 1)) else none

-- Other files' nodes are at other addresses; there is also a node for b that is not in the queue, at 64.
abbrev pub memory : Heap
memory p =
    if p == 16
    then some (inode 32 48 (file 97 1))
    else if p == 32
    then some (inode 48 16 (file 98 1))
    else if p == 48
    then some (inode 16 32 (file 99 0))
    else if p == 64
    then some (inode null null (file 98 1))
    else none

abbrev pub hand : Clock
hand = clock 16 48 32

abbrev pub from_hand : Cells
from_hand = (32, file 98 1) ∷ (48, file 99 0) ∷ (16, file 97 1) ∷ []

abbrev from_head : Cells
from_head = (16, file 97 1) ∷ (32, file 98 1) ∷ (48, file 99 0) ∷ []

three-Ring : Ring memory from_head
three-Ring = record {
  links = (refl, refl, (refl, refl, (refl, refl, tt)));
  apart = (refl, (refl, (refl, tt)));
}

pub from_hand-IsClock : IsClock memory hand from_hand
unfolding eqb
from_hand-IsClock = record {
  queue = record {
    behind = (16, file 97 1) ∷ [];
    ahead = (32, file 98 1) ∷ (48, file 99 0) ∷ [];
    order = refl;
    turned = record { ring = three-Ring; ends = (refl, refl); hand = inl refl };
  };
  unique = distinct_names-Unique from_hand refl;
}

insque_clock-IsClock_example :
    (g : Heap) × (d : Clock) × (insque_clock 5 hand 80 (100 ∷ []) memory ≡ some (d, g))
    × IsClock g d (request 80 (100 ∷ []) from_hand)
insque_clock-IsClock_example =
    insque_clock-IsClock memory hand from_hand 5 80 (100 ∷ []) from_hand-IsClock (omega arith) refl
      refl (omega arith)

remque_clock-IsClock_example :
    (name : Bytes) × (rest : Cells) × (g : Heap) × (d : Clock) × (second_chance from_hand
      ≡ some (name, rest))
    × (remque_clock 4 hand memory ≡ some ((name, d), g))
    × IsClock g d rest
remque_clock-IsClock_example =
    remque_clock-IsClock memory hand from_hand 4 from_hand-IsClock (omega arith) (omega arith)

insque_clock-remque_clock_example :
    (g1 g2 : Heap) × (d1 d2 : Clock) × (name : Bytes) × (insque_clock 5 hand 80 (98 ∷ []) memory
      ≡ some (d1, g1))
    × (remque_clock 5 d1 g1 ≡ some ((name, d2), g2))
    × (eqb name (98 ∷ []) ≡ false)
unfolding eqb
insque_clock-remque_clock_example =
    insque_clock-remque_clock memory hand from_hand 5 80 (98 ∷ []) from_hand-IsClock (omega arith)
      refl refl (omega arith) refl

empty-IsClock : IsClock memory (clock null null null) []
empty-IsClock = record {
  queue = record {
    behind = [];
    ahead = [];
    order = refl;
    turned = record {
      ring = record { links = tt; apart = tt };
      ends = (refl, refl);
      hand = (refl, refl);
    };
  };
  unique = distinct_names-Unique [] refl;
}

from_head-IsLru : IsLru memory (lru 16 48) from_head
unfolding eqb
from_head-IsLru = record {
  ring = three-Ring;
  head = refl;
  tail = refl;
  unique = distinct_names-Unique from_head refl;
}

insque_lru-IsLru_example :
    (g : Heap) × (d : Lru) × (insque_lru 3 (lru 16 48) 64 memory ≡ some (d, g))
    × IsLru g d (erase (98 ∷ []) from_head ++ (64, file 98 1) ∷ [])
insque_lru-IsLru_example =
    insque_lru-IsLru memory (lru 16 48) from_head 3 64 null null (file 98 1) from_head-IsLru
      (omega arith) refl refl refl

rmelem_lru-IsLru_example :
    (g : Heap) × (d : Lru) × (rmelem_lru 3 (lru 16 48) (99 ∷ []) memory ≡ some (d, g))
    × IsLru g d (erase (99 ∷ []) from_head)
    × SameOutside from_head memory g
rmelem_lru-IsLru_example =
    rmelem_lru-IsLru memory (lru 16 48) from_head 3 (99 ∷ []) from_head-IsLru (omega arith)

remque_lru-IsLru_example :
    (g : Heap) × (d : Lru) × (remque_lru (lru 16 48) memory ≡ some (d, g))
    × IsLru g d ((32, file 98 1) ∷ (48, file 99 0) ∷ [])
remque_lru-IsLru_example =
    remque_lru-IsLru memory (lru 16 48) (16, file 97 1) ((32, file 98 1) ∷ (48, file 99 0) ∷ [])
      from_head-IsLru

-- The file b is used again: it gets the frequency 1 and goes behind the others.
insque_lfu-IsLfu_example :
    (g : Heap) × (d : Lru) × (insque_lfu 3 (lru 16 48) 64 memory ≡ some (d, g))
    × IsLfu g d (used 64 (file 98 1) from_head)
insque_lfu-IsLfu_example =
    insque_lfu-IsLfu memory (lru 16 48) from_head 3 64 null null (file 98 1)
      (record { queue = from_head-IsLru; sorted = (omega arith, (omega arith, tt)) }) (omega arith)
      refl refl refl

-- The eviction passes over b, whose bit is set, and takes c.
abbrev name_of : Option ((Bytes × Clock) × Heap) → Option Bytes
name_of none = none
name_of (some r) = some r.0.0

test_evicts_c : name_of (remque_clock 4 hand memory) ≡ some (99 ∷ [])
unfolding remque_clock load find_victim rem_Q set_ref_bit write set_next set_prev free walk
test_evicts_c = refl

-- A queue that is empty again has no hand.
test_removes_all :
    rmelem_clock 3 (clock 16 16 16) (97 ∷ []) alone
    ≡ some (clock null null null, write alone 16 none)
unfolding rmelem_clock findelem_clock find_from load rem_Q free eqb
test_removes_all = refl
