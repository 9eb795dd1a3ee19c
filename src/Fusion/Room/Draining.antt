-- ===== src/Fusion/Room/Draining.antt =====
-- On the loop of `fusion_open` that makes room on the SSD (src/fusion.c).
use fusionfs_cache.Cache.Chance.{second_chance}
use fusionfs_cache.Cache.Chosen.{chosen_lem}
use fusionfs_cache.Cache.Clock.{Clock, remque_clock}
use fusionfs_cache.Cache.Clock.Evicting.{remque_clock-IsClock}
use fusionfs_cache.Cache.Clock.Fresh.{remque_clock-AllocatesNone}
use fusionfs_cache.Cache.Clock.Invariant.{Queue, IsClock}
use fusionfs_cache.Cache.Clock.NewFile.{head_is_some}
use fusionfs_cache.Cache.Clock.Safety.{empty_handles}
use fusionfs_cache.Cache.Heap.{Ptr, null, Heap}
use fusionfs_cache.Cache.Names.{count}
use fusionfs_cache.Cache.Ring.{Cells}
use fusionfs_cache.Fusion.Directory.{Zht, zht_update, fits}
use fusionfs_cache.Fusion.Disk.{mv, ssd_is_full}
use fusionfs_cache.Fusion.Disk.Runs.{
  HasAddress, net_getmyip-calls, move_file_ssd-calls, ssd_is_full-Asked,
}
use fusionfs_cache.Fusion.Os.{SysCall, getifaddrs, system, symlink, Env, Fs, fs}
use fusionfs_cache.Fusion.Paths.{get_hdd_path}
use fusionfs_cache.Fusion.Room.{marked, swap_out, make_room}
use fusionfs_cache.Prelude.{
  ℕ, zero, suc, ◌≤◌, ◌<◌, ◌≡◌, refl, ap, ◌∙◌, Bool, true, false, not, ◌&&◌, ◌==◌, none, some, Bytes,
  List, [], ◌∷◌, ◌++◌, length, length-append, arith, Bool-cases, inl, inr, ◌⊎◌, subst,
}

no_room : (n : ℕ) → n < 0 → ⊥
no_room n l = omega (arith, l)

-- A file that can be moved: its path has a counterpart on the HDD, and the command fits its buffer.
pub record IsMovable (name : Bytes) : Type 0 where
  pub hdd : Bytes
  pub path : get_hdd_path name ≡ some hdd
  pub room : fits (mv name hdd) ≡ true

-- All files of a queue.
abbrev pub CanMove : Cells → Type 0
CanMove xs = (n : Bytes) → 1 ≤ count n xs → IsMovable n

-- The head of a queue that is not empty is a node.
head_not_null :
    (h : Heap) (c : Clock) (xs : Cells)
    → Queue h c xs
    → 1 ≤ length xs
    → (c.clock_head == null) ≡ false
head_not_null h c xs q more = head_is_some h c (q.behind ++ q.ahead) q.turned.ring q.turned.ends.0 (
    omega (
      arith,
      more,
      ap length q.order,
      length-append q.behind q.ahead,
      length-append q.ahead q.behind,
    ))

module _ {S : Type 0} (zht : Zht S) (env : Env) (ssd ip : Bytes) where
  -- The test in a state: what it says, and the calls behind it.
  abbrev pub Says : Fs S → Bool → List SysCall → Type 0
  Says s full t = ssd_is_full env ssd s ≡ some (full, fs s.dht t s.clock s.heap)

  -- The state behind the move of a file, when the queue is left as `c` and `h`.
  abbrev pub moved : Fs S → List SysCall → Bytes → Bytes → Clock → Heap → Fs S
  moved s t name hdd c h =
      fs (zht_update zht name (marked ip) s.dht)
        (getifaddrs ∷ symlink hdd name ∷ system (mv name hdd) ∷ t) c h

  -- The rounds: the SSD is full, the second-chance rule chooses a file, which goes to the HDD and leaves a
  -- link, and ZHT gets the marked address; at last the SSD is not full, or no file is left.
  pub data Rounds (z : Fs S) (ys : Cells) : Fs S → Cells → Type 0 where
    done :
        {s : Fs S} {xs : Cells} (full : Bool) (t : List SysCall)
        → Says s full t
        → z ≡ fs s.dht t s.clock s.heap
        → xs ≡ ys
        → (full ≡ false) ⊎ (ys ≡ [])
        → Rounds z ys s xs
    round :
        {s : Fs S} {xs : Cells} (t : List SysCall) (name hdd : Bytes) (rest : Cells) (c : Clock)
        (h : Heap)
        → Says s true t
        → second_chance xs ≡ some (name, rest)
        → get_hdd_path name ≡ some hdd
        → Rounds z ys (moved s t name hdd c h) rest
        → Rounds z ys s xs

  swap_out-moved :
      (name hdd : Bytes) (s : Fs S)
      → HasAddress env ip
      → get_hdd_path name ≡ some hdd
      → fits (mv name hdd) ≡ true
      → swap_out zht env ssd name s ≡ some (tt, moved s s.calls name hdd s.clock s.heap)
  unfolding swap_out
  swap_out-moved name hdd s node path room =
      let linked = fs s.dht (symlink hdd name ∷ system (mv name hdd) ∷ s.calls) s.clock s.heap in
      rw (move_file_ssd-calls env s name hdd path room, net_getmyip-calls env linked ip node) refl

  module _ (j k : ℕ) (s : Fs S) (t : List SysCall) where
    make_room-stop :
        (full : Bool)
        → Says s full t
        → (full && not (s.clock.clock_head == null)) ≡ false
        → make_room zht env ssd (suc j) k s ≡ some (tt, fs s.dht t s.clock s.heap)
    unfolding make_room
    make_room-stop full says stop = rw (says, stop) refl

    make_room-next :
        (name hdd : Bytes) (d : Clock) (g : Heap)
        → Says s true t
        → (s.clock.clock_head == null) ≡ false
        → remque_clock k s.clock s.heap ≡ some ((name, d), g)
        → HasAddress env ip
        → get_hdd_path name ≡ some hdd
        → fits (mv name hdd) ≡ true
        → make_room zht env ssd (suc j) k s ≡ make_room zht env ssd j k (moved s t name hdd d g)
    unfolding make_room
    make_room-next name hdd d g says more run node path room =
        rw (says, more, run, swap_out-moved name hdd (fs s.dht t d g) node path room) refl

  -- What the loop leaves.
  abbrev pub Drained : ℕ → ℕ → Fs S → Cells → Type 0
  Drained j k s xs =
      (z : Fs S) × (ys : Cells) × (make_room zht env ssd j k s ≡ some (tt, z))
      × IsClock z.heap z.clock ys
      × Rounds z ys s xs
      × (length ys ≤ length xs)
      × ((p : Ptr) → s.heap p ≡ none → z.heap p ≡ none)

  -- With more fuel than the queue has files, at a node with an address, and when every file of the queue
  -- can be moved, the loop ends: while the SSD is full, the file that the second-chance rule chooses goes to
  -- the HDD, a link takes its place, and ZHT gets the marked address, until the SSD is not full or the queue
  -- is empty. Addresses that were free stay free, and the queue gets no longer.
  pub make_room-Drained :
      (j k : ℕ) (s : Fs S) (xs : Cells)
      → IsClock s.heap s.clock xs
      → HasAddress env ip
      → CanMove xs
      → length xs < j
      → length xs < k
      → Drained j k s xs
  make_room-Drained zero k s xs i node can enough enough' = elim (no_room (length xs) enough) [ ]
  make_room-Drained (suc j) k s [] i node can enough enough' =
      let q = i.queue in
      let (no_head, no_hand) = empty_handles s.heap s.clock q.behind q.ahead q.turned q.order in
      let (full, t, says, same) = ssd_is_full-Asked env ssd s in
      let stop : (full && not (s.clock.clock_head == null)) ≡ false = rw no_head (ground arith) in
      (
        fs s.dht t s.clock s.heap,
        [],
        make_room-stop j k s t full says stop,
        i,
        Rounds.done full t says refl refl (inr refl),
        omega arith,
        λ p e. e,
      )
  make_room-Drained (suc j) k s (x ∷ xs) i node can enough enough' =
      let (full, t, says, same) = ssd_is_full-Asked env ssd s in
      elim (Bool-cases full) [
        | inr f ↦
            let stop : (full && not (s.clock.clock_head == null)) ≡ false = rw f refl in
            (
              fs s.dht t s.clock s.heap,
              x ∷ xs,
              make_room-stop j k s t full says stop,
              i,
              Rounds.done full t says refl refl (inl f),
              omega arith,
              λ p e. e,
            )
        | inl f ↦
            let is_full = subst (λ b. Says s b t) f says in
            let (name, rest, g1, d1, chosen, run, i1) =
              remque_clock-IsClock s.heap s.clock (x ∷ xs) k i (omega arith) enough' in
            let (less, can1, m) = chosen_lem IsMovable (x ∷ xs) name rest chosen can in
            let mid = moved s t name m.hdd d1 g1 in
            let (z, ys, run2, i2, rounds, shorter, free) =
              make_room-Drained j k mid rest i1 node can1 (omega (arith, less, enough))
                (omega (arith, less, enough')) in
            (
              z,
              ys,
              make_room-next j k s t name m.hdd d1 g1 is_full
                    (head_not_null s.heap s.clock (x ∷ xs) i.queue (omega arith)) run node m.path
                    m.room
                  ∙ run2,
              i2,
              Rounds.round t name m.hdd rest d1 g1 is_full chosen m.path rounds,
              omega (arith, shorter, less),
              λ p e. free p (remque_clock-AllocatesNone k s.clock s.heap (name, d1) g1 run p e),
            )
      ]
