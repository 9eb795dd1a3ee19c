-- ===== src/Fusion/Files/Opening.antt =====
-- On `fusion_open` (src/fusion.c), and the steps that it shares with `fusion_create`.
use fusionfs_cache.Cache.Clock.{Clock, name_max}
use fusionfs_cache.Cache.Clock.Invariant.{IsClock}
use fusionfs_cache.Cache.Clock.Requesting.{insque_clock-IsClock}
use fusionfs_cache.Cache.Heap.{Ptr, null, Heap}
use fusionfs_cache.Cache.Request.{request}
use fusionfs_cache.Cache.Ring.{Cells}
use fusionfs_cache.Fusion.Directory.{Zht, fits}
use fusionfs_cache.Fusion.Disk.{mv}
use fusionfs_cache.Fusion.Disk.Links.{
  is_on_hdd, asked, is_symlink_ssd-is_on_hdd, move_file_hdd-calls,
}
use fusionfs_cache.Fusion.Disk.Runs.{HasAddress, ssd_is_full-Asked}
use fusionfs_cache.Fusion.Files.{opened, cached, room_with_warning, fusion_open}
use fusionfs_cache.Fusion.Os.{SysCall, open_file, unlink, system, Env, Fs, fs}
use fusionfs_cache.Fusion.Paths.{get_hdd_path, fusion_fullpath}
use fusionfs_cache.Fusion.Room.Draining.{CanMove, Rounds, make_room-Drained}
use fusionfs_cache.Prelude.{
  ℕ, ℤ, ◌≤◌, ◌<◌, ◌≡◌, refl, true, false, ◌==◌, leb, Option, none, some, Bytes, List, ◌∷◌, length,
  arith, Bool-cases, inl, inr, ◌⊎◌,
}

-- What a request for a file relies on: a valid queue, a node with an address,
-- fuel, and a new node for a name that fits.
pub record IsReady (env : Env) (ip : Bytes) (k : ℕ) (e : Ptr) (fpath : Bytes) (c : Clock) (h : Heap)
    (xs : Cells) : Type 0 where
  pub queue : IsClock h c xs
  pub node : HasAddress env ip
  pub fuel : length xs < k
  pub not_null : (e == null) ≡ false
  pub unused : h e ≡ none
  pub short : length fpath < name_max

module _ {S : Type 0} (env : Env) (ssd ip : Bytes) (zht : Zht S) (k : ℕ) where
  -- Rounds, and one more test of the disk.
  abbrev pub Left : Fs S → Cells → Type 0
  Left s xs =
      (z : Fs S) × (ys : Cells) × (t : List SysCall) × (room_with_warning env ssd zht k s
        ≡ some (tt, fs z.dht t z.clock z.heap))
      × IsClock z.heap z.clock ys
      × Rounds zht env ssd ip z ys s xs
      × (length ys ≤ length xs)
      × ((p : Ptr) → s.heap p ≡ none → z.heap p ≡ none)

  pub room_with_warning-Left :
      (s : Fs S) (xs : Cells)
      → IsClock s.heap s.clock xs
      → HasAddress env ip
      → CanMove xs
      → length xs < k
      → Left s xs
  room_with_warning-Left s xs i node can enough =
      let (z, ys, run, left, rounds, shorter, free) =
        make_room-Drained zht env ssd ip k k s xs i node can enough enough in
      let (full, t, says, same) = ssd_is_full-Asked env ssd z in
      (z, ys, t, rw (run, says) refl, left, rounds, shorter, free)

module _ {S : Type 0} (env : Env) (ssd ip : Bytes) (zht : Zht S) (k : ℕ) (e : Ptr)
    (fpath : Bytes) where
  pub cached-request :
      (w : Fs S) (xs : Cells)
      → IsReady env ip k e fpath w.clock w.heap xs
      → (d : Clock) × (g : Heap) × (cached env ssd zht k e fpath w
          ≡ some (tt, fs w.dht w.calls d g))
        × IsClock g d (request e fpath xs)
  cached-request w xs r =
      let (g, d, run, i) =
        insque_clock-IsClock w.heap w.clock xs k e fpath r.queue r.fuel r.not_null r.unused
          r.short in
      let room : leb name_max (length fpath) ≡ false = ground (arith, r.short) in
      (d, g, rw (room, run) refl, i)

  -- A request behind the rounds.
  abbrev pub Emptied : Fs S → Cells → Type 0
  Emptied s xs =
      (z : Fs S) × (ys : Cells) × (t : List SysCall) × (room_with_warning env ssd zht k s
        ≡ some (tt, fs z.dht t z.clock z.heap))
      × Rounds zht env ssd ip z ys s xs
      × IsReady env ip k e fpath z.clock z.heap ys

  pub room_with_warning-Emptied :
      (s : Fs S) (xs : Cells)
      → IsReady env ip k e fpath s.clock s.heap xs
      → CanMove xs
      → Emptied s xs
  room_with_warning-Emptied s xs r can =
      let (z, ys, t, run, i, rounds, shorter, free) =
        room_with_warning-Left env ssd ip zht k s xs r.queue r.node can r.fuel in
      (
        z,
        ys,
        t,
        run,
        rounds,
        record {
          queue = i;
          node = r.node;
          fuel = omega (arith, shorter, r.fuel);
          not_null = r.not_null;
          unused = free e r.unused;
          short = r.short;
        },
      )

-- What a handler returns behind the calls `t`, of which the last opened the file.
abbrev pub answer_of : Env → List SysCall → ℤ × ℤ
answer_of env t = (opened (env.reply t), (env.reply t).ret)

module _ {S : Type 0} (env : Env) (ssd ip : Bytes) (zht : Zht S) (k : ℕ) (e : Ptr)
    (path fpath hdd : Bytes) (flags : ℕ) (s : Fs S) (xs : Cells) where
  -- The file is not on the HDD.
  abbrev pub OpensHere : Option ((ℤ × ℤ) × Fs S) → Type 0
  OpensHere r =
      let t = open_file fpath flags 0 ∷ asked env fpath hdd s.calls in
      (d : Clock) × (g : Heap) × (r ≡ some (answer_of env t, fs s.dht t d g))
      × IsClock g d (request e fpath xs)

  -- It is: room is made, and the file moved back.
  abbrev pub OpensMoved : Option ((ℤ × ℤ) × Fs S) → Type 0
  OpensMoved r =
      (z : Fs S) × (ys : Cells) × (t : List SysCall) × (d : Clock) × (g : Heap) × Rounds zht env ssd
        ip z ys (fs s.dht (asked env fpath hdd s.calls) s.clock s.heap) xs
      × (r ≡ (
          let u = open_file fpath flags 0 ∷ system (mv hdd fpath) ∷ unlink fpath ∷ t in
          some (answer_of env u, fs z.dht u d g)))
      × IsClock g d (request e fpath ys)

  module _ (full : fusion_fullpath ssd path ≡ some fpath) (other : get_hdd_path fpath ≡ some hdd)
      (r : IsReady env ip k e fpath s.clock s.heap xs) where
    open_here :
        is_on_hdd env fpath hdd s.calls ≡ false
        → OpensHere (fusion_open env ssd zht k e path flags s)
    unfolding fusion_open
    open_here f =
        let t = open_file fpath flags 0 ∷ asked env fpath hdd s.calls in
        let w = fs s.dht t s.clock s.heap in
        let (d, g, run, i) = cached-request env ssd ip zht k e fpath w xs r in
        (d, g, rw (full, is_symlink_ssd-is_on_hdd env fpath hdd s other, f, run) refl, i)

    open_moved :
        is_on_hdd env fpath hdd s.calls ≡ true
        → CanMove xs
        → fits (mv hdd fpath) ≡ true
        → OpensMoved (fusion_open env ssd zht k e path flags s)
    unfolding fusion_open
    open_moved l can room =
        let s1 = fs s.dht (asked env fpath hdd s.calls) s.clock s.heap in
        let (z, ys, t, run, rounds, ready2) =
          room_with_warning-Emptied env ssd ip zht k e fpath s1 xs r can in
        let z1 = fs z.dht t z.clock z.heap in
        let u = open_file fpath flags 0 ∷ system (mv hdd fpath) ∷ unlink fpath ∷ t in
        let w = fs z.dht u z.clock z.heap in
        let (d, g, run2, i) = cached-request env ssd ip zht k e fpath w ys ready2 in
        (
          z,
          ys,
          t,
          d,
          g,
          rounds,
          rw
              (
                full,
                is_symlink_ssd-is_on_hdd env fpath hdd s other,
                l,
                run,
                move_file_hdd-calls env fpath hdd z1 other room,
                run2,
              )
              refl,
          i,
        )

    -- When the queue is valid and has less files than the fuel, the node has an address, the
    -- new node is unused, and the path fits its name, the files of the queue can be moved,
    -- and the command that moves this file fits its buffer, `fusion_open` returns and keeps
    -- the descriptor. A file that is not on the HDD is opened, and requested in the queue.
    -- For a file on the HDD the handler first makes room by the second-chance rule, removes
    -- the link, moves the file to the SSD, opens it, and requests it in the queue that is
    -- left.
    pub fusion_open-request :
        CanMove xs
        → fits (mv hdd fpath) ≡ true
        → ((is_on_hdd env fpath hdd s.calls ≡ false)
            × OpensHere (fusion_open env ssd zht k e path flags s))
          ⊎ ((is_on_hdd env fpath hdd s.calls ≡ true)
              × OpensMoved (fusion_open env ssd zht k e path flags s))
    fusion_open-request can room = elim (Bool-cases (is_on_hdd env fpath hdd s.calls)) [
      | inl l ↦ inr (l, open_moved l can room)
      | inr f ↦ inl (f, open_here f)
    ]
