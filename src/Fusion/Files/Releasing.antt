-- ===== src/Fusion/Files/Releasing.antt =====
-- On `fusion_release` (src/fusion.c).
use fusionfs_cache.Cache.Clock.{Clock}
use fusionfs_cache.Cache.Clock.Invariant.{IsClock}
use fusionfs_cache.Cache.Clock.Removing.{rmelem_clock-IsClock}
use fusionfs_cache.Cache.Heap.{Heap}
use fusionfs_cache.Cache.Names.{erase}
use fusionfs_cache.Cache.Ring.{Cells}
use fusionfs_cache.Fusion.Directory.{Zht, zht_update, text_of}
use fusionfs_cache.Fusion.Disk.Runs.{HasAddress, net_getmyip-calls}
use fusionfs_cache.Fusion.Files.{is_written, take_over, room_with_warning, fusion_release}
use fusionfs_cache.Fusion.Files.Opening.{room_with_warning-Left}
use fusionfs_cache.Fusion.Os.{
  SysCall, getifaddrs, close, fcntl_getfl, unlink, ffs_rmfile, Env, Fs, fs,
}
use fusionfs_cache.Fusion.Paths.{get_hdd_path, fusion_fullpath, real_ip}
use fusionfs_cache.Fusion.Room.Draining.{CanMove, Rounds}
use fusionfs_cache.Prelude.{
  ℕ, ℤ, ◌<◌, ◌≡◌, refl, Bool, true, false, if◌then◌else◌, Option, some, Bytes, eqb, List, ◌∷◌,
  length, arith, Bool-cases, inl, inr, ◌⊎◌,
}

-- A file that has been written leaves its old node, whichever disk it is on there.
take_over-room :
    {S : Type 0} (env : Env) (ssd ip : Bytes) (zht : Zht S) (k : ℕ) (path fpath hdd : Bytes)
    → get_hdd_path fpath ≡ some hdd
    → (node : Bytes × Bool) (w : Fs S)
    → take_over env ssd zht k path fpath ip node w
      ≡ room_with_warning env ssd zht k (
          fs
            (zht_update zht path ip w.dht)
            (ffs_rmfile node.0 (if node.1 then hdd else fpath) ∷ w.calls)
            w.clock
            w.heap)
take_over-room env ssd ip zht k path fpath hdd other (a, true) w = rw other refl
take_over-room env ssd ip zht k path fpath hdd other (a, false) w = refl

module _ {S : Type 0} (env : Env) (zht : Zht S) (path : Bytes) (fh : ℤ) (s : Fs S) where
  -- The calls that every release makes, what the handler returns, and what ZHT says of the file, read by
  -- `real_ip`.
  abbrev pub closing : List SysCall
  closing = getifaddrs ∷ close fh ∷ fcntl_getfl fh ∷ s.calls

  abbrev pub closed : ℤ
  closed = (env.reply (close fh ∷ fcntl_getfl fh ∷ s.calls)).ret

  abbrev pub node_of : Bytes × Bool
  node_of = real_ip (env.newip closing) (text_of (zht.lookup path s.dht))

  abbrev pub wrote : Bool
  wrote = is_written (env.reply (fcntl_getfl fh ∷ s.calls))

  -- The node of the file removes its copy.
  abbrev pub removed_there : Bytes → Bytes → SysCall
  removed_there fpath hdd = ffs_rmfile node_of.0 (if node_of.1 then hdd else fpath)

module _ {S : Type 0} (env : Env) (ssd ip : Bytes) (zht : Zht S) (k : ℕ) (path fpath hdd : Bytes)
    (fh : ℤ) (s : Fs S) (xs : Cells) where
  abbrev pub TakesOver : Option (ℤ × Fs S) → Type 0
  TakesOver r =
      (z : Fs S) × (ys : Cells) × (t : List SysCall) × (r
        ≡ some (closed env zht path fh s, fs z.dht t z.clock z.heap))
      × IsClock z.heap z.clock ys
      × Rounds zht env ssd ip z ys
          (fs (zht_update zht path ip s.dht)
            (removed_there env zht path fh s fpath hdd ∷ closing env zht path fh s) s.clock s.heap)
          xs

  abbrev pub DropsCopy : Option (ℤ × Fs S) → Type 0
  DropsCopy r =
      (g : Heap) × (d : Clock) × (r
        ≡ some
            (closed env zht path fh s, fs s.dht (unlink fpath ∷ (closing env zht path fh s)) d g))
      × IsClock g d (erase fpath xs)

  module _ (full : fusion_fullpath ssd path ≡ some fpath) (other : get_hdd_path fpath ≡ some hdd)
      (node : HasAddress env ip) (i : IsClock s.heap s.clock xs) (enough : length xs < k) where
    release_here :
        eqb ip (node_of env zht path fh s).0 ≡ true
        → fusion_release env ssd zht k path fh s
          ≡ some (closed env zht path fh s, fs s.dht (closing env zht path fh s) s.clock s.heap)
    unfolding fusion_release
    release_here t =
        let w = fs s.dht (close fh ∷ fcntl_getfl fh ∷ s.calls) s.clock s.heap in
        rw (full, net_getmyip-calls env w ip node, t) refl

    release_written :
        eqb ip (node_of env zht path fh s).0 ≡ false
        → (wrote env zht path fh s) ≡ true
        → CanMove xs
        → TakesOver (fusion_release env ssd zht k path fh s)
    unfolding fusion_release
    release_written f t can =
        let w = fs s.dht (close fh ∷ fcntl_getfl fh ∷ s.calls) s.clock s.heap in
        let s1 =
          fs (zht_update zht path ip s.dht)
            (removed_there env zht path fh s fpath hdd ∷ closing env zht path fh s) s.clock
            s.heap in
        let (z, ys, u, run, left, rounds, shorter, free) =
          room_with_warning-Left env ssd ip zht k s1 xs i node can enough in
        (
          z,
          ys,
          u,
          rw
              (
                full,
                net_getmyip-calls env w ip node,
                f,
                t,
                take_over-room env ssd ip zht k path fpath hdd other (node_of env zht path fh s)
                    (fs s.dht (closing env zht path fh s) s.clock s.heap),
                run,
              )
              refl,
          left,
          rounds,
        )

    release_read :
        eqb ip (node_of env zht path fh s).0 ≡ false
        → (wrote env zht path fh s) ≡ false
        → DropsCopy (fusion_release env ssd zht k path fh s)
    unfolding fusion_release
    release_read f t =
        let w = fs s.dht (close fh ∷ fcntl_getfl fh ∷ s.calls) s.clock s.heap in
        let (g, d, run, left) =
          rmelem_clock-IsClock s.heap s.clock xs k fpath i (omega (arith, enough)) in
        (g, d, rw (full, net_getmyip-calls env w ip node, f, t, run) refl, left)

    -- With a valid queue, of less files than the fuel, which can be moved, and at a node with
    -- an address, `fusion_release` returns what close returned. A file of this node is left
    -- as it is. A file of another node that was written goes over to this node: ZHT has this
    -- address, the other node removes its copy, on the HDD when the address has the mark, and
    -- room is made by the second-chance rule. A copy that was only read goes, from the disk
    -- and from the queue.
    pub fusion_release_lem :
        CanMove xs
        → ((eqb ip (node_of env zht path fh s).0 ≡ true)
            × (fusion_release env ssd zht k path fh s
                ≡ some (
                  closed env zht path fh s,
                  fs s.dht (closing env zht path fh s) s.clock s.heap,
                )))
          ⊎ (((eqb ip (node_of env zht path fh s).0 ≡ false)
                × ((wrote env zht path fh s) ≡ true)
                × TakesOver (fusion_release env ssd zht k path fh s))
              ⊎ ((eqb ip (node_of env zht path fh s).0 ≡ false)
                  × ((wrote env zht path fh s) ≡ false)
                  × DropsCopy (fusion_release env ssd zht k path fh s)))
    fusion_release_lem can = elim (Bool-cases (eqb ip (node_of env zht path fh s).0)) [
      | inl t ↦ inl (t, release_here t)
      | inr f ↦ elim (Bool-cases (wrote env zht path fh s)) [
        | inl t ↦ inr (inl (f, t, release_written f t can))
        | inr g ↦ inr (inr (f, g, release_read f g))
      ]
    ]
