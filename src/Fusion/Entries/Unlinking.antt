-- ===== src/Fusion/Entries/Unlinking.antt =====
-- On `fusion_unlink` (src/fusion.c).
use fusionfs_cache.Cache.Clock.{Clock, rmelem_clock}
use fusionfs_cache.Cache.Clock.Invariant.{IsClock}
use fusionfs_cache.Cache.Clock.Removing.{rmelem_clock-IsClock}
use fusionfs_cache.Cache.Heap.{Heap}
use fusionfs_cache.Cache.Names.{erase}
use fusionfs_cache.Cache.Ring.{Cells}
use fusionfs_cache.Fusion.Directory.{Zht}
use fusionfs_cache.Fusion.Directory.History.{Dirs, Holds, delete_name, delete-Holds}
use fusionfs_cache.Fusion.Directory.Keys.{other_remove-Holds, delete_elsewhere}
use fusionfs_cache.Fusion.Disk.{get_used_ssd}
use fusionfs_cache.Fusion.Disk.Links.{is_on_hdd, asked, asked-effects, is_symlink_ssd-is_on_hdd}
use fusionfs_cache.Fusion.Disk.Runs.{HasAddress, effects, net_getmyip-calls, get_used_ssd-Asked}
use fusionfs_cache.Fusion.Entries.{unlink_copies, unlink_entry, fusion_unlink}
use fusionfs_cache.Fusion.Os.{SysCall, getifaddrs, unlink, ffs_rmfile, Env, Fs, fs, checked}
use fusionfs_cache.Fusion.Paths.{get_hdd_path, fusion_fullpath, real_ip, split_path}
use fusionfs_cache.Prelude.{
  ℕ, ℤ, ◌≤◌, ◌≡◌, refl, ap, ◌∙◌, Bool, false, if◌then◌else◌, Option, none, some, Bytes, eqb,
  eqb_refl, List, [], ◌∷◌, length, Bool-cases, inl, inr,
}

module _ (ip fpath hdd a : Bytes) (marked : Bool) where
  -- The copies that go, newest first: here, and at another node.
  abbrev pub gone : List SysCall → List SysCall
  gone t =
      if eqb ip a
      then unlink fpath ∷ t
      else unlink fpath ∷ ffs_rmfile a (if marked then hdd else fpath) ∷ t

  effects-gone : (t : List SysCall) → effects (gone (getifaddrs ∷ t)) ≡ gone (effects t)
  effects-gone t = elim (Bool-cases (eqb ip a)) [ inl e ↦ rw e refl | inr e ↦ rw e refl ]

module _ (env : Env) (fpath hdd : Bytes) where
  -- The calls that change the disks before.
  abbrev pub before : List SysCall → List SysCall
  before t = if is_on_hdd env fpath hdd t then unlink hdd ∷ effects t else effects t

  -- The removal of the file on the HDD, with the questions before it.
  abbrev looked : List SysCall → List SysCall
  looked t =
      if is_on_hdd env fpath hdd t
      then unlink hdd ∷ asked env fpath hdd t
      else asked env fpath hdd t

  looked-before : (t : List SysCall) → effects (looked t) ≡ before t
  looked-before t =
      let same = asked-effects env fpath hdd t in
      elim (Bool-cases (is_on_hdd env fpath hdd t)) [
        | inl l ↦ rw l (ap (λ u. unlink hdd ∷ u) same)
        | inr f ↦ rw f same
      ]

module _ {S : Type 0} (env : Env) (ip : Bytes) (zht : Zht S) (path fpath hdd a : Bytes)
    (marked : Bool) (next : Dirs) where
  -- What the handler leaves.
  abbrev pub Unlinks : Fs S → Cells → Option (ℤ × Fs S) → Type 0
  Unlinks s xs r =
      (z : Fs S) × (r ≡ some (checked (env.reply z.calls), z))
      × (effects z.calls ≡ gone ip fpath hdd a marked (before env fpath hdd s.calls))
      × IsClock z.heap z.clock (erase fpath xs)
      × Holds zht next z.dht
      × (zht.lookup path z.dht ≡ none)

module _ {S : Type 0} (env : Env) (ssd ip : Bytes) (zht : Zht S)
    (path fpath hdd parent name : Bytes) (addr a : Bytes) (marked : Bool) where
  unlink_copies-gone :
      (w : Fs S)
      → get_hdd_path fpath ≡ some hdd
      → unlink_copies env ssd zht fpath ip (a, marked) w
        ≡ some (
          checked (env.reply (gone ip fpath hdd a marked w.calls)),
          fs w.dht (gone ip fpath hdd a marked w.calls) w.clock w.heap,
        )
  unlink_copies-gone w other = elim (Bool-cases (eqb ip a)) [
    | inl t ↦ rw t refl
    | inr f ↦ elim (Bool-cases marked) [ inl m ↦ rw (f, m, other) refl | inr m ↦ rw (f, m) refl ]
  ]

  -- What the part of the handler on ZHT leaves.
  abbrev pub Unlisted : Dirs → Fs S → Option (ℤ × Fs S) → Type 0
  Unlisted next w r =
      let t = gone ip fpath hdd a marked (getifaddrs ∷ w.calls) in
      (v : S) × (r ≡ some (checked (env.reply t), fs v t w.clock w.heap))
      × Holds zht next v
      × (zht.lookup path v ≡ none)

  module _ (dirs next : Dirs) (ns : List Bytes) (other : get_hdd_path fpath ≡ some hdd)
      (split : split_path path ≡ some (parent, name)) (node : HasAddress env ip)
      (reads : (t : List SysCall) → real_ip (env.newip t) addr ≡ (a, marked))
      (known : dirs parent ≡ some ns) (cuts : delete_name parent name dirs ns ≡ some next)
      (apart : eqb path parent ≡ false) (file : next path ≡ none) (key : eqb path [] ≡ false) where
    unlink_entry-Unlisted :
        (w : Fs S)
        → Holds zht dirs w.dht
        → zht.lookup path w.dht ≡ some addr
        → Unlisted next w (unlink_entry env ssd zht path fpath w)
    unlink_entry-Unlisted w holds stored =
        let (text, names, named) = holds parent ns known in
        let (v, run, left) = delete-Holds zht dirs next w.dht parent name ns holds known cuts in
        let still : zht.lookup path v ≡ some addr =
          delete_elsewhere zht parent path w.dht v named apart name run ∙ stored in
        let v1 = zht.remove path v in
        (
          v1,
          rw
              (
                split,
                run,
                still,
                reads w.calls,
                net_getmyip-calls env (fs v1 w.calls w.clock w.heap) ip node,
                unlink_copies-gone (fs v1 (getifaddrs ∷ w.calls) w.clock w.heap) other,
              )
              refl,
          other_remove-Holds zht next v path left key file,
          zht.lookup-remove path path v key ∙ rw (eqb_refl path) refl,
        )

    unlink_run :
        (s : Fs S) (k : ℕ) (d : Clock) (g : Heap) (used : ℕ) (t : List SysCall)
        → fusion_fullpath ssd path ≡ some fpath
        → zht.lookup path s.dht ≡ some addr
        → rmelem_clock k s.clock fpath s.heap ≡ some (d, g)
        → get_used_ssd env ssd (fs s.dht (looked env fpath hdd s.calls) d g)
          ≡ some (used, fs s.dht t d g)
        → fusion_unlink env ssd zht k path s ≡ unlink_entry env ssd zht path fpath (fs s.dht t d g)
    unfolding fusion_unlink
    unlink_run s k d g used t full stored rem asks =
        elim (Bool-cases (is_on_hdd env fpath hdd s.calls)) [
          | inl l ↦
              rw
                (
                  full,
                  stored,
                  is_symlink_ssd-is_on_hdd env fpath hdd s other,
                  l,
                  other,
                  rem,
                  rw l at asks,
                )
                refl
          | inr l ↦
              rw
                (full, stored, is_symlink_ssd-is_on_hdd env fpath hdd s other, l, rem, rw l at asks)
                refl
        ]

    -- When the queue is valid, with fuel for a search in it, the node has an address, ZHT has
    -- the texts of the directories and an address of the file, with `a` in front of the mark
    -- that may follow, and the lists of names have the file's name in the parent directory,
    -- `fusion_unlink` returns: the file's name and its address leave ZHT, and it leaves the
    -- queue; the file goes from the HDD if a link led there, from node `a` if that is not
    -- this node, and from the SSD here, with the last as the result, and nothing else changes
    -- on the disks. The path is neither empty nor a directory.
    pub fusion_unlink-Unlinks :
        (s : Fs S) (xs : Cells) (k : ℕ)
        → fusion_fullpath ssd path ≡ some fpath
        → Holds zht dirs s.dht
        → zht.lookup path s.dht ≡ some addr
        → IsClock s.heap s.clock xs
        → length xs ≤ k
        → Unlinks env ip zht path fpath hdd a marked next s xs (fusion_unlink env ssd zht k path s)
    fusion_unlink-Unlinks s xs k full holds stored i enough =
        let (g, d, rem, left) = rmelem_clock-IsClock s.heap s.clock xs k fpath i enough in
        let (used, t, asks, same) =
          get_used_ssd-Asked env ssd (fs s.dht (looked env fpath hdd s.calls) d g) in
        let w = fs s.dht t d g in
        let (v, run, holds1, cleared) = unlink_entry-Unlisted w holds stored in
        (
          fs v (gone ip fpath hdd a marked (getifaddrs ∷ t)) d g,
          unlink_run s k d g used t full stored rem asks ∙ run,
          effects-gone ip fpath hdd a marked t
              ∙ ap (gone ip fpath hdd a marked) (same ∙ looked-before env fpath hdd s.calls),
          left,
          holds1,
          cleared,
        )
