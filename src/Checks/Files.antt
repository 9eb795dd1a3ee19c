-- ===== src/Checks/Files.antt =====
-- Examples of the handlers that open, create and release files, and of getattr.
use fusionfs_cache.Cache.Chosen.{Each-count}
use fusionfs_cache.Cache.Clock.{clock}
use fusionfs_cache.Cache.Heap.{null}
use fusionfs_cache.Checks.Directories.{map_zht, root, started, root_only, started-Holds}
use fusionfs_cache.Checks.Handlers.{
  ssd, ip, path_a, ssd_a, hdd_a, name_c, path_c, ssd_c, hdd_c, host, host-HasAddress, a-hdd, c-hdd,
  a-full, c-full, at_first, nodes, two_files, two_files-IsClock, two_files-CanMove, process,
}
use fusionfs_cache.Fusion.Directory.History.{update}
use fusionfs_cache.Fusion.Disk.Links.{is_on_hdd}
use fusionfs_cache.Fusion.Files.{fusion_open, fusion_create, fusion_release, fusion_getattr}
use fusionfs_cache.Fusion.Files.Creating.{Creates, AreFiles, fusion_create-Creates}
use fusionfs_cache.Fusion.Files.Fetching.{attributes, looked, fetched, fusion_getattr-fetched}
use fusionfs_cache.Fusion.Files.Opening.{IsReady, OpensHere, OpensMoved, fusion_open-request}
use fusionfs_cache.Fusion.Files.Releasing.{
  closing, node_of, wrote, TakesOver, DropsCopy, fusion_release_lem,
}
use fusionfs_cache.Fusion.Mount.{mount}
use fusionfs_cache.Fusion.Mount.Starting.{Starts, mount-Starts}
use fusionfs_cache.Fusion.Os.{fs}
use fusionfs_cache.Fusion.Paths.{real_ip, before_slash, split_path}
use fusionfs_cache.Prelude.{
  ℕ, pos, ◌≡◌, refl, ◌⊎◌, Bool, true, false, if◌then◌else◌, Option, none, some, Bytes, eqb, [], ◌∷◌,
  arith,
}

c-IsReady :
    (link : Bool) (flags : ℕ)
    → IsReady (host link 900000 flags) ip 4 48 ssd_c at_first nodes two_files
c-IsReady link flags = record {
  queue = two_files-IsClock;
  node = host-HasAddress link 900000 flags;
  fuel = omega arith;
  not_null = refl;
  unused = refl;
  short = omega arith;
}

-- The file is on the HDD, and the SSD is full.
fusion_open-request_example :
    ((is_on_hdd (host true 900000 0) ssd_c hdd_c [] ≡ false)
      × OpensHere
          (host true 900000 0)
          ssd
          ip
          map_zht
          4
          48
          path_c
          ssd_c
          hdd_c
          2
          (process started)
          two_files
          (fusion_open (host true 900000 0) ssd map_zht 4 48 path_c 2 (process started)))
    ⊎ ((is_on_hdd (host true 900000 0) ssd_c hdd_c [] ≡ true)
        × OpensMoved
            (host true 900000 0)
            ssd
            ip
            map_zht
            4
            48
            path_c
            ssd_c
            hdd_c
            2
            (process started)
            two_files
            (fusion_open (host true 900000 0) ssd map_zht 4 48 path_c 2 (process started)))
fusion_open-request_example =
    fusion_open-request (host true 900000 0) ssd ip map_zht 4 48 path_c ssd_c hdd_c 2
      (process started) two_files c-full c-hdd (c-IsReady true 0) two_files-CanMove refl

two_files-AreFiles : AreFiles root_only two_files
unfolding eqb
two_files-AreFiles = Each-count (λ n. root_only n ≡ none) two_files (refl, (refl, tt))

fusion_create-Creates_example :
    Creates map_zht
      (host false 900000 0)
      ssd
      ip
      4
      48
      path_c
      ssd_c
      420
      (process started)
      two_files
      (update root (name_c ∷ []) root_only)
      (fusion_create (host false 900000 0) ssd map_zht 4 48 path_c 420 (process started))
unfolding eqb split_path
fusion_create-Creates_example =
    fusion_create-Creates map_zht (host false 900000 0) ssd ip 4 48 path_c ssd_c 420
      (process started) two_files root_only (update root (name_c ∷ []) root_only) root name_c []
      c-full (c-IsReady false 0) two_files-CanMove started-Holds two_files-AreFiles refl refl refl
      refl refl refl

-- "/a" is at node "2", on its HDD.
abbrev elsewhere : Bytes → Option Bytes
elsewhere j = if eqb j path_a then some (50 ∷ 47 ∷ []) else none

-- It was written here.
fusion_release_lem_example :
    (let env = host false 900000 1 in
      let w = process elsewhere in
      ((eqb ip (node_of env map_zht path_a (pos 3) w).0 ≡ true)
        × (fusion_release env ssd map_zht 4 path_a (pos 3) w
            ≡ some (pos 0, fs w.dht (closing env map_zht path_a (pos 3) w) w.clock w.heap)))
      ⊎ (((eqb ip (node_of env map_zht path_a (pos 3) w).0 ≡ false)
            × (wrote env map_zht path_a (pos 3) w ≡ true)
            × TakesOver env ssd ip map_zht 4 path_a ssd_a hdd_a
                (pos 3)
                w
                two_files
                (fusion_release env ssd map_zht 4 path_a (pos 3) w))
          ⊎ ((eqb ip (node_of env map_zht path_a (pos 3) w).0 ≡ false)
              × (wrote env map_zht path_a (pos 3) w ≡ false)
              × DropsCopy env ssd ip map_zht 4 path_a ssd_a hdd_a
                  (pos 3)
                  w
                  two_files
                  (fusion_release env ssd map_zht 4 path_a (pos 3) w))))
fusion_release_lem_example =
    fusion_release_lem (host false 900000 1) ssd ip map_zht 4 path_a ssd_a hdd_a (pos 3)
      (process elsewhere) two_files a-full a-hdd (host-HasAddress false 900000 1) two_files-IsClock
      (omega arith) two_files-CanMove

fusion_getattr-fetched_example :
    (let env = host false 0 0 in
      let w = process elsewhere in
      let t = fetched env ip path_a ssd_a hdd_a (50 ∷ []) true w in
      fusion_getattr env ssd map_zht path_a w
      ≡ some (attributes env ssd_a hdd_a t, fs elsewhere (looked env ssd_a hdd_a t) at_first nodes))
unfolding eqb real_ip before_slash
fusion_getattr-fetched_example =
    fusion_getattr-fetched (host false 0 0) ssd ip map_zht path_a ssd_a hdd_a (50 ∷ []) true
      (process elsewhere) (50 ∷ 47 ∷ []) a-full a-hdd (host-HasAddress false 0 0) refl refl

-- The root directory of the mount is the directory "" itself.
mount-Starts_example :
    Starts map_zht []
      (λ k. none)
      nodes
      (fs (map_zht.insert root (32 ∷ []) (λ k. none)) [] (clock null null null) nodes)
      ssd_c
unfolding mount
mount-Starts_example =
    mount-Starts map_zht [] (λ k. none) nodes ssd path_c ssd_c
      (fs (map_zht.insert root (32 ∷ []) (λ k. none)) [] (clock null null null) nodes) (λ k. refl)
      refl c-full
