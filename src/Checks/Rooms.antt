-- ===== src/Checks/Rooms.antt =====
-- Examples on the two disks: their paths, the use of the SSD, and the loop that makes room.
use fusionfs_cache.Checks.Directories.{map_zht}
use fusionfs_cache.Checks.Handlers.{
  ssd, ip, ssd_a, hdd_a, host, host-HasAddress, a-hdd, at_first, nodes, two_files,
  two_files-IsClock, two_files-CanMove, process,
}
use fusionfs_cache.Fusion.Directory.{is_prefix, strstr}
use fusionfs_cache.Fusion.Disk.{ssd_tot, int_max, ssd_is_full}
use fusionfs_cache.Fusion.Disk.Full.{ssd_is_full-total}
use fusionfs_cache.Fusion.Os.{SysCall, fs}
use fusionfs_cache.Fusion.Paths.{get_ssd_path}
use fusionfs_cache.Fusion.Paths.Disks.{get_ssd_path-get_hdd_path}
use fusionfs_cache.Fusion.Room.Draining.{Drained, make_room-Drained}
use fusionfs_cache.Prelude.{
  ◌*◌, ◌≡◌, refl, false, ◌&&◌, leb, ltb, Option, none, some, Bytes, eqb, List, arith,
}

abbrev no_values : Bytes → Option Bytes
no_values k = none

get_ssd_path-get_hdd_path_example : get_ssd_path hdd_a ≡ some ssd_a
unfolding strstr is_prefix
get_ssd_path-get_hdd_path_example = get_ssd_path-get_hdd_path ssd_a hdd_a refl a-hdd

-- 900,000 bytes of 1,048,576.
ssd_is_full-total_example :
    (t : List SysCall) × (ssd_is_full (host false 900000 0) ssd (process no_values)
      ≡ some (leb 900000 int_max && ltb (4 * ssd_tot) (5 * 900000), fs no_values t at_first nodes))
unfolding eqb
ssd_is_full-total_example =
    ssd_is_full-total (host false 900000 0) ssd (λ n. false) (λ n. 7) (λ n t. (refl, refl))
      (process no_values) 900000 refl (omega arith)

make_room-Drained_example :
    Drained map_zht (host false 900000 0) ssd ip 3 3 (process no_values) two_files
make_room-Drained_example =
    make_room-Drained map_zht (host false 900000 0) ssd ip 3 3 (process no_values) two_files
      two_files-IsClock (host-HasAddress false 900000 0) two_files-CanMove (omega arith)
      (omega arith)
