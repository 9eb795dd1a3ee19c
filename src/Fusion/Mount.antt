-- ===== src/Fusion/Mount.antt =====
-- What `main` of src/fusion.c sets up before it calls fuse_main: the path of the SSD, the empty queue, and
-- the root directory in ZHT. `none` is text longer than its buffer.
pub mod Starting
use fusionfs_cache.Cache.Clock.{clock}
use fusionfs_cache.Cache.Heap.{null, Heap}
use fusionfs_cache.Fusion.Directory.{Zht, fits}
use fusionfs_cache.Fusion.Entries.{space, slash}
use fusionfs_cache.Fusion.Os.{Fs, fs}
use fusionfs_cache.Fusion.Paths.{default_ssd}
use fusionfs_cache.Prelude.{if◌then◌else◌, Option, none, some, Bytes, [], ◌++◌}

-- `rootdir` is what realpath gives. The path of the HDD is as long as that of the SSD.
unfoldable pub mount : {S : Type 0} → Zht S → Bytes → S → Heap → Option (Bytes × Fs S)
mount zht rootdir w h =
    if fits (rootdir ++ default_ssd)
    then some (rootdir ++ default_ssd, fs (zht.insert slash space w) [] (clock null null null) h)
    else none
