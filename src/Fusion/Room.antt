-- ===== src/Fusion/Room.antt =====
-- The loop of `fusion_open` that makes room on the SSD (src/fusion.c; `fusion_release` and `fusion_create`
-- have it too): while the SSD is full and the clock queue is not empty, a file goes to the HDD.
pub mod Draining
use fusionfs_cache.Cache.Clock.{remque_clock}
use fusionfs_cache.Cache.Heap.{null}
use fusionfs_cache.Fusion.Directory.{Zht, zht_update}
use fusionfs_cache.Fusion.Disk.{net_getmyip, move_file_ssd, ssd_is_full}
use fusionfs_cache.Fusion.Os.{Env, Fs, Act, pure, fault, ◌>>=◌, ◌>>◌, change, on_queue}
use fusionfs_cache.Prelude.{
  ℕ, zero, suc, Bool, not, ◌&&◌, ◌==◌, if◌then◌else◌, Option, some, Bytes, [], ◌∷◌, ◌++◌,
}

-- The address of a file on the HDD has the mark "/".
abbrev pub marked : Bytes → Bytes
marked ip = ip ++ 47 ∷ []

module _ {S : Type 0} (zht : Zht S) (env : Env) (ssd : Bytes) where
  unfoldable pub swap_out : Bytes → Act S (Unit {0})
  swap_out fname = do
    move_file_ssd env fname
    myip ← net_getmyip env
    change (zht_update zht fname (marked myip))

  -- FUSION_DATA->clock_head != NULL
  abbrev pub has_files : Act S Bool
  has_files s = some (not (s.clock.clock_head == null), s)

  unfoldable pub make_room : ℕ → ℕ → Act S (Unit {0})
  make_room zero k = fault
  make_room (suc j) k =
      let rest = make_room j k in
      let next = (do fname ← on_queue (remque_clock k); swap_out fname; rest) in
      do full ← ssd_is_full env ssd; more ← has_files; if full && more then next else pure tt
