-- ===== src/Checks/Entries.antt =====
-- Examples of the handlers that change directories: the root directory with entries "a" and "c/".
use fusionfs_cache.Checks.Directories.{map_zht, root, name_a, started, root_only, started-Holds}
use fusionfs_cache.Checks.Handlers.{
  ssd, ip, path_a, ssd_a, hdd_a, name_c, path_c, ssd_c, hdd_c, host, host-HasAddress, a-hdd, c-hdd,
  a-full, c-full, at_first, nodes, two_files, two_files-IsClock, process,
}
use fusionfs_cache.Fusion.Directory.{zht_update}
use fusionfs_cache.Fusion.Directory.History.{Dirs, Holds, update, update-Holds}
use fusionfs_cache.Fusion.Directory.Keys.{insert-Holds, other_insert-Holds}
use fusionfs_cache.Fusion.Directory.Listing.{listing}
use fusionfs_cache.Fusion.Entries.{
  slash, fusion_mkdir, fusion_rmdir, fusion_rename, fusion_unlink, fusion_readdir,
}
use fusionfs_cache.Fusion.Entries.Making.{
  MakesDirectory, fusion_mkdir-MakesDirectory, fusion_rmdir-refuses, RemovesDirectory,
  fusion_rmdir-RemovesDirectory,
}
use fusionfs_cache.Fusion.Entries.Reading.{filled, cleaned, fusion_readdir-filled}
use fusionfs_cache.Fusion.Entries.Renaming.{fusion_rename-uncached}
use fusionfs_cache.Fusion.Entries.Undoing.{Undone, fusion_rmdir-fusion_mkdir}
use fusionfs_cache.Fusion.Entries.Unlinking.{Unlinks, fusion_unlink-Unlinks}
use fusionfs_cache.Fusion.Os.{fs}
use fusionfs_cache.Fusion.Paths.{real_ip, before_slash, split_path, fusion_fullpath}
use fusionfs_cache.Prelude.{
  pos, negsuc, ◌≡◌, refl, false, Option, none, some, Bytes, eqb, [], ◌∷◌, ◌++◌, arith,
}

abbrev key_c : Bytes
key_c = path_c ++ slash

abbrev entry_c : Bytes
entry_c = name_c ++ slash

-- "/c/" is there and empty, not yet in its parent; then it is.
abbrev with_key : Dirs
with_key = update key_c [] root_only

abbrev with_c : Dirs
with_c = update root (entry_c ∷ []) with_key

fusion_mkdir-MakesDirectory_example :
    MakesDirectory
      (host false 0 0)
      ssd
      map_zht
      path_c
      ssd_c
      hdd_c
      root
      name_c
      (process started)
      493
      with_c
      (fusion_mkdir (host false 0 0) ssd map_zht path_c 493 (process started))
unfolding eqb split_path
fusion_mkdir-MakesDirectory_example =
    fusion_mkdir-MakesDirectory (host false 0 0) ssd map_zht path_c ssd_c hdd_c root name_c
      (process started) 493 root_only with_c [] c-full c-hdd refl started-Holds refl refl

abbrev values_c : Bytes → Option Bytes
values_c = zht_update map_zht root (listing (entry_c ∷ [])) (map_zht.insert key_c (32 ∷ []) started)

with_c-Holds : Holds map_zht with_c values_c
unfolding eqb
with_c-Holds =
    update-Holds map_zht with_key (map_zht.insert key_c (32 ∷ []) started) root (entry_c ∷ [])
      (insert-Holds map_zht root_only started key_c started-Holds refl) (refl, tt) refl

-- The root directory is not empty.
fusion_rmdir-refuses_example :
    fusion_rmdir (host false 0 0) ssd map_zht [] (process values_c)
    ≡ some (negsuc 0, process values_c)
unfolding eqb fusion_fullpath
fusion_rmdir-refuses_example =
    fusion_rmdir-refuses (host false 0 0) ssd map_zht [] ssd ssd [] [] (process values_c) with_c
      entry_c [] refl with_c-Holds refl refl

fusion_rmdir-RemovesDirectory_example :
    RemovesDirectory
      (host false 0 0)
      ssd
      map_zht
      path_c
      ssd_c
      hdd_c
      root
      name_c
      (process values_c)
      (update root [] with_c)
      (fusion_rmdir (host false 0 0) ssd map_zht path_c (process values_c))
unfolding eqb split_path
fusion_rmdir-RemovesDirectory_example =
    fusion_rmdir-RemovesDirectory (host false 0 0) ssd map_zht path_c ssd_c hdd_c root name_c
      (process values_c) with_c (update root [] with_c) (entry_c ∷ []) c-full c-hdd refl refl
      with_c-Holds refl refl refl

fusion_rmdir-fusion_mkdir_example :
    Undone
      (host false 0 0)
      ssd
      map_zht
      path_c
      ssd_c
      hdd_c
      root
      name_c
      (process started)
      493
      root_only
unfolding eqb split_path
fusion_rmdir-fusion_mkdir_example =
    fusion_rmdir-fusion_mkdir (host false 0 0) ssd map_zht path_c ssd_c hdd_c root name_c
      (process started) 493 root_only [] c-full c-hdd refl refl started-Holds refl refl refl refl
      refl refl

-- "/a" is in its directory, and on the SSD of node "2".
abbrev with_a : Dirs
with_a = update root (name_a ∷ []) root_only

abbrev values_a : Bytes → Option Bytes
values_a = map_zht.insert path_a (50 ∷ []) (zht_update map_zht root (listing (name_a ∷ [])) started)

with_a-Holds : Holds map_zht with_a values_a
unfolding eqb
with_a-Holds =
    other_insert-Holds map_zht with_a (zht_update map_zht root (listing (name_a ∷ [])) started)
      path_a
      (update-Holds map_zht root_only started root (name_a ∷ []) started-Holds (refl, tt) refl) refl
      refl (50 ∷ []) refl

fusion_unlink-Unlinks_example :
    Unlinks
      (host false 0 0)
      ip
      map_zht
      path_a
      ssd_a
      hdd_a
      (50 ∷ [])
      false
      (update root [] with_a)
      (process values_a)
      two_files
      (fusion_unlink (host false 0 0) ssd map_zht 3 path_a (process values_a))
unfolding eqb split_path real_ip before_slash
fusion_unlink-Unlinks_example =
    fusion_unlink-Unlinks (host false 0 0) ssd ip map_zht path_a ssd_a hdd_a root name_a (50 ∷ [])
      (50 ∷ []) false with_a (update root [] with_a) (name_a ∷ []) a-hdd refl
      (host-HasAddress false 0 0) (λ t. refl) refl refl refl refl refl (process values_a) two_files
      3 a-full with_a-Holds refl two_files-IsClock (omega arith)

fusion_rename-uncached_example :
    fusion_rename (host false 0 0) ssd 3 path_c path_a (process started) ≡ none
unfolding eqb
fusion_rename-uncached_example =
    fusion_rename-uncached (host false 0 0) ssd path_c path_a ssd_c ssd_a hdd_c 3 (process started)
      c-full a-full c-hdd two_files two_files-IsClock (omega arith) refl refl

fusion_readdir-filled_example :
    fusion_readdir (host false 0 0) ssd map_zht root (process values_c)
    ≡ some (
      pos 0,
      fs values_c
          (filled (ssd ++ root) (entry_c ∷ []) (cleaned (ssd ++ root) (entry_c ∷ []) []))
          at_first
          nodes,
    )
unfolding eqb fusion_fullpath
fusion_readdir-filled_example =
    fusion_readdir-filled (host false 0 0) ssd map_zht (ssd ++ root) root with_c (entry_c ∷ [])
      (process values_c) refl with_c-Holds refl (λ n t. refl) (refl, tt) refl
