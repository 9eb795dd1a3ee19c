-- ===== src/Fusion/Entries.antt =====
-- The handlers of src/fusion.c that change the entries of directories, with MODE_Clock, over the calls,
-- ZHT and the clock queue. `k` is the fuel of the loops over the queue.
pub mod Making
pub mod Renaming
pub mod Unlinking
pub mod Reading
pub mod Undoing
use fusionfs_cache.Cache.Clock.{name_max, findelem_clock, rmelem_clock, Clock}
use fusionfs_cache.Cache.Heap
use fusionfs_cache.Cache.Heap.{Ptr, null, Cmd, crash, load}
use fusionfs_cache.Fusion.Directory.{Zht, zht_append, zht_delete, text_of, strtok_all}
use fusionfs_cache.Fusion.Disk.{net_getmyip, copy_dir_ssd, get_used_ssd, is_symlink_ssd}
use fusionfs_cache.Fusion.Os.{
  SysCall, system, mkdir, rmdir, unlink, rename, symlink, filler, ffs_rmfile, Env, Fs, fs, Act,
  pure, lift, ◌>>=◌, ◌>>◌, sys, buffer, ask, change, try_change, on_clock, checked,
}
use fusionfs_cache.Fusion.Paths.{get_hdd_path, fusion_fullpath, real_ip, split_path}
use fusionfs_cache.Prelude.{
  ℕ, suc, ◌==◌, ℤ, pos, negsuc, Bool, true, false, is_nat, leb, if◌then◌else◌, Option, none, some,
  Bytes, eqb, List, [], ◌∷◌, ◌++◌, length,
}

-- " ", "/", "*", "rm -r "
abbrev pub space : Bytes
space = 32 ∷ []

abbrev pub slash : Bytes
slash = 47 ∷ []

abbrev pub star : Bytes
star = 42 ∷ []

abbrev pub rm_r : Bytes → Bytes
rm_r path = 114 ∷ 109 ∷ 32 ∷ 45 ∷ 114 ∷ 32 ∷ path

-- -ENOMEM
abbrev pub no_memory : ℤ
no_memory = negsuc 11

-- Does the name end in a slash?
abbrev pub is_dir_name : Bytes → Bool
is_dir_name [] = false
is_dir_name (c ∷ []) = c == 47
is_dir_name (c ∷ d ∷ s) = is_dir_name (d ∷ s)

-- strcpy into the name of a node.
unfoldable pub set_fname : Ptr → Bytes → Cmd (Unit {0})
unfolding load Heap.write
set_fname p name h =
    if leb name_max (length name)
    then none
    else Heap.continue
        (λ n g.
          some (tt, Heap.write g p (some (record n { file = record n.file { fname = name } }))))
        (load p h)

unfoldable pub rename_elem : ℕ → Bytes → Bytes → Clock → Cmd Clock
rename_elem k fpath fnewpath c =
    Heap.◌>>=◌ (findelem_clock k c fpath) λ p. Heap.◌>>=◌ (set_fname p fnewpath) λ _. Heap.pure c

module _ {S : Type 0} (env : Env) (ssd : Bytes) where
  -- `real_ip` on a value of ZHT.
  abbrev pub true_ip : Bytes → Act S (Bytes × Bool)
  true_ip ip s = some (real_ip (env.newip s.calls) ip, s)

  -- With MODE_Clock no file is in the LFU queue that `print_debug` prints.
  abbrev pub print_debug : Act S (Unit {0})
  print_debug = do get_used_ssd env ssd; pure tt

  unfoldable pub fusion_rename : ℕ → Bytes → Bytes → Act S ℤ
  unfolding rename_elem
  fusion_rename k path newpath = do
    fpath ← lift (fusion_fullpath ssd path)
    fnewpath ← lift (fusion_fullpath ssd newpath)
    l ← is_symlink_ssd env fpath
    if l
        then (do
          fpath_hdd ← lift (get_hdd_path fpath)
          fnewpath_hdd ← lift (get_hdd_path fnewpath)
          sys env (rename fpath_hdd fnewpath_hdd)
          sys env (unlink fnewpath)
          sys env (symlink fnewpath_hdd fnewpath)
          pure tt)
        else on_clock (rename_elem k fpath fnewpath)
    r ← sys env (rename fpath fnewpath)
    pure (checked r)

  module _ (zht : Zht S) where
    unfoldable pub fusion_mkdir : Bytes → ℕ → Act S ℤ
    fusion_mkdir path mode = do
      fpath ← lift (fusion_fullpath ssd path)
      r ← sys env (mkdir fpath mode)
      copy_dir_ssd env fpath mode
      parts ← lift (split_path path)
      change (zht.insert (path ++ slash) space)
      try_change (zht_append zht parts.0 (parts.1 ++ slash))
      pure (checked r)

    -- `val` is the text behind `real_ip`, empty for a missing key.
    unfoldable pub fusion_rmdir : Bytes → Act S ℤ
    fusion_rmdir path = do
      fpath ← lift (fusion_fullpath ssd path)
      v ← ask (zht.lookup (path ++ slash))
      val ← true_ip (text_of v)
      if eqb space val.0
          then (do
            rmcmd ← buffer (rm_r fpath)
            sys env (system rmcmd)
            hdd_fpath ← lift (get_hdd_path fpath)
            r ← sys env (rmdir hdd_fpath)
            parts ← lift (split_path path)
            try_change (zht_delete zht parts.0 (parts.1 ++ slash))
            change (zht.remove (path ++ slash))
            pure (checked r))
          else pure (negsuc 0)

    -- The file itself: here, or here and at its node.
    abbrev pub unlink_copies : Bytes → Bytes → Bytes × Bool → Act S ℤ
    unlink_copies fpath myip old =
        if eqb myip old.0 then (do r ← sys env (unlink fpath); pure (checked r)) else do
          p ← if old.1 then lift (get_hdd_path fpath) else pure fpath
          sys env (ffs_rmfile old.0 p)
          r ← sys env (unlink fpath)
          pure (checked r)

    abbrev pub unlink_entry : Bytes → Bytes → Act S ℤ
    unlink_entry path fpath = do
      parts ← lift (split_path path)
      try_change (zht_delete zht parts.0 parts.1)
      addr ← ask (zht.lookup path)
      old ← true_ip (text_of addr)
      change (zht.remove path)
      myip ← net_getmyip env
      unlink_copies fpath myip old

    unfoldable pub fusion_unlink : ℕ → Bytes → Act S ℤ
    fusion_unlink k path = do
      fpath ← lift (fusion_fullpath ssd path)
      val ← ask (zht.lookup path)
      elim val [
        | none ↦ pure (negsuc 0)
        | some v ↦ (do
          l ← is_symlink_ssd env fpath
          if l then (do hdd ← lift (get_hdd_path fpath); sys env (unlink hdd); pure tt) else pure tt
          on_clock (λ c. rmelem_clock k c fpath)
          print_debug
          unlink_entry path fpath)
      ]

    -- The loop over the names: what `filler` says, and the dummy directories.
    unfoldable pub fill : Bytes → List Bytes → Act S ℤ
    fill fpath [] = pure (pos 0)
    fill fpath (pch ∷ more) =
        let rest = fill fpath more in
        let dummy = (do
          newdir ← buffer ((fpath ++ slash) ++ pch)
          sys env (mkdir newdir 509)
          pure tt) in
        do
          r ← sys env (filler pch)
          if is_nat r.ret 0
              then (do if is_dir_name pch then dummy else pure tt; rest)
              else pure no_memory

    unfoldable pub fusion_readdir : Bytes → Act S ℤ
    unfolding strtok_all
    fusion_readdir path = do
      fpath ← lift (fusion_fullpath ssd path)
      v ← ask (zht.lookup (if eqb slash path then path else path ++ slash))
      if eqb space (text_of v)
          then (do rmallcmd ← buffer (rm_r fpath ++ star); sys env (system rmallcmd); pure tt)
          else pure tt
      fill fpath (strtok_all [] (text_of v))
