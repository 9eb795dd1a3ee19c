-- ===== src/Fusion/Disk.antt =====
-- The functions of src/util.c on the two disks and on the interfaces of the node.
pub mod Runs
pub mod Full
pub mod Links
use fusionfs_cache.Fusion.Os.{
  SysCall, getifaddrs, ftw, system, access, lstat, mkdir, unlink, symlink, Address, no_address,
  other_family, ipv4, Interface, Env, Act, pure, fault, lift, ◌>>=◌, ◌>>◌, sys, buffer,
}
use fusionfs_cache.Fusion.Paths.{get_hdd_path}
use fusionfs_cache.Prelude.{
  ℕ, ◌+◌, ◌*◌, ◌%◌, ◌^◌, Bool, true, false, not, ◌&&◌, ltb, is_error, if◌then◌else◌, Bytes, eqb,
  List, [], ◌∷◌, ◌++◌,
}

abbrev pub f_ok : ℕ
f_ok = 0

-- "lo", "mv " and " "
abbrev loopback : Bytes
loopback = 108 ∷ 111 ∷ []

abbrev pub mv : Bytes → Bytes → Bytes
mv from to = 109 ∷ 118 ∷ 32 ∷ ((from ++ 32 ∷ []) ++ to)

-- SSD_TOT, 1 << 20
abbrev pub ssd_tot : ℕ
ssd_tot = 1048576

-- An `int` as a bit pattern.
abbrev pub int_mod : ℕ
int_mod = 4294967296

abbrev pub int_max : ℕ
int_max = 2147483647

-- ssd_used > ssd_total * 0.8, where `ssd_used` is an `int`.
abbrev pub over_limit : ℕ → Bool
over_limit used = not (ltb int_max used) && ltb (8 * ssd_tot) (10 * used)

module _ {S : Type 0} (env : Env) where
  -- One round of the loop over the interfaces: `addr` is the caller's buffer.
  abbrev pub take_address : Bytes → Address → Act S Bytes
  take_address addr no_address = fault
  take_address addr other_family = pure addr
  take_address addr (ipv4 t) = pure t

  unfoldable pub last_address : Bytes → List Interface → Act S Bytes
  unfolding eqb
  last_address addr [] = pure addr
  last_address addr (ifa ∷ more) =
      let skip = last_address addr more in
      let next = (do a ← take_address addr ifa.ifa_addr; last_address a more) in
      if eqb loopback ifa.ifa_name then skip else next

  -- The callers' buffers are zeros.
  unfoldable pub net_getmyip : Act S Bytes
  net_getmyip = do r ← sys env getifaddrs; last_address [] r.interfaces

  unfoldable pub copy_dir_ssd : Bytes → ℕ → Act S (Unit {0})
  copy_dir_ssd ssd_fpath mode = do
    hdd_fpath ← lift (get_hdd_path ssd_fpath)
    sys env (mkdir hdd_fpath mode)
    pure tt

  unfoldable pub move_file_ssd : Bytes → Act S (Unit {0})
  move_file_ssd ssd_fpath = do
    hdd_fpath ← lift (get_hdd_path ssd_fpath)
    cmd ← buffer (mv ssd_fpath hdd_fpath)
    sys env (system cmd)
    sys env (symlink hdd_fpath ssd_fpath)
    pure tt

  unfoldable pub move_file_hdd : Bytes → Act S (Unit {0})
  move_file_hdd ssd_fpath = do
    sys env (unlink ssd_fpath)
    hdd_fpath ← lift (get_hdd_path ssd_fpath)
    cmd ← buffer (mv hdd_fpath ssd_fpath)
    sys env (system cmd)
    pure tt

  -- The callback of ftw: the size of a file, added to `ssd_used`. Both are bit patterns of an `int`, whose sum wraps.
  unfoldable pub sum_size_ssd : Bytes → ℕ → Bytes × ℕ → Act S ℕ
  sum_size_ssd ssd used entry = if eqb entry.0 ssd then pure used else do
    sbln ← sys env (lstat entry.0)
    pure ((used + (if sbln.is_link then sbln.st_size else entry.1) % int_mod) % int_mod)

  unfoldable pub sum_sizes : Bytes → ℕ → List (Bytes × ℕ) → Act S ℕ
  sum_sizes ssd used [] = pure used
  sum_sizes ssd used (e ∷ es) = do u ← sum_size_ssd ssd used e; sum_sizes ssd u es

  unfoldable pub get_used_ssd : Bytes → Act S ℕ
  get_used_ssd ssd = do r ← sys env (ftw ssd); sum_sizes ssd 0 r.entries

  unfoldable pub ssd_is_full : Bytes → Act S Bool
  ssd_is_full ssd = do used ← get_used_ssd ssd; pure (over_limit used)

  -- A failed lstat leaves `sb` as the stack had it, and the code goes on.
  unfoldable pub is_symlink_ssd : Bytes → Act S Bool
  is_symlink_ssd fpath_ssd = do
    fpath_hdd ← lift (get_hdd_path fpath_ssd)
    sb ← sys env (lstat fpath_ssd)
    if sb.is_link
        then (do a ← sys env (access fpath_hdd f_ok); pure (not (is_error a.ret)))
        else pure false
