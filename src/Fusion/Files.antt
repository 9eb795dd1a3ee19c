-- ===== src/Fusion/Files.antt =====
-- The handlers of src/fusion.c that bring a file to this node, open it, and give it back, with MODE_Clock.
-- `k` is the fuel of the loops over the queue, `e` the address of a new node. The node that `fusion_open`
-- and `fusion_create` allocate themselves, and with MODE_Clock never use, is left out but for its name.
pub mod Opening
pub mod Creating
pub mod Releasing
pub mod Fetching
use fusionfs_cache.Cache.Clock.{name_max, insque_clock, rmelem_clock}
use fusionfs_cache.Cache.Heap.{Ptr}
use fusionfs_cache.Fusion.Descriptors.{hdd_attributes, unless_zero}
use fusionfs_cache.Fusion.Directory.{Zht, zht_update, zht_append, text_of}
use fusionfs_cache.Fusion.Disk.{f_ok, net_getmyip, move_file_hdd, ssd_is_full, is_symlink_ssd}
use fusionfs_cache.Fusion.Entries.{slash, true_ip}
use fusionfs_cache.Fusion.Os.{
  SysCall, access, lstat, mkdir, system, creat, open_file, close, unlink, fcntl_getfl, ffs_recvfile,
  ffs_rmfile, Answer, Env, Act, pure, fault, lift, ◌>>=◌, ◌>>◌, sys, buffer, ask, change,
  try_change, on_clock, fusion_error,
}
use fusionfs_cache.Fusion.Paths.{get_hdd_path, fusion_fullpath, split_path}
use fusionfs_cache.Fusion.Room.{make_room}
use fusionfs_cache.Prelude.{
  ℕ, ◌-◌, ◌%◌, ◌==◌, ℤ, pos, negsuc, is_error, is_neg, is_nat, Bool, true, false, not, ◌&&◌, leb,
  if◌then◌else◌, Option, none, some, Bytes, eqb, ◌∷◌, ◌++◌, length,
}

-- "mkdir -p "
abbrev pub mkdir_p : Bytes → Bytes
mkdir_p path = 109 ∷ 107 ∷ 100 ∷ 105 ∷ 114 ∷ 32 ∷ 45 ∷ 112 ∷ 32 ∷ path

-- O_ACCMODE & flags, with -1 for flags that could not be read.
abbrev pub acc_mode : ℤ → ℕ
acc_mode (pos n) = n % 4
acc_mode (negsuc n) = 3 - n % 4

abbrev pub is_written : Answer → Bool
is_written r = not (is_error r.ret) && not (acc_mode r.ret == 0)

-- fd < 0
abbrev pub opened : Answer → ℤ
opened fd = if is_neg fd.ret then fusion_error fd else pos 0

module _ {S : Type 0} (env : Env) (ssd : Bytes) (zht : Zht S) where
  -- A copy of the file, from the SSD or the HDD of its node.
  abbrev pub transfer : Bytes → Bytes × Bool → Act S (Unit {0})
  transfer fpath res = do
    from ← if res.1 then lift (get_hdd_path fpath) else pure fpath
    sys env (ffs_recvfile res.0 from fpath)
    pure tt

  unfoldable pub fetch_file : Bytes → Bytes → Bytes → Bytes × Bool → Act S (Unit {0})
  fetch_file path fpath myaddr res = do
    a ← sys env (access fpath f_ok)
    if not (is_nat a.ret 0)
        then transfer fpath res
        else if not (eqb slash path) && not (eqb res.0 myaddr)
        then transfer fpath res
        else pure tt

  unfoldable pub fetch_directory : Bytes → Bytes → Act S (Unit {0})
  fetch_directory path fpath = do
    stat ← ask (zht.lookup (path ++ slash))
    elim stat [
      | none ↦ pure tt
      | some v ↦ (do
        sys env (mkdir fpath 493)
        cmd ← buffer (mkdir_p fpath)
        sys env (system cmd)
        pure tt)
    ]

  unfoldable pub fusion_getattr : Bytes → Act S ℤ
  fusion_getattr path = do
    fpath ← lift (fusion_fullpath ssd path)
    status ← ask (zht.lookup path)
    res ← true_ip env ssd (text_of status)
    myaddr ← net_getmyip env
    elim status [ none ↦ fetch_directory path fpath | some v ↦ fetch_file path fpath myaddr res ]
    r ← sys env (lstat fpath)
    hdd_attributes env fpath r.is_link (unless_zero r)

  -- The file goes into the queue.
  abbrev pub cached : ℕ → Ptr → Bytes → Act S (Unit {0})
  cached k e fpath =
      if leb name_max (length fpath) then fault else on_clock (λ c. insque_clock k c e fpath)

  -- The loop, and the test that only warns.
  abbrev pub room_with_warning : ℕ → Act S (Unit {0})
  room_with_warning k = do make_room zht env ssd k k; ssd_is_full env ssd; pure tt

  -- What the handler returns, and the descriptor that it keeps in `fi->fh`.
  unfoldable pub fusion_open : ℕ → Ptr → Bytes → ℕ → Act S (ℤ × ℤ)
  fusion_open k e path flags = do
    fpath ← lift (fusion_fullpath ssd path)
    l ← is_symlink_ssd env fpath
    if l then (do room_with_warning k; move_file_hdd env fpath) else pure tt
    fd ← sys env (open_file fpath flags 0)
    cached k e fpath
    pure (opened fd, fd.ret)

  abbrev pub add_entry : Bytes → Act S (Unit {0})
  add_entry path = do
    parts ← lift (split_path path)
    oldval ← ask (zht.lookup parts.0)
    elim oldval [
      | none ↦ pure tt
      | some v ↦ (do
        try_change (zht_append zht parts.0 parts.1)
        addr ← net_getmyip env
        change (zht.insert path addr))
    ]

  unfoldable pub fusion_create : ℕ → Ptr → Bytes → ℕ → Act S (ℤ × ℤ)
  fusion_create k e path mode = do
    fpath ← lift (fusion_fullpath ssd path)
    room_with_warning k
    fd ← sys env (creat fpath mode)
    cached k e fpath
    add_entry path
    pure (opened fd, fd.ret)

  -- A file that has been written lives here from now on.
  abbrev pub take_over : ℕ → Bytes → Bytes → Bytes → Bytes × Bool → Act S (Unit {0})
  take_over k path fpath myip node = do
    change (zht_update zht path myip)
    p ← if node.1 then lift (get_hdd_path fpath) else pure fpath
    sys env (ffs_rmfile node.0 p)
    room_with_warning k

  abbrev pub drop_copy : ℕ → Bytes → Act S (Unit {0})
  drop_copy k fpath = do sys env (unlink fpath); on_clock (λ c. rmelem_clock k c fpath)

  unfoldable pub fusion_release : ℕ → Bytes → ℤ → Act S ℤ
  fusion_release k path fh = do
    fpath ← lift (fusion_fullpath ssd path)
    flags ← sys env (fcntl_getfl fh)
    r ← sys env (close fh)
    myip ← net_getmyip env
    v ← ask (zht.lookup path)
    node ← true_ip env ssd (text_of v)
    if eqb myip node.0
        then pure tt
        else if is_written flags
        then take_over k path fpath myip node
        else drop_copy k fpath
    pure r.ret
