-- ===== src/Fusion/Files/Fetching.antt =====
-- On `fusion_getattr` (src/fusion.c).
use fusionfs_cache.Fusion.Descriptors.{unless_zero, hdd_attributes}
use fusionfs_cache.Fusion.Directory.{Zht, fits, text_of}
use fusionfs_cache.Fusion.Disk.{f_ok}
use fusionfs_cache.Fusion.Disk.Links.{is_on_hdd, asked}
use fusionfs_cache.Fusion.Disk.Runs.{HasAddress, net_getmyip-calls}
use fusionfs_cache.Fusion.Entries.{slash}
use fusionfs_cache.Fusion.Files.{mkdir_p, transfer, fetch_file, fetch_directory, fusion_getattr}
use fusionfs_cache.Fusion.Os.{
  SysCall, getifaddrs, access, lstat, mkdir, system, ffs_recvfile, Env, Fs, fs,
}
use fusionfs_cache.Fusion.Paths.{get_hdd_path, fusion_fullpath, real_ip}
use fusionfs_cache.Prelude.{
  ℤ, ◌≡◌, refl, Bool, true, not, ◌&&◌, ◌||◌, is_nat, is_error, if◌then◌else◌, Option, none, some,
  Bytes, eqb, List, ◌∷◌, ◌++◌, Bool-cases, Option-cases, inl, inr,
}

module _ (env : Env) (fpath hdd : Bytes) where
  -- The attributes behind the calls `t`: those of the file on the HDD, if a link leads there.
  abbrev pub attributes : List SysCall → ℤ
  attributes t =
      if is_on_hdd env fpath hdd t
      then unless_zero (env.reply (lstat hdd ∷ asked env fpath hdd t))
      else unless_zero (env.reply (lstat fpath ∷ t))

  abbrev pub looked : List SysCall → List SysCall
  looked t =
      if is_on_hdd env fpath hdd t then lstat hdd ∷ asked env fpath hdd t else asked env fpath hdd t

module _ {S : Type 0} (env : Env) (ip path fpath hdd a : Bytes) (marked : Bool) (s : Fs S) where
  -- Has the file to be fetched? It is not here, or another node has it.
  abbrev pub probing : List SysCall
  probing = access fpath f_ok ∷ getifaddrs ∷ s.calls

  abbrev pub is_needed : Bool
  is_needed = not (is_nat (env.reply probing).ret 0) || (not (eqb slash path) && not (eqb a ip))

  abbrev pub fetched : List SysCall
  fetched =
      if is_needed then ffs_recvfile a (if marked then hdd else fpath) fpath ∷ probing else probing

module _ {S : Type 0} (env : Env) (ssd ip : Bytes) (zht : Zht S) (path fpath hdd : Bytes) where
  hdd_attributes-attributes :
      (s : Fs S) (t : List SysCall)
      → get_hdd_path fpath ≡ some hdd
      → hdd_attributes env fpath
          (env.reply (lstat fpath ∷ t)).is_link
          (unless_zero (env.reply (lstat fpath ∷ t)))
          (fs s.dht (lstat fpath ∷ t) s.clock s.heap)
        ≡ some (attributes env fpath hdd t, fs s.dht (looked env fpath hdd t) s.clock s.heap)
  unfolding hdd_attributes
  hdd_attributes-attributes s t other = elim (Bool-cases (env.reply (lstat fpath ∷ t)).is_link) [
    | inr f ↦ rw (other, f) refl
    | inl l ↦ elim (Bool-cases (is_error (env.reply (access hdd f_ok ∷ lstat fpath ∷ t)).ret)) [
      | inl e ↦ rw (other, l, e) refl
      | inr e ↦ rw (other, l, e) refl
    ]
  ]

  module _ (a : Bytes) (marked : Bool) (s : Fs S) where
    transfer_run :
        (w : Fs S)
        → get_hdd_path fpath ≡ some hdd
        → transfer env ssd zht fpath (a, marked) w
          ≡ some (
            tt,
            fs w.dht
                (ffs_recvfile a (if marked then hdd else fpath) fpath ∷ w.calls)
                w.clock
                w.heap,
          )
    transfer_run w other = elim (Bool-cases marked) [
      | inl m ↦ rw (m, other) refl
      | inr m ↦ rw m refl
    ]

    fetch_file-fetched :
        get_hdd_path fpath ≡ some hdd
        → fetch_file env ssd zht path fpath ip
            (a, marked)
            (fs s.dht (getifaddrs ∷ s.calls) s.clock s.heap)
          ≡ some (tt, fs s.dht (fetched env ip path fpath hdd a marked s) s.clock s.heap)
    unfolding fetch_file
    fetch_file-fetched other =
        let w = fs s.dht (probing env ip path fpath hdd a marked s) s.clock s.heap in
        elim (Bool-cases (is_nat (env.reply (probing env ip path fpath hdd a marked s)).ret 0)) [
          | inr f ↦ rw (f, transfer_run w other) refl
          | inl t ↦ elim (Bool-cases (not (eqb slash path) && not (eqb a ip))) [
            | inl m ↦ rw (t, m, transfer_run w other) refl
            | inr m ↦ rw (t, m) refl
          ]
        ]

    -- At a node with an address, and for a file that ZHT has, at a node `a` in front of the
    -- mark that may follow, `fusion_getattr` fetches the file when access fails here, or when
    -- the path is not "/" and `a` is another node: from the HDD there if the address has the
    -- mark, else from the SSD. It then returns the attributes, of the file on the HDD if a
    -- link leads there, and leaves ZHT and the queue.
    pub fusion_getattr-fetched :
        (addr : Bytes)
        → fusion_fullpath ssd path ≡ some fpath
        → get_hdd_path fpath ≡ some hdd
        → HasAddress env ip
        → zht.lookup path s.dht ≡ some addr
        → real_ip (env.newip s.calls) addr ≡ (a, marked)
        → fusion_getattr env ssd zht path s
          ≡ some (
            attributes env fpath hdd (fetched env ip path fpath hdd a marked s),
            fs s.dht
                (looked env fpath hdd (fetched env ip path fpath hdd a marked s))
                s.clock
                s.heap,
          )
    unfolding fusion_getattr
    fusion_getattr-fetched addr full other node stored reads =
        let there : real_ip (env.newip s.calls) (text_of (zht.lookup path s.dht)) ≡ (a, marked) =
          rw stored reads in
        rw
          (
            full,
            stored,
            there,
            net_getmyip-calls env s ip node,
            fetch_file-fetched other,
            hdd_attributes-attributes s (fetched env ip path fpath hdd a marked s) other,
          )
          refl

  -- For a path that ZHT has no file under, the directory that it may have there is made here, if the
  -- command fits its buffer, and the attributes follow.
  abbrev pub made : Option Bytes → List SysCall → List SysCall
  made none t = t
  made (some v) t = system (mkdir_p fpath) ∷ mkdir fpath 493 ∷ t

  fetch_directory-made :
      (w : Fs S)
      → fits (mkdir_p fpath) ≡ true
      → fetch_directory env ssd zht path fpath w
        ≡ some (tt, fs w.dht (made (zht.lookup (path ++ slash) w.dht) w.calls) w.clock w.heap)
  unfolding fetch_directory
  fetch_directory-made w room = elim (Option-cases (zht.lookup (path ++ slash) w.dht)) [
    | inl z ↦ rw z refl
    | inr (v, z) ↦ rw (z, room) refl
  ]

  pub fusion_getattr-made :
      (s : Fs S)
      → fusion_fullpath ssd path ≡ some fpath
      → get_hdd_path fpath ≡ some hdd
      → HasAddress env ip
      → fits (mkdir_p fpath) ≡ true
      → zht.lookup path s.dht ≡ none
      → (let t = made (zht.lookup (path ++ slash) s.dht) (getifaddrs ∷ s.calls) in
          fusion_getattr env ssd zht path s
          ≡ some (attributes env fpath hdd t, fs s.dht (looked env fpath hdd t) s.clock s.heap))
  unfolding fusion_getattr
  fusion_getattr-made s full other node room missing =
      let w = fs s.dht (getifaddrs ∷ s.calls) s.clock s.heap in
      let t = made (zht.lookup (path ++ slash) s.dht) (getifaddrs ∷ s.calls) in
      rw
        (
          full,
          missing,
          net_getmyip-calls env s ip node,
          fetch_directory-made w room,
          hdd_attributes-attributes s t other,
        )
        refl
