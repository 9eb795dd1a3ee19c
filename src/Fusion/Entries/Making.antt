-- ===== src/Fusion/Entries/Making.antt =====
-- On `fusion_mkdir` and `fusion_rmdir` (src/fusion.c).
use fusionfs_cache.Fusion.Directory.{Zht, fits}
use fusionfs_cache.Fusion.Directory.History.{
  Dirs, update, Holds, add_name, add-Holds, delete_name, delete-Holds,
}
use fusionfs_cache.Fusion.Directory.Keys.{forget, insert-Holds, remove-Holds}
use fusionfs_cache.Fusion.Directory.Listing.{listing}
use fusionfs_cache.Fusion.Disk.{copy_dir_ssd}
use fusionfs_cache.Fusion.Entries.{space, slash, rm_r, fusion_mkdir, fusion_rmdir}
use fusionfs_cache.Fusion.Os.{SysCall, mkdir, rmdir, system, Env, Fs, fs, checked}
use fusionfs_cache.Fusion.Paths.{before_slash, real_ip, get_hdd_path, fusion_fullpath, split_path}
use fusionfs_cache.Prelude.{
  ℕ, ℤ, negsuc, ◌≡◌, refl, Bool, true, false, not, ◌==◌, Option, none, some, Bytes, eqb, eqb_refl,
  List, [], ◌∷◌, ◌++◌, arith, Option-cases, inl, inr, ◌⊎◌,
}

key_nonempty : (p : Bytes) → eqb (p ++ slash) [] ≡ false
unfolding eqb
key_nonempty [] = refl
key_nonempty (c ∷ p) = refl

module _ {S : Type 0} (env : Env) (ssd : Bytes) (zht : Zht S) (path fpath hdd parent name : Bytes)
    (s : Fs S) where
  -- The calls of a new directory.
  abbrev pub making : ℕ → List SysCall
  making mode = mkdir hdd mode ∷ mkdir fpath mode ∷ s.calls

  abbrev pub MakesDirectory : ℕ → Dirs → Option (ℤ × Fs S) → Type 0
  MakesDirectory mode next r =
      (v : S) × (r
        ≡ some
            (checked (env.reply (mkdir fpath mode ∷ s.calls)), fs v (making mode) s.clock s.heap))
      × Holds zht next v

  -- When ZHT has the texts of the directories, and the lists of names, with the path and a
  -- slash as an empty directory, take the name with a slash into the parent, `fusion_mkdir`
  -- makes the directory on both disks, and returns what became of the SSD's. Also when this
  -- failed, ZHT then has these lists: the path as an empty directory, and its name in the
  -- parent.
  pub fusion_mkdir-MakesDirectory :
      (mode : ℕ) (dirs next : Dirs) (ns : List Bytes)
      → fusion_fullpath ssd path ≡ some fpath
      → get_hdd_path fpath ≡ some hdd
      → split_path path ≡ some (parent, name)
      → Holds zht dirs s.dht
      → update (path ++ slash) [] dirs parent ≡ some ns
      → add_name parent (name ++ slash) (update (path ++ slash) [] dirs) ns ≡ some next
      → MakesDirectory mode next (fusion_mkdir env ssd zht path mode s)
  unfolding fusion_mkdir copy_dir_ssd
  fusion_mkdir-MakesDirectory mode dirs next ns full other split holds known added =
      let key = path ++ slash in
      let made = insert-Holds zht dirs s.dht key holds (key_nonempty path) in
      let (v, run, left) =
        add-Holds zht (update key [] dirs) next (zht.insert key space s.dht) parent (name ++ slash)
          ns made known added in
      (v, rw (full, other, split, run) refl, left)

-- A name that does not start with a slash.
abbrev pub no_slash_first : Bytes → Bool
no_slash_first [] = false
no_slash_first (c ∷ n) = not (c == 47)

-- What `before_slash` leaves of a text with such a start behind a space.
abbrev LongFront : ℕ → Option Bytes → Type 0
LongFront c r = (r ≡ none) ⊎ ((f : Bytes) × (r ≡ some (32 ∷ c ∷ f)))

before_slash-LongFront :
    (c : ℕ) (t : Bytes) → (c == 47) ≡ false → LongFront c (before_slash (32 ∷ c ∷ t))
unfolding before_slash
before_slash-LongFront c t plain = elim (Option-cases (before_slash t)) [
  | inl z ↦ inl (rw (plain, z) refl)
  | inr (r, z) ↦ inr (r, rw (plain, z) refl)
]

-- The text of a directory with such a name is not " ", also behind `real_ip`.
listing_not_space :
    (junk : Bytes) (n : Bytes) (ns : List Bytes)
    → no_slash_first n ≡ true
    → eqb space (real_ip junk (listing (n ∷ ns))).0 ≡ false
unfolding real_ip eqb
listing_not_space junk [] ns f = cc
listing_not_space junk (c ∷ n) ns f =
    elim (before_slash-LongFront c (n ++ listing ns) (ground (arith, f))) [
      | inl z ↦ rw (z, real_ip) refl
      | inr (r, z) ↦ rw (z, real_ip) refl
    ]

module _ {S : Type 0} (env : Env) (ssd : Bytes) (zht : Zht S) (path fpath hdd parent name : Bytes)
    (s : Fs S) where
  -- When ZHT has the texts of the directories, a directory whose list of names is not empty,
  -- with a first name that does not start with a slash, is not removed: `fusion_rmdir` returns
  -- -1 and calls nothing.
  pub fusion_rmdir-refuses :
      (dirs : Dirs) (n : Bytes) (ns : List Bytes)
      → fusion_fullpath ssd path ≡ some fpath
      → Holds zht dirs s.dht
      → dirs (path ++ slash) ≡ some (n ∷ ns)
      → no_slash_first n ≡ true
      → fusion_rmdir env ssd zht path s ≡ some (negsuc 0, s)
  unfolding fusion_rmdir
  fusion_rmdir-refuses dirs n ns full holds known plain =
      let (text, names, key) = holds (path ++ slash) (n ∷ ns) known in
      rw (full, text, listing_not_space (env.newip s.calls) n ns plain) refl

  -- The calls of a removal.
  abbrev pub removing : List SysCall
  removing = rmdir hdd ∷ system (rm_r fpath) ∷ s.calls

  abbrev pub RemovesDirectory : Dirs → Option (ℤ × Fs S) → Type 0
  RemovesDirectory next r =
      (v : S) × (r ≡ some (checked (env.reply removing), fs v removing s.clock s.heap))
      × (zht.lookup (path ++ slash) v ≡ none)
      × Holds zht (forget (path ++ slash) next) v

  -- When ZHT has the texts of the directories, `fusion_rmdir` removes an empty directory from
  -- both disks, with what became of the HDD's as the result. ZHT then has no entry for it, its
  -- name is gone from the parent's text, and the other directories keep their texts, if the lists
  -- of names allow this and the command fits its buffer.
  pub fusion_rmdir-RemovesDirectory :
      (dirs next : Dirs) (ns : List Bytes)
      → fusion_fullpath ssd path ≡ some fpath
      → get_hdd_path fpath ≡ some hdd
      → fits (rm_r fpath) ≡ true
      → split_path path ≡ some (parent, name)
      → Holds zht dirs s.dht
      → dirs (path ++ slash) ≡ some []
      → dirs parent ≡ some ns
      → delete_name parent (name ++ slash) dirs ns ≡ some next
      → RemovesDirectory next (fusion_rmdir env ssd zht path s)
  unfolding fusion_rmdir real_ip before_slash eqb
  fusion_rmdir-RemovesDirectory dirs next ns full other room split holds empty known gone =
      let key = path ++ slash in
      let (text, names, named) = holds key [] empty in
      let (v, run, left) =
        delete-Holds zht dirs next s.dht parent (name ++ slash) ns holds known gone in
      (
        zht.remove key v,
        rw (full, text, room, other, split, run) refl,
        rw (zht.lookup-remove key key v named, eqb_refl key) refl,
        remove-Holds zht next v key left named,
      )
