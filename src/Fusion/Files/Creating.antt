-- ===== src/Fusion/Files/Creating.antt =====
-- On `fusion_create` (src/fusion.c).
use fusionfs_cache.Cache.Chosen.{chosen_lem}
use fusionfs_cache.Cache.Clock.{Clock}
use fusionfs_cache.Cache.Clock.Invariant.{IsClock}
use fusionfs_cache.Cache.Heap.{Ptr, Heap}
use fusionfs_cache.Cache.Names.{count}
use fusionfs_cache.Cache.Request.{request}
use fusionfs_cache.Cache.Ring.{Cells}
use fusionfs_cache.Fusion.Directory.{Zht, is_prefix, strstr}
use fusionfs_cache.Fusion.Directory.History.{Dirs, Holds, add_name, add-Holds}
use fusionfs_cache.Fusion.Directory.Keys.{other_insert-Holds, other_update-Holds}
use fusionfs_cache.Fusion.Disk.Runs.{HasAddress, net_getmyip-calls}
use fusionfs_cache.Fusion.Files.{add_entry, fusion_create}
use fusionfs_cache.Fusion.Files.Opening.{
  IsReady, answer_of, cached-request, room_with_warning-Emptied,
}
use fusionfs_cache.Fusion.Os.{SysCall, getifaddrs, creat, Env, Fs, fs}
use fusionfs_cache.Fusion.Paths.{get_hdd_path, fusion_fullpath, split_path}
use fusionfs_cache.Fusion.Room.{marked}
use fusionfs_cache.Fusion.Room.Draining.{CanMove, Rounds}
use fusionfs_cache.Prelude.{
  ℕ, ℤ, ◌≤◌, ◌≡◌, refl, sym, ◌∙◌, subst, false, Option, none, some, Bytes, eqb, eqb_refl, List, [],
  ◌∷◌,
}

-- Every name of the queue is no directory.
abbrev pub AreFiles : Dirs → Cells → Type 0
AreFiles dirs xs = (n : Bytes) → 1 ≤ count n xs → dirs n ≡ none

no_path : {q : Bytes} → ◌≡◌ {A = Option Bytes} none (some q) → ⊥
no_path e = cc

path_nonempty : (p q : Bytes) → get_hdd_path p ≡ some q → eqb p [] ≡ false
unfolding get_hdd_path strstr is_prefix eqb
path_nonempty [] q e = elim (no_path e) [ ]
path_nonempty (c ∷ p) q e = refl

marked_nonempty : (ip : Bytes) → eqb (marked ip) [] ≡ false
unfolding eqb
marked_nonempty [] = refl
marked_nonempty (c ∷ ip) = refl

module _ {S : Type 0} (zht : Zht S) (env : Env) (ssd ip : Bytes) (dirs : Dirs) where
  -- The files that go to the HDD leave the directories alone.
  Rounds-Holds :
      {z : Fs S} {ys : Cells} {s : Fs S} {xs : Cells}
      → Rounds zht env ssd ip z ys s xs
      → Holds zht dirs s.dht
      → AreFiles dirs xs
      → Holds zht dirs z.dht
  Rounds-Holds {z} {ys} {s} {xs} (Rounds.done full t says same list last) holds files =
      subst (λ (w : Fs S). Holds zht dirs w.dht) (sym same) holds
  Rounds-Holds {z} {ys} {s} {xs} (Rounds.round t name hdd rest c h says chosen path more) holds
        files =
      let (less, files1, file) = chosen_lem (λ n. dirs n ≡ none) xs name rest chosen files in
      Rounds-Holds more
        (other_update-Holds zht dirs s.dht name (marked ip) holds (path_nonempty name hdd path) file
          (marked_nonempty ip))
        files1

  -- A new entry, and the address of its file.
  module _ (path parent name : Bytes) (ns : List Bytes) (next : Dirs) (w : Fs S) where
    abbrev pub Entered : Option (Unit {0} × Fs S) → Type 0
    Entered r =
        (v : S) × (r ≡ some (tt, fs v (getifaddrs ∷ w.calls) w.clock w.heap))
        × Holds zht next v
        × (zht.lookup path v ≡ some ip)

    add_entry-Entered :
        split_path path ≡ some (parent, name)
        → HasAddress env ip
        → Holds zht dirs w.dht
        → dirs parent ≡ some ns
        → add_name parent name dirs ns ≡ some next
        → next path ≡ none
        → eqb path [] ≡ false
        → eqb ip [] ≡ false
        → Entered (add_entry env ssd zht path w)
    add_entry-Entered split node holds known added file key text =
        let (u, run, holds1) = add-Holds zht dirs next w.dht parent name ns holds known added in
        let w1 = fs u w.calls w.clock w.heap in
        let found = (holds parent ns known).0 in
        (
          zht.insert path ip u,
          rw (split, found, run, net_getmyip-calls env w1 ip node) refl,
          other_insert-Holds zht next u path holds1 key file ip text,
          zht.lookup-insert path path ip u key text ∙ rw (eqb_refl path) refl,
        )

module _ {S : Type 0} (zht : Zht S) (env : Env) (ssd ip : Bytes) (k : ℕ) (e : Ptr)
    (path fpath : Bytes) (mode : ℕ) (s : Fs S) (xs : Cells) where
  -- What a creation leaves: the calls end with creat and a question for the address.
  abbrev pub Creates : Dirs → Option ((ℤ × ℤ) × Fs S) → Type 0
  Creates next r =
      (z : Fs S) × (ys : Cells) × (t : List SysCall) × (v : S) × (d : Clock) × (g : Heap) × Rounds
        zht env ssd ip z ys s xs
      × (r
          ≡ some
              (answer_of env (creat fpath mode ∷ t), fs v (getifaddrs ∷ creat fpath mode ∷ t) d g))
      × IsClock g d (request e fpath ys)
      × Holds zht next v
      × (zht.lookup path v ≡ some ip)

  -- When the queue is valid and has less files than the fuel, the node has an address, the new
  -- node is unused, and the path fits its name, the files of the queue can be moved and are no
  -- directories, ZHT has the texts of the directories, and the lists of names take the new
  -- entry into the parent directory, `fusion_create` returns: it makes room by the
  -- second-chance rule, creates the file on the SSD, requests it in the queue that is left,
  -- enters the name into the directory, and ZHT has the address of this node under the path.
  -- The path is no directory, and neither it nor the address is empty.
  pub fusion_create-Creates :
      (dirs next : Dirs) (parent name : Bytes) (ns : List Bytes)
      → fusion_fullpath ssd path ≡ some fpath
      → IsReady env ip k e fpath s.clock s.heap xs
      → CanMove xs
      → Holds zht dirs s.dht
      → AreFiles dirs xs
      → split_path path ≡ some (parent, name)
      → dirs parent ≡ some ns
      → add_name parent name dirs ns ≡ some next
      → next path ≡ none
      → eqb path [] ≡ false
      → eqb ip [] ≡ false
      → Creates next (fusion_create env ssd zht k e path mode s)
  unfolding fusion_create
  fusion_create-Creates dirs next parent name ns full r can holds files split known added file key
        text =
      let (z, ys, t, run, rounds, r1) =
        room_with_warning-Emptied env ssd ip zht k e fpath s xs r can in
      let holds1 = Rounds-Holds zht env ssd ip dirs rounds holds files in
      let w = fs z.dht (creat fpath mode ∷ t) z.clock z.heap in
      let (d, g, run2, i) = cached-request env ssd ip zht k e fpath w ys r1 in
      let w2 = fs z.dht (creat fpath mode ∷ t) d g in
      let (v, run3, holds2, found) =
        add_entry-Entered zht env ssd ip dirs path parent name ns next w2 split r.node holds1 known
          added file key text in
      (z, ys, t, v, d, g, rounds, rw (full, run, run2, run3) refl, i, holds2, found)
