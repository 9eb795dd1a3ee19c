-- ===== src/Fusion/Mount/Starting.antt =====
-- On the state that `main` sets up (src/fusion.c).
use fusionfs_cache.Cache.Clock.{clock}
use fusionfs_cache.Cache.Clock.Invariant.{IsClock}
use fusionfs_cache.Cache.Heap.{null, Heap}
use fusionfs_cache.Cache.Names.{distinct_names-Unique}
use fusionfs_cache.Fusion.Directory.{Zht, fits, is_prefix, strstr}
use fusionfs_cache.Fusion.Directory.History.{Dirs, Holds, update}
use fusionfs_cache.Fusion.Directory.Keys.{insert-Holds}
use fusionfs_cache.Fusion.Entries.{space, slash}
use fusionfs_cache.Fusion.Mount.{mount}
use fusionfs_cache.Fusion.Os.{Fs, fs}
use fusionfs_cache.Fusion.Paths.{
  default_ssd, default_hdd, replace_match, get_hdd_path, fusion_fullpath,
}
use fusionfs_cache.Prelude.{
  ◌≡◌, refl, sym, ap, true, Option, none, some, Bytes, eqb, [], ◌∷◌, ◌++◌, append_assoc, arith,
  drop, length, Bool-cases, inl, inr, if◌then◌else◌,
}

-- A text that has a name in it is found there, or earlier.
abbrev Finds : Bytes → Bytes → Type 0
Finds s n = (r : Bytes × Bytes) × (strstr s n ≡ some r)

is_prefix-append : (n t : Bytes) → is_prefix n (n ++ t) ≡ true
unfolding is_prefix
is_prefix-append [] t = refl
is_prefix-append (c ∷ n) t = ground (arith, is_prefix-append n t)

strstr-prefix : (n s : Bytes) → is_prefix n s ≡ true → strstr s n ≡ some ([], s)
unfolding strstr
strstr-prefix n [] p = rw p refl
strstr-prefix n (c ∷ s) p = rw p refl

strstr-Finds : (b n t : Bytes) → Finds (b ++ (n ++ t)) n
unfolding strstr
strstr-Finds [] n t = (([], n ++ t), strstr-prefix n (n ++ t) (is_prefix-append n t))
strstr-Finds (c ∷ b) n t =
    let s = b ++ (n ++ t) in
    elim (Bool-cases (is_prefix n (c ∷ s))) [
      | inl p ↦ (([], c ∷ s), rw p refl)
      | inr f ↦ let (r, found) = strstr-Finds b n t in ((c ∷ r.0, r.1), rw (f, found) refl)
    ]

empty-IsClock : (h : Heap) → IsClock h (clock null null null) []
empty-IsClock h = record {
  queue = record {
    behind = [];
    ahead = [];
    order = refl;
    turned = record {
      ring = record { links = tt; apart = tt };
      ends = (refl, refl);
      hand = (refl, refl);
    };
  };
  unique = distinct_names-Unique [] refl;
}

abbrev pub no_dirs : Dirs
no_dirs k = none

no_path : {r : Bytes} → ◌≡◌ {A = Option Bytes} none (some r) → ⊥
no_path e = cc

same_path : {p q : Bytes} → ◌≡◌ {A = Option Bytes} (some p) (some q) → p ≡ q
same_path e = cc

fusion_fullpath-append :
    (ssd path fpath : Bytes) → fusion_fullpath ssd path ≡ some fpath → ssd ++ path ≡ fpath
unfolding fusion_fullpath
fusion_fullpath-append ssd path fpath e = elim (Bool-cases (fits (ssd ++ path))) [
  | inl t ↦ same_path (rw t at e)
  | inr f ↦ elim (no_path (rw f at e)) [ ]
]

replace_match-some :
    (n : Bytes) (r : Bytes × Bytes) → (q : Bytes) × (replace_match n (some r) ≡ some q)
replace_match-some n (b, f) = ((b ++ n) ++ drop (length n) f, refl)

-- A path below the SSD has a counterpart.
hdd_exists :
    (rootdir path : Bytes)
    → (hdd : Bytes) × (get_hdd_path ((rootdir ++ default_ssd) ++ path) ≡ some hdd)
unfolding get_hdd_path
hdd_exists rootdir path =
    let (r, found) = strstr-Finds rootdir default_ssd path in
    let (q, new) = replace_match-some default_hdd r in
    (q, rw (append_assoc rootdir default_ssd path, found) new)

-- The parts of a result.
abbrev first : {A B : Type 0} → Option (A × B) → A → A
first none a = a
first (some (x, y)) a = x

abbrev second : {A B : Type 0} → Option (A × B) → B → B
second none b = b
second (some (x, y)) b = y

no_mount : {A : Type 0} {r : A} → ◌≡◌ {A = Option A} none (some r) → ⊥
no_mount e = cc

module _ {S : Type 0} (zht : Zht S) (rootdir : Bytes) (w : S) (h : Heap) where
  -- What holds when the handlers start, and a path that one of them gets.
  abbrev pub Starts : Fs S → Bytes → Type 0
  Starts s fpath =
      IsClock s.heap s.clock []
      × Holds zht (update slash [] no_dirs) s.dht
      × ((k : Bytes) → zht.lookup k s.dht ≡ (if eqb k slash then some space else none))
      × (hdd : Bytes) × (get_hdd_path fpath ≡ some hdd)

  mounted_lem :
      (ssd : Bytes) (s : Fs S)
      → mount zht rootdir w h ≡ some (ssd, s)
      → (ssd ≡ rootdir ++ default_ssd)
        × (s ≡ fs (zht.insert slash (32 ∷ []) w) [] (clock null null null) h)
  unfolding mount
  mounted_lem ssd s e = elim (Bool-cases (fits (rootdir ++ default_ssd))) [
    | inl t ↦
        let made = fs (zht.insert slash (32 ∷ []) w) [] (clock null null null) h in
        let both : ◌≡◌ {A = Option (Bytes × Fs S)} (some (rootdir ++ default_ssd, made))
            (some (ssd, s)) =
          rw t at e in
        (sym (ap (λ r. first r ssd) both), sym (ap (λ r. second r s) both))
    | inr f ↦ elim (no_mount (rw f at e)) [ ]
  ]

  -- When `main` has set the file system up on a ZHT without entries, the queue is valid and empty, ZHT has
  -- the root directory "/", whose list of names is empty, and no other entry, and each path that fits its
  -- buffer has a counterpart on the HDD, so that `get_hdd_path` never fails in a handler.
  pub mount-Starts :
      (ssd path fpath : Bytes) (s : Fs S)
      → ((k : Bytes) → zht.lookup k w ≡ none)
      → mount zht rootdir w h ≡ some (ssd, s)
      → fusion_fullpath ssd path ≡ some fpath
      → Starts s fpath
  unfolding eqb
  mount-Starts ssd path fpath s empty e full =
      let (below, state) = mounted_lem ssd s e in
      let whole = fusion_fullpath-append ssd path fpath full in
      let (hdd, found) = hdd_exists rootdir path in
      let none_yet : Holds zht no_dirs w = λ k ns known. elim (no_mount known) [ ] in
      (
        rw state (empty-IsClock h),
        rw state (insert-Holds zht no_dirs w slash none_yet refl),
        λ k. rw (state, zht.lookup-insert slash k space w refl refl, empty k) refl,
        hdd,
        rw (← whole, below) found,
      )
