-- ===== src/Fusion/Entries/Undoing.antt =====
-- On `fusion_rmdir` behind `fusion_mkdir` (src/fusion.c).
use fusionfs_cache.Fusion.Directory.{Zht, fits, search_text}
use fusionfs_cache.Fusion.Directory.History.{Dirs, update, Holds, add_name, delete_name}
use fusionfs_cache.Fusion.Directory.Keys.{forget}
use fusionfs_cache.Fusion.Directory.Listing.{is_name, listing, without}
use fusionfs_cache.Fusion.Entries.{slash, rm_r, fusion_mkdir, fusion_rmdir}
use fusionfs_cache.Fusion.Entries.Making.{
  removing, fusion_mkdir-MakesDirectory, fusion_rmdir-RemovesDirectory,
}
use fusionfs_cache.Fusion.Os.{mkdir, checked, Env, Fs, fs}
use fusionfs_cache.Fusion.Paths.{get_hdd_path, fusion_fullpath, split_path}
use fusionfs_cache.Prelude.{
  ℕ, ℤ, ◌≡◌, refl, sym, ap, ◌∙◌, Bool, true, false, ◌||◌, Option, none, some, Bytes, eqb, eqb_refl,
  eqb→eq, List, [], ◌∷◌, ◌++◌, arith, Bool-cases, inl, inr, subst,
}

-- The name stands in the list.
abbrev pub is_in : Bytes → List Bytes → Bool
is_in n [] = false
is_in n (m ∷ ns) = eqb m n || is_in n ns

-- A name that was added at the end goes again.
without-snoc :
    (n : Bytes) (ns : List Bytes) → is_in n ns ≡ false → without n (ns ++ n ∷ []) ≡ some ns
without-snoc n [] out = rw (eqb_refl n) refl
without-snoc n (m ∷ ns) out =
    let other : eqb m n ≡ false = ground (arith, out) in
    let rest = without-snoc n ns (ground (arith, out)) in rw (other, rest) refl

no_truth : ◌≡◌ {A = Bool} false true → ⊥
no_truth e = cc

other_side : (a b : Bytes) → eqb a b ≡ false → eqb b a ≡ false
other_side a b f = elim (Bool-cases (eqb b a)) [
  | inr g ↦ g
  | inl t ↦
      let same : eqb a b ≡ true = subst (λ r. eqb r b ≡ true) (eqb→eq b a t) (eqb_refl b) in
      elim (no_truth (sym f ∙ same)) [ ]
]

no_entry : {ns : List Bytes} → ◌≡◌ {A = Option (List Bytes)} none (some ns) → ⊥
no_entry e = cc

module _ (dirs : Dirs) (key parent n : Bytes) (ns : List Bytes) where
  -- The lists with the new directory, and behind its removal.
  abbrev pub made : Dirs
  made = update parent (ns ++ n ∷ []) (update key [] dirs)

  abbrev pub unmade : Dirs
  unmade = update parent ns made

  module _ (new : dirs key ≡ none) (known : dirs parent ≡ some ns) where
    apart : (j : Bytes) (ms : List Bytes) → dirs j ≡ some ms → eqb j key ≡ false
    apart j ms e = elim (Bool-cases (eqb j key)) [
      | inr f ↦ f
      | inl t ↦ elim (no_entry (sym new ∙ (ap dirs (sym (eqb→eq j key t)) ∙ e))) [ ]
    ]

    unmade-dirs : (j : Bytes) (ms : List Bytes) → dirs j ≡ some ms → forget key unmade j ≡ some ms
    unmade-dirs j ms e = elim (Bool-cases (eqb j parent)) [
      | inl t ↦ rw (apart j ms e, t) (sym known ∙ (ap dirs (sym (eqb→eq j parent t)) ∙ e))
      | inr f ↦ rw (apart j ms e, f) e
    ]

module _ {S : Type 0} (env : Env) (ssd : Bytes) (zht : Zht S) (path fpath hdd parent name : Bytes)
    (s : Fs S) (mode : ℕ) where
  -- Both calls return, and ZHT has the directories that it had, and not the new one.
  abbrev pub Undone : Dirs → Type 0
  Undone dirs =
      (r q : ℤ) × (s1 : Fs S) × (z : Fs S) × (fusion_mkdir env ssd zht path mode s ≡ some (r, s1))
      × (fusion_rmdir env ssd zht path s1 ≡ some (q, z))
      × (zht.lookup (path ++ slash) z.dht ≡ none)
      × Holds zht dirs z.dht

  -- When ZHT has the texts of the directories, a directory that is not among them, nor its name in the
  -- parent, can be made and removed again, if the texts and the command fit their buffers: both handlers
  -- return, and ZHT then has no entry for the new one, and the same text for each directory as before.
  pub fusion_rmdir-fusion_mkdir :
      (dirs : Dirs) (ns : List Bytes)
      → fusion_fullpath ssd path ≡ some fpath
      → get_hdd_path fpath ≡ some hdd
      → fits (rm_r fpath) ≡ true
      → split_path path ≡ some (parent, name)
      → Holds zht dirs s.dht
      → dirs (path ++ slash) ≡ none
      → dirs parent ≡ some ns
      → is_in (name ++ slash) ns ≡ false
      → is_name (name ++ slash) ≡ true
      → fits (listing (ns ++ (name ++ slash) ∷ [])) ≡ true
      → fits (search_text (name ++ slash)) ≡ true
      → Undone dirs
  fusion_rmdir-fusion_mkdir dirs ns full other room split holds new known out named long short =
      let key = path ++ slash in
      let n = name ++ slash in
      let with_new = made dirs key parent n ns in
      let not_key : eqb parent key ≡ false = apart dirs key parent n ns new known parent ns known in
      let key_not : eqb key parent ≡ false = other_side parent key not_key in
      let known1 : update key [] dirs parent ≡ some ns = rw not_key known in
      let added : add_name parent n (update key [] dirs) ns ≡ some with_new =
        rw (named, long) refl in
      let (v, run, holds1) =
        fusion_mkdir-MakesDirectory env ssd zht path fpath hdd parent name s mode dirs with_new ns
          full other split holds known1 added in
      let s1 = fs v (mkdir hdd mode ∷ mkdir fpath mode ∷ s.calls) s.clock s.heap in
      let empty : with_new key ≡ some [] = rw (key_not, eqb_refl key) refl in
      let listed : with_new parent ≡ some (ns ++ n ∷ []) = rw (eqb_refl parent) refl in
      let gone : delete_name parent n with_new (ns ++ n ∷ []) ≡ some (unmade dirs key parent n ns) =
        rw (named, long, short, without-snoc n ns out) refl in
      let (w, run2, absent, holds2) =
        fusion_rmdir-RemovesDirectory env ssd zht path fpath hdd parent name s1 with_new
          (unmade dirs key parent n ns) (ns ++ n ∷ []) full other room split holds1 empty listed
          gone in
      (
        checked (env.reply (mkdir fpath mode ∷ s.calls)),
        checked (env.reply (removing env ssd zht path fpath hdd parent name s1)),
        s1,
        fs w (removing env ssd zht path fpath hdd parent name s1) s.clock s.heap,
        run,
        run2,
        absent,
        λ j ms e. holds2 j ms (unmade-dirs dirs key parent n ns new known j ms e),
      )
