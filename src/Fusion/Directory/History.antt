-- ===== src/Fusion/Directory/History.antt =====
-- Sequences of changes of directories, against lists of names.
use fusionfs_cache.Fusion.Directory.{
  Zht, fits, search_text, zht_update, zht_append, zht_delete, readdir_names,
}
use fusionfs_cache.Fusion.Directory.Listing.{
  is_name, AreNames, listing, listing-tail, listing-append, without, cons?, cut-listing,
  strtok_all-listing,
}
use fusionfs_cache.Prelude.{
  Bytes, false, eqb, eqb→eq, ◌≡◌, refl, sym, ap, ◌∙◌, true, ◌&&◌, if◌then◌else◌, Option, none, some,
  List, [], ◌∷◌, ◌++◌, arith, Bool-cases, Option-cases, inl, inr, ◌>>=◌, subst,
}

-- The names of the directories, by path.
abbrev pub Dirs : Type 0
Dirs = Bytes → Option (List Bytes)

abbrev pub update : Bytes → List Bytes → Dirs → Dirs
update k ns dirs j = if eqb j k then some ns else dirs j

-- An entry comes or goes.
pub data Change : Type 0 where
  add : Bytes → Bytes → Change
  delete : Bytes → Bytes → Change

-- What a change does to the names: it wants a known directory, a name without a space, room in the
-- buffers, and, for a deletion, the name in the directory.
abbrev pub add_name : Bytes → Bytes → Dirs → List Bytes → Option Dirs
add_name k n dirs ns =
    if is_name n && fits (listing (ns ++ n ∷ [])) then some (update k (ns ++ n ∷ []) dirs) else none

abbrev pub put_names : Bytes → Dirs → Option (List Bytes) → Option Dirs
put_names k dirs none = none
put_names k dirs (some ms) = some (update k ms dirs)

abbrev pub delete_name : Bytes → Bytes → Dirs → List Bytes → Option Dirs
delete_name k n dirs ns =
    if is_name n && (fits (listing ns) && fits (search_text n))
    then put_names k dirs (without n ns)
    else none

abbrev pub apply : Change → Dirs → Option Dirs
apply (add k n) dirs = dirs k >>= add_name k n dirs
apply (delete k n) dirs = dirs k >>= delete_name k n dirs

abbrev pub apply_all : List Change → Dirs → Option Dirs
apply_all [] dirs = some dirs
apply_all (c ∷ cs) dirs = apply c dirs >>= apply_all cs

AreNames-snoc :
    (ns : List Bytes) (n : Bytes) → AreNames ns → is_name n ≡ true → AreNames (ns ++ n ∷ [])
AreNames-snoc [] n v u = (u, tt)
AreNames-snoc (m ∷ ns) n (w, v) u = (w, AreNames-snoc ns n v u)

-- Of names, those that are left are names.
abbrev AreLeft : Option (List Bytes) → Type 0
AreLeft none = Unit
AreLeft (some ms) = AreNames ms

cons?-AreLeft :
    (m : Bytes) (r : Option (List Bytes)) → is_name m ≡ true → AreLeft r → AreLeft (cons? m r)
cons?-AreLeft m none u v = tt
cons?-AreLeft m (some ms) u v = (u, v)

without-AreLeft : (n : Bytes) (ns : List Bytes) → AreNames ns → AreLeft (without n ns)
without-AreLeft n [] v = tt
without-AreLeft n (m ∷ ns) (u, v) = elim (Bool-cases (eqb m n)) [
  | inl t ↦ rw t v
  | inr f ↦ rw f (cons?-AreLeft m (without n ns) u (without-AreLeft n ns v))
]

no_dirs : {dirs : Dirs} → ◌≡◌ {A = Option Dirs} none (some dirs) → ⊥
no_dirs e = cc

-- The directories that `some` holds.
abbrev dirs_of : Dirs → Option Dirs → Dirs
dirs_of d none = d
dirs_of d (some e) = e

same_dirs : (d e : Dirs) → ◌≡◌ {A = Option Dirs} (some d) (some e) → d ≡ e
same_dirs d e p = ap (dirs_of d) p

module _ {State : Type 0} (zht : Zht State) where
  -- The same by the code.
  abbrev pub change : Change → State → Option State
  change (add k n) s = zht_append zht k n s
  change (delete k n) s = zht_delete zht k n s

  abbrev pub change_all : List Change → State → Option State
  change_all [] s = some s
  change_all (c ∷ cs) s = change c s >>= change_all cs

  -- ZHT has the text of every directory, under a key that is not empty.
  abbrev pub Holds : Dirs → State → Type 0
  Holds dirs s =
      (k : Bytes) (ns : List Bytes)
      → dirs k ≡ some ns
      → (zht.lookup k s ≡ some (listing ns)) × AreNames ns × (eqb k [] ≡ false)

  -- A new text of one directory.
  pub update-Holds :
      (dirs : Dirs) (s : State) (k : Bytes) (ns : List Bytes)
      → Holds dirs s
      → AreNames ns
      → eqb k [] ≡ false
      → Holds (update k ns dirs) (zht_update zht k (listing ns) s)
  unfolding zht_update eqb
  update-Holds dirs s k ns holds v key j ms e =
      let text : eqb (listing ns) [] ≡ false = rw (listing-tail ns) refl in
      elim (Bool-cases (eqb j k)) [
        | inl t ↦
            let same : ◌≡◌ {A = Option (List Bytes)} (some ns) (some ms) = rw t at e in
            let names : ns ≡ ms = cc in
            (
              zht.lookup-insert k j (listing ns) (zht.remove k s) key text
                  ∙ rw t (ap (λ r. some (listing r)) names),
              subst AreNames names v,
              subst (λ r. eqb r [] ≡ false) (sym (eqb→eq j k t)) key,
            )
        | inr f ↦
            let (old, w, other) = holds j ms (rw f at e) in
            (
              zht.lookup-insert k j (listing ns) (zht.remove k s) key text
                  ∙ rw f (zht.lookup-remove k j s key ∙ rw f old),
              w,
              other,
            )
      ]

  -- An entry more.
  pub add-Holds :
      (dirs next : Dirs) (s : State) (k n : Bytes) (ns : List Bytes)
      → Holds dirs s
      → dirs k ≡ some ns
      → add_name k n dirs ns ≡ some next
      → (t : State) × (zht_append zht k n s ≡ some t) × Holds next t
  unfolding zht_append
  add-Holds dirs next s k n ns holds known e =
      let (text, v, key) = holds k ns known in
      elim (Bool-cases (is_name n && fits (listing (ns ++ n ∷ [])))) [
        | inr f ↦ elim (no_dirs (rw f at e)) [ ]
        | inl t ↦
            let room : fits (listing (ns ++ n ∷ [])) ≡ true = ground (arith, t) in
            let new : (listing ns ++ n) ++ 32 ∷ [] ≡ listing (ns ++ n ∷ []) =
              sym (listing-append ns n) in
            let left =
              update-Holds dirs s k (ns ++ n ∷ []) holds (AreNames-snoc ns n v (ground (arith, t)))
                key in
            (
              zht_update zht k (listing (ns ++ n ∷ [])) s,
              rw (text, new, room) refl,
              subst (λ d. Holds d (zht_update zht k (listing (ns ++ n ∷ [])) s))
                  (same_dirs (update k (ns ++ n ∷ []) dirs) next (rw t at e)) left,
            )
      ]

  pub delete-Holds :
      (dirs next : Dirs) (s : State) (k n : Bytes) (ns : List Bytes)
      → Holds dirs s
      → dirs k ≡ some ns
      → delete_name k n dirs ns ≡ some next
      → (t : State) × (zht_delete zht k n s ≡ some t) × Holds next t
  unfolding zht_delete
  delete-Holds dirs next s k n ns holds known e =
      let (text, v, key) = holds k ns known in
      elim (Bool-cases (is_name n && (fits (listing ns) && fits (search_text n)))) [
        | inr f ↦ elim (no_dirs (rw f at e)) [ ]
        | inl t ↦
            let room : (fits (listing ns) && fits (search_text n)) ≡ true = ground (arith, t) in
            let cuts = cut-listing n ns (ground (arith, t)) v in
            let left = without-AreLeft n ns v in
            elim (Option-cases (without n ns)) [
              | inl z ↦ elim (no_dirs (rw (t, z) at e)) [ ]
              | inr (ms, z) ↦ (
                zht_update zht k (listing ms) s,
                rw (text, room, cuts, z) refl,
                subst (λ d. Holds d (zht_update zht k (listing ms) s))
                    (same_dirs (update k ms dirs) next (rw (t, z) at e))
                    (update-Holds dirs s k ms holds (rw z at left) key),
              )
            ]
      ]

  change-Holds :
      (c : Change) (dirs next : Dirs) (s : State)
      → Holds dirs s
      → apply c dirs ≡ some next
      → (t : State) × (change c s ≡ some t) × Holds next t
  change-Holds (add k n) dirs next s holds e = elim (Option-cases (dirs k)) [
    | inl z ↦ elim (no_dirs (rw z at e)) [ ]
    | inr (ns, z) ↦ add-Holds dirs next s k n ns holds z (rw z at e)
  ]
  change-Holds (delete k n) dirs next s holds e = elim (Option-cases (dirs k)) [
    | inl z ↦ elim (no_dirs (rw z at e)) [ ]
    | inr (ns, z) ↦ delete-Holds dirs next s k n ns holds z (rw z at e)
  ]

  change_all-Holds :
      (cs : List Change) (dirs next : Dirs) (s : State)
      → Holds dirs s
      → apply_all cs dirs ≡ some next
      → (t : State) × (change_all cs s ≡ some t) × Holds next t
  change_all-Holds [] dirs next s holds e =
      (s, refl, subst (λ d. Holds d s) (same_dirs dirs next e) holds)
  change_all-Holds (c ∷ cs) dirs next s holds e = elim (Option-cases (apply c dirs)) [
    | inl z ↦ elim (no_dirs (rw z at e)) [ ]
    | inr (mid, z) ↦
        let (t, run, holds1) = change-Holds c dirs mid s holds z in
        let (u, run2, holds2) = change_all-Holds cs mid next t holds1 (rw z at e) in
        (u, rw run run2, holds2)
  ]

  -- When ZHT has the texts of the directories, changes that the lists of names allow return, and
  -- `fusion_readdir` then hands out the names of a directory as the lists have them, in their order.
  pub readdir_names-changed :
      (cs : List Change) (dirs next : Dirs) (s : State) (k : Bytes) (ns : List Bytes)
      → Holds dirs s
      → apply_all cs dirs ≡ some next
      → next k ≡ some ns
      → (t : State) × (change_all cs s ≡ some t) × (readdir_names zht k t ≡ ns)
  unfolding readdir_names
  readdir_names-changed cs dirs next s k ns holds e known =
      let (t, run, holds2) = change_all-Holds cs dirs next s holds e in
      let (text, v, key) = holds2 k ns known in (t, run, rw text (strtok_all-listing ns v))
