-- ===== src/Fusion/Directory/Keys.antt =====
-- Changes of ZHT under keys of its own: a new directory, and keys that are no directories.
use fusionfs_cache.Fusion.Directory.{
  Zht, fits, strstr, search_text, cut, store_new, text_of, zht_update, zht_delete,
}
use fusionfs_cache.Fusion.Directory.History.{Dirs, update, Holds}
use fusionfs_cache.Fusion.Directory.Listing.{AreNames, listing}
use fusionfs_cache.Prelude.{
  drop, length, ◌++◌, ◌&&◌, Bytes, false, eqb, eqb→eq, ◌≡◌, refl, sym, ap, ◌∙◌, if◌then◌else◌,
  Option, none, some, List, [], ◌∷◌, Bool-cases, inl, inr, subst,
}

no_entry : {ns : List Bytes} → ◌≡◌ {A = Option (List Bytes)} none (some ns) → ⊥
no_entry e = cc

module _ {S : Type 0} (zht : Zht S) (dirs : Dirs) (s : S) (k : Bytes) (holds : Holds zht dirs s)
    (key : eqb k [] ≡ false) where
  -- zht_insert(path/, " ")
  pub insert-Holds : Holds zht (update k [] dirs) (zht.insert k (32 ∷ []) s)
  unfolding eqb
  insert-Holds j ms e = elim (Bool-cases (eqb j k)) [
    | inl t ↦
        let same : ◌≡◌ {A = Option (List Bytes)} (some []) (some ms) = rw t at e in
        let names : [] ≡ ms = cc in
        (
          zht.lookup-insert k j (32 ∷ []) s key refl ∙ rw t (ap (λ r. some (listing r)) names),
          subst AreNames names tt,
          subst (λ r. eqb r [] ≡ false) (sym (eqb→eq j k t)) key,
        )
    | inr f ↦
        let (old, w, other) = holds j ms (rw f at e) in
        (zht.lookup-insert k j (32 ∷ []) s key refl ∙ rw f old, w, other)
  ]

  module _ (other : dirs k ≡ none) where
    -- A directory is under another key.
    apart : (j : Bytes) (ms : List Bytes) → dirs j ≡ some ms → eqb j k ≡ false
    apart j ms e = elim (Bool-cases (eqb j k)) [
      | inr f ↦ f
      | inl t ↦ elim (no_entry (sym other ∙ (ap dirs (sym (eqb→eq j k t)) ∙ e))) [ ]
    ]

    pub other_insert-Holds : (v : Bytes) → eqb v [] ≡ false → Holds zht dirs (zht.insert k v s)
    other_insert-Holds v text j ms e =
        let (old, w, named) = holds j ms e in
        (zht.lookup-insert k j v s key text ∙ rw (apart j ms e) old, w, named)

    pub other_remove-Holds : Holds zht dirs (zht.remove k s)
    other_remove-Holds j ms e =
        let (old, w, named) = holds j ms e in
        (zht.lookup-remove k j s key ∙ rw (apart j ms e) old, w, named)

module _ {S : Type 0} (zht : Zht S) (dirs : Dirs) (s : S) (k v : Bytes) where
  pub other_update-Holds :
      Holds zht dirs s
      → eqb k [] ≡ false
      → dirs k ≡ none
      → eqb v [] ≡ false
      → Holds zht dirs (zht_update zht k v s)
  unfolding zht_update
  other_update-Holds holds key other text =
      other_insert-Holds zht dirs (zht.remove k s) k
        (other_remove-Holds zht dirs s k holds key other) key other v text

-- The directories without one.
abbrev pub forget : Bytes → Dirs → Dirs
forget k dirs j = if eqb j k then none else dirs j

module _ {S : Type 0} (zht : Zht S) (dirs : Dirs) (s : S) (k : Bytes) where
  pub remove-Holds :
      Holds zht dirs s → eqb k [] ≡ false → Holds zht (forget k dirs) (zht.remove k s)
  remove-Holds holds key j ms e = elim (Bool-cases (eqb j k)) [
    | inl t ↦ elim (no_entry (rw t at e)) [ ]
    | inr f ↦
        let (old, w, named) = holds j ms (rw f at e) in
        (zht.lookup-remove k j s key ∙ rw f old, w, named)
  ]

no_state : {S : Type 0} {t : S} → ◌≡◌ {A = Option S} none (some t) → ⊥
no_state e = cc

same_state : {S : Type 0} {s t : S} → ◌≡◌ {A = Option S} (some s) (some t) → s ≡ t
same_state e = cc

cut_nonempty : (b r : Bytes) → eqb (b ++ 32 ∷ r) [] ≡ false
unfolding eqb
cut_nonempty [] r = refl
cut_nonempty (c ∷ b) r = refl

module _ {S : Type 0} (zht : Zht S) (k j : Bytes) (s t : S) (key : eqb k [] ≡ false)
    (apart : eqb j k ≡ false) where
  update_elsewhere :
      (v : Bytes) → eqb v [] ≡ false → zht.lookup j (zht_update zht k v s) ≡ zht.lookup j s
  unfolding zht_update
  update_elsewhere v text =
      zht.lookup-insert k j v (zht.remove k s) key text
      ∙ rw apart (zht.lookup-remove k j s key ∙ rw apart refl)

  -- A deletion leaves the other keys.
  store_elsewhere :
      (search : Bytes) (r : Option (Bytes × Bytes))
      → store_new zht k s (cut search r) ≡ some t
      → zht.lookup j t ≡ zht.lookup j s
  store_elsewhere search none e = elim (no_state e) [ ]
  store_elsewhere search (some (b, f)) e =
      let v = b ++ 32 ∷ drop (length search) f in
      subst (λ u. zht.lookup j u ≡ zht.lookup j s) (same_state {s = zht_update zht k v s} e)
        (update_elsewhere v (cut_nonempty b (drop (length search) f)))

  pub delete_elsewhere :
      (n : Bytes) → zht_delete zht k n s ≡ some t → zht.lookup j t ≡ zht.lookup j s
  unfolding zht_delete
  delete_elsewhere n e =
      let old = text_of (zht.lookup k s) in
      elim (Bool-cases (fits old && fits (search_text n))) [
        | inl r ↦ store_elsewhere (search_text n) (strstr old (search_text n)) (rw r at e)
        | inr r ↦ elim (no_state (rw r at e)) [ ]
      ]
