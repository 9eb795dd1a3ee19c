-- ===== src/Checks/Directories.antt =====
-- Tests and examples of the directories: a root directory into which names come, and out of which they go.
use fusionfs_cache.Fusion.Directory.{
  Zht, is_prefix, strstr, strtok_all, zht_update, zht_append, zht_delete, readdir_names,
}
use fusionfs_cache.Fusion.Directory.History.{
  Dirs, Change, update, change_all, Holds, readdir_names-changed,
}
use fusionfs_cache.Fusion.Directory.Listing.{AreNames, listing}
use fusionfs_cache.Prelude.{
  Bytes, false, eqb, eqb→eq, ◌≡◌, refl, if◌then◌else◌, Option, none, some, List, [], ◌∷◌,
  Bool-cases, inl, inr, subst, ◌>>=◌,
}

-- A map in place of ZHT.
abbrev pub map_zht : Zht (Bytes → Option Bytes)
map_zht = record {
  lookup = λ k s. s k;
  insert = λ k v s j. if eqb j k then some v else s j;
  remove = λ k s j. if eqb j k then none else s j;
  lookup-insert = λ k j v s a b. refl;
  lookup-remove = λ k j s a. refl;
}

-- The key of the root directory, and two names.
abbrev pub root : Bytes
root = 47 ∷ []

abbrev pub name_a : Bytes
name_a = 97 ∷ []

abbrev pub name_b : Bytes
name_b = 98 ∷ []

-- What `main` puts into ZHT.
abbrev pub started : Bytes → Option Bytes
started j = if eqb j root then some (32 ∷ []) else none

abbrev pub root_only : Dirs
root_only = update root [] (λ j. none)

abbrev changes : List Change
changes = Change.add root name_a ∷ Change.add root name_b ∷ Change.delete root name_a ∷ []

no_names : {ns : List Bytes} → ◌≡◌ {A = Option (List Bytes)} none (some ns) → ⊥
no_names e = cc

pub started-Holds : Holds map_zht root_only started
unfolding eqb
started-Holds k ns e = elim (Bool-cases (eqb k root)) [
  | inr f ↦ elim (no_names (rw f at e)) [ ]
  | inl t ↦
      let same : ◌≡◌ {A = Option (List Bytes)} (some []) (some ns) = rw t at e in
      let names : [] ≡ ns = cc in
      let key : eqb k [] ≡ false = rw (eqb→eq k root t) refl in
      subst (λ r. (started k ≡ some (listing r)) × AreNames r × (eqb k [] ≡ false)) names
        (rw t refl, tt, key)
]

readdir_names-changed_example :
    (t : Bytes → Option Bytes) × (change_all map_zht changes started ≡ some t)
    × (readdir_names map_zht root t ≡ name_b ∷ [])
unfolding eqb
readdir_names-changed_example =
    readdir_names-changed map_zht changes root_only
      (update root (name_b ∷ [])
        (update root (name_a ∷ name_b ∷ []) (update root (name_a ∷ []) root_only)))
      started root (name_b ∷ []) started-Holds refl refl

-- A name that is not in the directory: the deletion computes with a NULL pointer.
test_delete_absent : zht_delete map_zht root name_a started ≡ none
unfolding zht_delete strstr is_prefix eqb
test_delete_absent = refl

-- A name with a space is two names for the reader of the directory.
test_space :
    (zht_append map_zht root (97 ∷ 32 ∷ 98 ∷ []) started >>= λ s.
    some (readdir_names map_zht root s))
    ≡ some (name_a ∷ name_b ∷ [])
unfolding zht_append zht_update readdir_names strtok_all eqb
test_space = refl
