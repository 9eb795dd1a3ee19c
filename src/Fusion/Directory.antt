-- ===== src/Fusion/Directory.antt =====
-- The entries of a directory, a value of ZHT under the directory's path: the names, each between two
-- spaces. `none` is undefined behaviour: arithmetic on a NULL that strstr returned, or text longer than
-- its buffer.
pub mod Listing
pub mod History
pub mod Keys
use fusionfs_cache.Prelude.{
  ℕ, ◌+◌, ◌≡◌, Bool, true, false, ◌&&◌, ◌==◌, ltb, if◌then◌else◌, Option, none, some, Bytes, eqb,
  List, [], ◌∷◌, ◌++◌, length, drop,
}

-- ZHT as the handlers use it: `zht_lookup`, `zht_insert` and `zht_remove`. ZHT takes no empty key, and
-- reads an empty value as a missing one.
pub record Zht (State : Type 0) : Type 0 where
  pub lookup : Bytes → State → Option Bytes
  pub insert : Bytes → Bytes → State → State
  pub remove : Bytes → State → State
  pub lookup-insert :
      (k j v : Bytes) (s : State)
      → eqb k [] ≡ false
      → eqb v [] ≡ false
      → lookup j (insert k v s) ≡ (if eqb j k then some v else lookup j s)
  pub lookup-remove :
      (k j : Bytes) (s : State)
      → eqb k [] ≡ false
      → lookup j (remove k s) ≡ (if eqb j k then none else lookup j s)

-- sizeof of every buffer, PATH_MAX
abbrev pub path_max : ℕ
path_max = 4096

-- A text and its zero byte fit a buffer.
abbrev pub fits : Bytes → Bool
fits s = ltb (length s) path_max

unfoldable pub is_prefix : Bytes → Bytes → Bool
is_prefix [] s = true
is_prefix (c ∷ n) [] = false
is_prefix (c ∷ n) (d ∷ s) = (c == d) && is_prefix n s

abbrev pub shift : ℕ → Option (Bytes × Bytes) → Option (Bytes × Bytes)
shift c none = none
shift c (some (before, from)) = some (c ∷ before, from)

-- What stands before the first match, and the rest from the match on.
unfoldable pub strstr : Bytes → Bytes → Option (Bytes × Bytes)
unfolding is_prefix
strstr [] n = if is_prefix n [] then some ([], []) else none
strstr (c ∷ s) n =
    let rest = strstr s n in if is_prefix n (c ∷ s) then some ([], c ∷ s) else shift c rest

-- " " ++ val ++ " "
abbrev pub search_text : Bytes → Bytes
search_text val = 32 ∷ (val ++ 32 ∷ [])

-- The new value of `zht_delete`.
abbrev pub cut : Bytes → Option (Bytes × Bytes) → Option Bytes
cut search none = none
cut search (some (before, from)) = some (before ++ 32 ∷ drop (length search) from)

-- strtok(text, " "), until it returns NULL; `word` is what has been read of the current name.
unfoldable pub strtok_all : Bytes → Bytes → List Bytes
strtok_all [] [] = []
strtok_all (w ∷ word) [] = (w ∷ word) ∷ []
strtok_all [] (c ∷ s) = if c == 32 then strtok_all [] s else strtok_all (c ∷ []) s
strtok_all (w ∷ word) (c ∷ s) =
    if c == 32 then (w ∷ word) ∷ strtok_all [] s else strtok_all ((w ∷ word) ++ c ∷ []) s

-- A missing key leaves the zeros of the buffer.
abbrev pub text_of : Option Bytes → Bytes
text_of none = []
text_of (some v) = v

module _ {State : Type 0} (zht : Zht State) where
  unfoldable pub zht_update : Bytes → Bytes → State → State
  zht_update key val s = zht.insert key val (zht.remove key s)

  unfoldable pub zht_append : Bytes → Bytes → State → Option State
  zht_append key val s =
      let old = text_of (zht.lookup key s) in
      let new = old ++ val ++ 32 ∷ [] in if fits new then some (zht_update key new s) else none

  abbrev pub store_new : Bytes → State → Option Bytes → Option State
  store_new key s none = none
  store_new key s (some new) = some (zht_update key new s)

  unfoldable pub zht_delete : Bytes → Bytes → State → Option State
  unfolding strstr
  zht_delete key val s =
      let old = text_of (zht.lookup key s) in
      let search = search_text val in
      if fits old && fits search then store_new key s (cut search (strstr old search)) else none

  -- The names that `fusion_readdir` hands out.
  unfoldable pub readdir_names : Bytes → State → List Bytes
  readdir_names dirname s = strtok_all [] (text_of (zht.lookup dirname s))
