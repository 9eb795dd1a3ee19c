-- ===== src/Fusion/Paths.antt =====
-- The paths of src/fusion.c and src/util.c: the two disks under the root directory, and the address
-- that ZHT has for a file. `none` is undefined behaviour: a use of NULL, or text longer than its buffer.
pub mod Disks
use fusionfs_cache.Fusion.Directory.{fits, strstr}
use fusionfs_cache.Prelude.{
  ℕ, suc, Bool, true, false, ◌==◌, if◌then◌else◌, Option, none, some, Bytes, List, [], ◌∷◌, ◌++◌,
  length, drop,
}

-- DEFAULT_SSD is "/ssd", DEFAULT_HDD is "/hdd".
abbrev pub default_ssd : Bytes
default_ssd = 47 ∷ 115 ∷ 115 ∷ 100 ∷ []

abbrev pub default_hdd : Bytes
default_hdd = 47 ∷ 104 ∷ 100 ∷ 100 ∷ []

-- strncpy over a match: the match is as long as the new text.
abbrev pub replace_match : Bytes → Option (Bytes × Bytes) → Option Bytes
replace_match new none = none
replace_match new (some (before, from)) = some (before ++ new ++ drop (length new) from)

unfoldable pub get_hdd_path : Bytes → Option Bytes
unfolding strstr
get_hdd_path ssd_fpath = replace_match default_hdd (strstr ssd_fpath default_ssd)

unfoldable pub get_ssd_path : Bytes → Option Bytes
unfolding strstr
get_ssd_path hdd_fpath = replace_match default_ssd (strstr hdd_fpath default_hdd)

-- `ssd` is FUSION_DATA->ssd. The buffers that take less than this text, such as a directory's name with
-- its slash, are not tested again.
unfoldable pub fusion_fullpath : Bytes → Bytes → Option Bytes
fusion_fullpath ssd path = if fits (ssd ++ path) then some (ssd ++ path) else none

-- The text up to the first slash, when there is one.
unfoldable pub before_slash : Bytes → Option Bytes
before_slash [] = none
before_slash (c ∷ s) =
    let rest = before_slash s in
    if c == 47 then some [] else elim rest [ none ↦ none | some r ↦ some (c ∷ r) ]

-- What `real_ip` leaves in its buffer, and what it returns. Its own buffer `newip` gets no zero byte:
-- `junk` is what stands there behind the copy.
unfoldable pub real_ip : Bytes → Bytes → Bytes × Bool
unfolding before_slash
real_ip junk ip = elim (before_slash ip) [ none ↦ (ip, false) | some new ↦ (new ++ junk, true) ]

abbrev pub in_front : ℕ → Option (Bytes × Bytes) → Bytes → Option (Bytes × Bytes)
in_front c none s = if c == 47 then some (c ∷ [], s) else none
in_front c (some (parent, name)) s = some (c ∷ parent, name)

-- The handlers split a path behind its last slash, which strrchr finds.
unfoldable pub split_path : Bytes → Option (Bytes × Bytes)
split_path [] = none
split_path (c ∷ s) = in_front c (split_path s) s
