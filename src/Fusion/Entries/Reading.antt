-- ===== src/Fusion/Entries/Reading.antt =====
-- On `fusion_readdir` (src/fusion.c).
use fusionfs_cache.Fusion.Directory.{Zht, fits}
use fusionfs_cache.Fusion.Directory.History.{Dirs, Holds}
use fusionfs_cache.Fusion.Directory.Listing.{AreNames, listing, strtok_all-listing}
use fusionfs_cache.Fusion.Entries.{space, slash, star, rm_r, is_dir_name, fill, fusion_readdir}
use fusionfs_cache.Fusion.Os.{SysCall, filler, mkdir, system, Env, Fs, fs}
use fusionfs_cache.Fusion.Paths.{fusion_fullpath}
use fusionfs_cache.Prelude.{
  pos, ◌≡◌, refl, Bool, true, false, if◌then◌else◌, some, Bytes, eqb, List, [], ◌∷◌, ◌++◌, arith,
  Bool-cases, inl, inr,
}

-- The key of a directory.
abbrev pub key_of : Bytes → Bytes
key_of path = if eqb slash path then path else path ++ slash

abbrev pub dummy : Bytes → Bytes → Bytes
dummy fpath n = (fpath ++ slash) ++ n

-- The names below a path fit the buffers.
abbrev pub AllFit : Bytes → List Bytes → Type 0
AllFit fpath [] = Unit
AllFit fpath (n ∷ ns) = (fits (dummy fpath n) ≡ true) × AllFit fpath ns

-- The calls for names: each goes to the reader, and a directory is made here.
abbrev pub filled : Bytes → List Bytes → List SysCall → List SysCall
filled fpath [] t = t
filled fpath (n ∷ ns) t =
    filled fpath ns
      (if is_dir_name n then mkdir (dummy fpath n) 509 ∷ filler n ∷ t else filler n ∷ t)

-- The reader takes every name.
abbrev pub TakesAll : Env → Type 0
TakesAll env = (n : Bytes) (t : List SysCall) → (env.reply (filler n ∷ t)).ret ≡ pos 0

-- What goes first: the copy of an empty directory, with all that starts with its path.
abbrev pub cleaned : Bytes → List Bytes → List SysCall → List SysCall
cleaned fpath [] t = system (rm_r fpath ++ star) ∷ t
cleaned fpath (n ∷ ns) t = t

is_space : (ns : List Bytes) → Bool
is_space [] = true
is_space (n ∷ ns) = false

eqb-listing : (ns : List Bytes) → AreNames ns → eqb space (listing ns) ≡ is_space ns
unfolding is_space eqb
eqb-listing [] v = refl
eqb-listing ([] ∷ ns) v = ground (arith, v.0)
eqb-listing ((c ∷ n) ∷ ns) v = refl

module _ {S : Type 0} (env : Env) (ssd : Bytes) (zht : Zht S) (fpath : Bytes) where
  fill-filled :
      (ns : List Bytes) (s : Fs S)
      → TakesAll env
      → AllFit fpath ns
      → fill env ssd zht fpath ns s
        ≡ some (pos 0, fs s.dht (filled fpath ns s.calls) s.clock s.heap)
  unfolding fill
  fill-filled [] s takes room = refl
  fill-filled (n ∷ ns) s takes room =
      let offered = filler n ∷ s.calls in
      elim (Bool-cases (is_dir_name n)) [
        | inl t ↦
            rw (takes n s.calls, t, room.0)
              (fill-filled ns (fs s.dht (mkdir (dummy fpath n) 509 ∷ offered) s.clock s.heap) takes
                room.1)
        | inr f ↦
            rw (takes n s.calls, f) (fill-filled ns (fs s.dht offered s.clock s.heap) takes room.1)
      ]

  -- When ZHT has the texts of the directories, and the reader takes every name, `fusion_readdir` hands out
  -- the names of the directory in their order and makes those that end in a slash as directories here, if
  -- their paths fit. Before that, for an empty directory, it runs rm -r on its path with a star behind it.
  pub fusion_readdir-filled :
      (path : Bytes) (dirs : Dirs) (ns : List Bytes) (s : Fs S)
      → fusion_fullpath ssd path ≡ some fpath
      → Holds zht dirs s.dht
      → dirs (key_of path) ≡ some ns
      → TakesAll env
      → AllFit fpath ns
      → fits (rm_r fpath ++ star) ≡ true
      → fusion_readdir env ssd zht path s
        ≡ some (pos 0, fs s.dht (filled fpath ns (cleaned fpath ns s.calls)) s.clock s.heap)
  unfolding fusion_readdir is_space
  fusion_readdir-filled path dirs [] s full holds known takes room command =
      let (text, names, key) = holds (key_of path) [] known in
      rw (full, text, eqb-listing [] names, command, strtok_all-listing [] names)
        (fill-filled [] (fs s.dht (cleaned fpath [] s.calls) s.clock s.heap) takes room)
  fusion_readdir-filled path dirs (n ∷ ns) s full holds known takes room command =
      let (text, names, key) = holds (key_of path) (n ∷ ns) known in
      rw (full, text, eqb-listing (n ∷ ns) names, strtok_all-listing (n ∷ ns) names)
        (fill-filled (n ∷ ns) s takes room)
