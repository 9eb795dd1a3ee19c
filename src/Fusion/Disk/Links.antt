-- ===== src/Fusion/Disk/Links.antt =====
-- On `is_symlink_ssd` and `move_file_hdd` (src/util.c): what they ask and do.
use fusionfs_cache.Fusion.Directory.{fits}
use fusionfs_cache.Fusion.Disk.{f_ok, mv, is_symlink_ssd, move_file_hdd}
use fusionfs_cache.Fusion.Disk.Runs.{effects}
use fusionfs_cache.Fusion.Os.{SysCall, access, lstat, unlink, system, Env, Fs, fs}
use fusionfs_cache.Fusion.Paths.{get_hdd_path}
use fusionfs_cache.Prelude.{
  ◌≡◌, refl, Bool, true, not, ◌&&◌, is_error, if◌then◌else◌, some, Bytes, List, ◌∷◌, Bool-cases,
  inl, inr,
}

module _ (env : Env) (fpath hdd : Bytes) (t : List SysCall) where
  -- lstat sees a link on the SSD.
  abbrev pub sees_link : Bool
  sees_link = (env.reply (lstat fpath ∷ t)).is_link

  -- It does, and access finds the file on the HDD.
  abbrev pub is_on_hdd : Bool
  is_on_hdd = sees_link && not (is_error (env.reply (access hdd f_ok ∷ lstat fpath ∷ t)).ret)

  -- The calls behind the two questions.
  abbrev pub asked : List SysCall
  asked = if sees_link then access hdd f_ok ∷ lstat fpath ∷ t else lstat fpath ∷ t

  pub asked-effects : effects asked ≡ effects t
  asked-effects = elim (Bool-cases sees_link) [ inl e ↦ rw e refl | inr e ↦ rw e refl ]

module _ {S : Type 0} (env : Env) (fpath hdd : Bytes) (s : Fs S)
    (path : get_hdd_path fpath ≡ some hdd) where
  pub is_symlink_ssd-is_on_hdd :
      is_symlink_ssd env fpath s
      ≡ some
          (is_on_hdd env fpath hdd s.calls, fs s.dht (asked env fpath hdd s.calls) s.clock s.heap)
  unfolding is_symlink_ssd
  is_symlink_ssd-is_on_hdd = elim (Bool-cases (env.reply (lstat fpath ∷ s.calls)).is_link) [
    | inl t ↦ rw (path, t) refl
    | inr f ↦ rw (path, f) refl
  ]

  pub move_file_hdd-calls :
      fits (mv hdd fpath) ≡ true
      → move_file_hdd env fpath s
        ≡ some (tt, fs s.dht (system (mv hdd fpath) ∷ unlink fpath ∷ s.calls) s.clock s.heap)
  unfolding move_file_hdd
  move_file_hdd-calls room = rw (path, room) refl
