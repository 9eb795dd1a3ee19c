-- ===== src/Fusion/Entries/Renaming.antt =====
-- On `fusion_rename` (src/fusion.c).
use fusionfs_cache.Cache.Clock.Invariant.{IsClock}
use fusionfs_cache.Cache.Clock.Search.{findelem_clock-find}
use fusionfs_cache.Cache.Heap.{null, load}
use fusionfs_cache.Cache.Names.{count, count-append, find, find-absent}
use fusionfs_cache.Cache.Ring.{Cells}
use fusionfs_cache.Fusion.Disk.Links.{is_on_hdd, asked, is_symlink_ssd-is_on_hdd}
use fusionfs_cache.Fusion.Entries.{set_fname, rename_elem, fusion_rename}
use fusionfs_cache.Fusion.Os.{SysCall, rename, unlink, symlink, Env, Fs, fs, checked}
use fusionfs_cache.Fusion.Paths.{get_hdd_path, fusion_fullpath}
use fusionfs_cache.Prelude.{
  ℕ, ◌≤◌, ◌≡◌, refl, ap, true, false, leb, none, some, Bytes, List, ◌∷◌, ◌++◌, length,
  length-append, arith, Bool-cases, inl, inr,
}

module _ (env : Env) (fpath fnew hdd hdd_new : Bytes) where
  -- The calls of a rename on the HDD, newest first.
  abbrev pub renaming : List SysCall → List SysCall
  renaming t =
      rename fpath fnew
      ∷ symlink hdd_new fnew
      ∷ unlink fnew
      ∷ rename hdd hdd_new
      ∷ asked env fpath hdd t

module _ {S : Type 0} (env : Env) (ssd path newpath fpath fnew hdd : Bytes) (k : ℕ) (s : Fs S)
    (full : fusion_fullpath ssd path ≡ some fpath)
    (full_new : fusion_fullpath ssd newpath ≡ some fnew)
    (other : get_hdd_path fpath ≡ some hdd) where
  -- A name that is not in the queue has no node, and the handler writes into the missing one.
  set_fname-null : set_fname null fnew s.heap ≡ none
  unfolding set_fname load
  set_fname-null = elim (Bool-cases (leb 255 (length fnew))) [
    | inl t ↦ rw t refl
    | inr f ↦ rw f refl
  ]

  rename_elem_absent :
      (xs : Cells)
      → IsClock s.heap s.clock xs
      → length xs ≤ k
      → count fpath xs ≡ 0
      → rename_elem k fpath fnew s.clock s.heap ≡ none
  unfolding rename_elem
  rename_elem_absent xs i enough absent =
      let q = i.queue in
      let ws = q.behind ++ q.ahead in
      let size = ap length q.order in
      let names = ap (count fpath) q.order in
      let run = findelem_clock-find s.heap s.clock k fpath ws q.turned.ring q.turned.ends.0 (
        omega
          (arith, enough, size, length-append q.behind q.ahead, length-append q.ahead q.behind)) in
      let nowhere : find fpath ws ≡ null = find-absent fpath ws (
        omega (
          arith,
          absent,
          names,
          count-append fpath q.behind q.ahead,
          count-append fpath q.ahead q.behind,
        )) in
      rw (run, nowhere, set_fname-null) refl

  -- `fusion_rename` of a path that is no link to the HDD and that is not in a valid queue, such as a
  -- directory, writes through NULL.
  pub fusion_rename-uncached :
      (xs : Cells)
      → IsClock s.heap s.clock xs
      → length xs ≤ k
      → is_on_hdd env fpath hdd s.calls ≡ false
      → count fpath xs ≡ 0
      → fusion_rename env ssd k path newpath s ≡ none
  unfolding fusion_rename
  fusion_rename-uncached xs i enough f absent =
      rw
        (
          full,
          full_new,
          is_symlink_ssd-is_on_hdd env fpath hdd s other,
          f,
          rename_elem_absent xs i enough absent,
        )
        refl

  -- For a file on the HDD, `fusion_rename` renames it there and makes a link to its new name; but its last
  -- call renames the old link to the new path, and ZHT keeps the old path.
  pub fusion_rename-relinks :
      (hdd_new : Bytes)
      → get_hdd_path fnew ≡ some hdd_new
      → is_on_hdd env fpath hdd s.calls ≡ true
      → fusion_rename env ssd k path newpath s
        ≡ some (
          checked (env.reply (renaming env fpath fnew hdd hdd_new s.calls)),
          fs s.dht (renaming env fpath fnew hdd hdd_new s.calls) s.clock s.heap,
        )
  unfolding fusion_rename
  fusion_rename-relinks hdd_new other_new t =
      rw (full, full_new, is_symlink_ssd-is_on_hdd env fpath hdd s other, t, other, other_new) refl
