-- ===== src/Novoht/Refines/Put.antt =====
-- NoVoHT::put (novoht.cpp) stores the value under the key and changes no other key.
use fusionfs_cache.Prelude.{
  ◌+◌, ◌≤◌, ◌<◌, ◌≡◌, ◌⊎◌, refl, sym, ◌∙◌, ap, true, false, none, some, [], ◌∷◌, ◌++◌, arith, Bytes,
  eqb, eqb→eq, get_or, set, if◌then◌else◌, Returns, Option-cases, inl, inr, pos, ◌+ℤ◌,
}
use fusionfs_cache.Novoht.Chain.{
  KvPair, Chain, value, find, replace, copies, copies-eq-zero, copies-append_new, find-append_new,
  to_nat, find-replace, copies-replace, find-key,
}
use fusionfs_cache.Novoht.Disk.{Disk, no_file, write-Returns, mark-Returns}
use fusionfs_cache.Novoht.Placed.{
  home, home-lt, slot-home, quota, IsPlaced, view, set-IsPlaced, view-set,
}
use fusionfs_cache.Novoht.Refines.{
  values, IsValid, no_file-InRam, Writes, elements-more, can_grow, grow-Grown,
}
use fusionfs_cache.Novoht.Table.{NoVoHt, store, put}

abbrev bucket_of : NoVoHt → Bytes → Chain
bucket_of m k = get_or m.kvpairs (home k m.size) []

module _ (m : NoVoHt) (positive : 0 < m.size) (placed : IsPlaced m.size m.kvpairs)
    (write_free : m.disk.write_lock ≡ false) (k v : Bytes) where
  -- A bucket that now answers `some v` at `k`, and otherwise as before.
  reads_after :
      (c : Chain) (p : KvPair)
      → p.val ≡ v
      → ((q : Bytes) → find q c ≡ (if eqb q k then some p else find q (bucket_of m k)))
      → (q : Bytes)
      → value (view m.size (set m.kvpairs (home k m.size) c) q)
        ≡ (if eqb q k then some v else value (view m.size m.kvpairs q))
  unfolding view
  reads_after c p named change q =
      rw (view-set placed (home k m.size) (home-lt k m.size positive) c q)
        (ground (arith, change q, eqb→eq q k, named))

  -- The key's own bucket may hold it once.
  small_after :
      (c : Chain) (q : Bytes)
      → (copies q c ≡ copies q (bucket_of m k))
        ⊎ ((find k (bucket_of m k) ≡ none)
            × (copies q c ≡ copies q (bucket_of m k) + to_nat (eqb q k)))
      → copies q c ≤ quota m.size q (home k m.size)
  small_after c q grew =
      ground
        (arith, grew, placed.apart q (home k m.size), eqb→eq q k, copies-eq-zero k (bucket_of m k))

  pub store-Writes :
      Returns
        (store (home k m.size) k v m (find k (get_or m.kvpairs (home k m.size) [])))
        (Writes m k (some v) (pos 0))
  unfolding store values
  store-Writes = elim (Option-cases (find k (bucket_of m k))) [
    | inl gone ↦
        let ((add, d, r), run, (key, val, keeps, memory)) =
          write-Returns (record { key = k; val = v; file_pos = 0 }) m.disk write_free in
        (
          (
            record m {
              kvpairs = set m.kvpairs (home k m.size) (bucket_of m k ++ add ∷ []);
              num_el = m.num_el +ℤ pos 1;
              map_lock = false;
              disk = d;
            },
            r,
          ),
          rw (gone, store, run) refl,
          record {
            valid = record {
              positive = positive;
              placed = set-IsPlaced placed (home k m.size) (home-lt k m.size positive) _ (λ q.
                  small_after _ q (inr (gone, copies-append_new k q add key (bucket_of m k))));
              map_free = refl;
              write_free = keeps.locked ∙ write_free;
            };
            reads = reads_after _ add val (λ q. find-append_new k q add key (bucket_of m k) gone);
            steady = record { factor = refl; count = elements-more m.num_el };
            in_ram = λ ram. (let t = memory ram.0 in (t.0 ∙ no_file-InRam m.disk ram, t.1));
          },
        )
    | inr (cur, found) ↦
        let ((marked, r₁), run₁, (keeps₁, memory₁)) = mark-Returns cur.file_pos m.disk write_free in
        let ((node, d, r), run, (key, val, keeps, memory)) =
          write-Returns (record cur { val = v }) marked (keeps₁.locked ∙ write_free) in
        let named = key ∙ sym (eqb→eq k cur.key (find-key k (bucket_of m k) cur found)) in
        (
          (
            record m {
              kvpairs = set m.kvpairs (home k m.size) (replace k node (bucket_of m k));
              map_lock = false;
              disk = d;
            },
            r,
          ),
          rw (found, store, run₁, run) refl,
          record {
            valid = record {
              positive = positive;
              placed =
                  set-IsPlaced placed (home k m.size) (home-lt k m.size positive) _
                    (λ q. small_after _ q (inl (copies-replace k q node named (bucket_of m k))));
              map_free = refl;
              write_free = keeps.locked ∙ keeps₁.locked ∙ write_free;
            };
            reads =
                reads_after _ node val (λ q. find-replace k q node named (bucket_of m k) cur found);
            steady = record { factor = refl; count = omega arith };
            in_ram = λ ram.
                let (_, same₁) = memory₁ ram.0 in
                let t = memory (ap (λ (d : Disk). d.dbfile) same₁ ∙ ram.0) in
                (
                  t.0 ∙ ap (λ (d : Disk). no_file d.filename) same₁ ∙ no_file-InRam m.disk ram,
                  t.1 ∙ same₁,
                );
          },
        )
  ]

-- From a valid table that can grow `put` ends; the table stays valid, the key has the value, and every
-- other key has what it had, also when the table grows on the way.
pub put-Writes :
    (m : NoVoHt) (k v : Bytes)
    → IsValid m
    → can_grow m ≡ true
    → Returns (put k v m) (Writes m k (some v) (pos 0))
unfolding put values
put-Writes m k v valid room =
    let locked : NoVoHt = record m { map_lock = true } in
    let (grown, grows, t) = grow-Grown locked valid.positive valid.placed room in
    let (r, run, w) =
      store-Writes grown t.positive t.placed
        (ap (λ (d : Disk). d.write_lock) t.same_disk ∙ valid.write_free) k v in
    (
      r,
      rw (valid.map_free, grows, slot-home k _ t.positive) run,
      record {
        valid = w.valid;
        reads = λ q. ground (arith, w.reads q, t.reads q);
        steady = record {
          factor = w.steady.factor ∙ t.same_factor;
          count = omega (arith, w.steady.count, t.fewer);
        };
        in_ram = λ ram. rw t.same_disk at (w.in_ram (rw t.same_disk ram));
      },
    )
