-- ===== src/Novoht/Saved.antt =====
-- NoVoHT::writeFile (novoht.cpp) changes no key and no value of the table.
use fusionfs_cache.Prelude.{
  ℕ, zero, suc, ◌≡◌, refl, ap, Bool, true, false, not, ◌&&◌, Option, none, some, List, [], ◌∷◌,
  arith, Bytes, eqb, length, get_or, if◌then◌else◌, Returns, Bool-cases, inl, inr, ◌+◌,
}
use fusionfs_cache.Novoht.Chain.{KvPair, Chain, value, find, copies, to_nat}
use fusionfs_cache.Novoht.Disk.{DbFile, Keeps, InMemory, no_file}
use fusionfs_cache.Novoht.Placed.{home, IsPlaced, view}
use fusionfs_cache.Novoht.Table.{
  NoVoHt, print_entry, write_chain, write_chains, write_file, write_file_db,
}

print_entry_lem :
    (e : KvPair) (f : DbFile)
    → ((print_entry e f).0.key ≡ e.key) × ((print_entry e f).0.val ≡ e.val)
unfolding print_entry
print_entry_lem e f = elim (Bool-cases (not (eqb e.key []) && not (eqb e.val []))) [
  | inl printed ↦ rw printed (refl, refl)
  | inr skipped ↦ rw skipped (refl, refl)
]

value-if :
    (b : Bool) (e e' : KvPair) (x y : Option KvPair)
    → e'.val ≡ e.val
    → value x ≡ value y
    → value (if b then some e' else x) ≡ value (if b then some e else y)
value-if true e e' x y v h = ap some v
value-if false e e' x y v h = h

write_chain_lem :
    (c : Chain) (f : DbFile) (q : Bytes)
    → (value (find q (write_chain c f).0) ≡ value (find q c))
      × (copies q (write_chain c f).0 ≡ copies q c)
unfolding write_chain find copies
write_chain_lem [] f q = (refl, refl)
write_chain_lem (e ∷ c) f q =
    let (keys, vals) = print_entry_lem e f in
    let ih = write_chain_lem c (print_entry e f).1 q in
    rw keys (
      value-if (eqb q e.key) e (print_entry e f).0 _ (find q c) vals ih.0,
      ap (λ n. to_nat (eqb q e.key) + n) ih.1,
    )

length-write_chains : (cs : List Chain) (f : DbFile) → length (write_chains cs f).0 ≡ length cs
unfolding write_chains
length-write_chains [] f = refl
length-write_chains (c ∷ cs) f = ap suc (length-write_chains cs (write_chain c f).1)

write_chains_lem :
    (cs : List Chain) (f : DbFile) (q : Bytes) (i : ℕ)
    → (value (find q (get_or (write_chains cs f).0 i [])) ≡ value (find q (get_or cs i [])))
      × (copies q (get_or (write_chains cs f).0 i []) ≡ copies q (get_or cs i []))
unfolding write_chains
write_chains_lem [] f q i = (refl, refl)
write_chains_lem (c ∷ cs) f q zero = write_chain_lem c f q
write_chains_lem (c ∷ cs) f q (suc i) = write_chains_lem cs (write_chain c f).1 q i

-- What a save leaves alone.
pub record Saves (m r : NoVoHt) : Type 0 where
  pub size : r.size ≡ m.size
  pub placed : IsPlaced m.size m.kvpairs → IsPlaced m.size r.kvpairs
  pub reads : (q : Bytes) → value (view m.size r.kvpairs q) ≡ value (view m.size m.kvpairs q)
  pub map_lock : r.map_lock ≡ m.map_lock
  pub disk : Keeps m.disk r.disk
  pub factor : r.resize_num ≡ m.resize_num
  pub count : r.num_el ≡ m.num_el

pub write_file-Returns :
    (m : NoVoHt)
    → m.disk.write_lock ≡ false
    → Returns (write_file m) λ r. Saves m r.0 × InMemory m.disk r.0.disk r.1
unfolding write_file view
write_file-Returns m free = (write_file_db m m.disk.dbfile, rw free, saves m.disk.dbfile)
  where
    start : DbFile
    start = record { content = []; offset = 0 }

    saves :
        (o : Option DbFile)
        → Saves m (write_file_db m o).0
          × (o ≡ none
              → ((write_file_db m o).1 ≡ no_file m.disk.filename)
                × ((write_file_db m o).0.disk ≡ m.disk))
    saves none = (
      record {
        size = refl;
        placed = λ p. p;
        reads = λ q. refl;
        map_lock = refl;
        disk = record { locked = refl; named = refl };
        factor = refl;
        count = refl;
      },
      λ h. (refl, refl),
    )
    saves (some f) = (
      record {
        size = refl;
        placed = λ p. record {
          width = omega (arith, length-write_chains m.kvpairs start, p.width);
          apart = λ q i. omega (arith, (write_chains_lem m.kvpairs start q i).1, p.apart q i);
        };
        reads = λ q. (write_chains_lem m.kvpairs start q (home q m.size)).0;
        map_lock = refl;
        disk = record { locked = refl; named = refl };
        factor = refl;
        count = refl;
      },
      λ h. cc,
    )
