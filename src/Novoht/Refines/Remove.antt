-- ===== src/Novoht/Refines/Remove.antt =====
-- NoVoHT::remove (novoht.cpp) takes the key out and changes no other key.
use fusionfs_cache.Prelude.{
  ◌+◌, ◌≤◌, ◌≡◌, refl, ◌∙◌, ap, Option, none, some, [], arith, Bytes, eqb, eqb→eq, get_or, set,
  ◌==◌, if◌then◌else◌, ◌>>=◌, Returns, Bool-cases, inl, inr, ℤ, pos, negsuc, ◌+ℤ◌,
}
use fusionfs_cache.Novoht.Chain.{KvPair, value, find, erase, copies, find-erase, copies-erase-le}
use fusionfs_cache.Novoht.Disk.{mark-Returns}
use fusionfs_cache.Novoht.Placed.{home, home-lt, slot-home, quota, view, set-IsPlaced, view-set}
use fusionfs_cache.Novoht.Refines.{values, IsValid, InRam, no_file-InRam, Writes, elements-less}
use fusionfs_cache.Novoht.Saved.{Saves, write_file-Returns}
use fusionfs_cache.Novoht.Table.{NoVoHt, removed, unlink, remove}

-- The counter and the periodic save keep the map.
pub record Counts (m : NoVoHt) (ret : ℤ) (r : NoVoHt × ℤ) : Type 0 where
  pub valid : IsValid r.0
  pub reads : (q : Bytes) → values r.0 q ≡ values m q
  pub factor : r.0.resize_num ≡ m.resize_num
  pub count : r.0.num_el ≡ m.num_el
  pub in_ram : InRam m.disk → ret ≡ pos 0 → (r.1 ≡ pos 0) × (r.0.disk ≡ m.disk)

Saves-IsValid :
    {m saved : NoVoHt} → Saves m saved → IsValid m → IsValid (record saved { n_rem = 0 })
Saves-IsValid {m} {saved} t valid = record {
  positive = omega (arith, t.size, valid.positive);
  placed = rw t.size (t.placed valid.placed);
  map_free = t.map_lock ∙ valid.map_free;
  write_free = t.disk.locked ∙ valid.write_free;
}

Saves-reads :
    {m saved : NoVoHt}
    → Saves m saved
    → (q : Bytes) → values (record saved { n_rem = 0 }) q ≡ values m q
unfolding values
Saves-reads t q = rw t.size (t.reads q)

counted_IsValid : {m : NoVoHt} → IsValid m → IsValid (record m { n_rem = m.n_rem + 1 })
counted_IsValid valid = record {
  positive = valid.positive;
  placed = valid.placed;
  map_free = valid.map_free;
  write_free = valid.write_free;
}

removed-Counts : (ret : ℤ) (m : NoVoHt) → IsValid m → Returns (removed ret m) (Counts m ret)
unfolding removed values ◌+ℤ◌
removed-Counts ret m valid = elim (Bool-cases (m.n_rem + 1 == m.magic_number)) [
  | inr later ↦ (
    (record m { n_rem = m.n_rem + 1 }, ret),
    rw later refl,
    record {
      valid = counted_IsValid valid;
      reads = λ q. refl;
      factor = refl;
      count = refl;
      in_ram = λ ram zero_ret. (zero_ret, refl);
    },
  )
  | inl now ↦
      let ((saved, r), run, (t, memory)) =
        write_file-Returns (record m { n_rem = m.n_rem + 1 }) valid.write_free in
      (
        (record saved { n_rem = 0 }, ret +ℤ r),
        rw (now, run) refl,
        record {
          valid = Saves-IsValid t (counted_IsValid valid);
          reads = Saves-reads t;
          factor = t.factor;
          count = t.count;
          in_ram = λ ram zero_ret.
              let (code, same) = memory ram.0 in
              (rw (zero_ret, code, no_file-InRam m.disk ram) refl, same);
        },
      )
]

absent_lem :
    (m : NoVoHt) (k q : Bytes)
    → values m k ≡ none
    → values m q ≡ (if eqb q k then none else values m q)
absent_lem m k q gone = elim (Bool-cases (eqb q k)) [
  | inl same ↦ rw same (rw (eqb→eq q k same) gone)
  | inr other ↦ rw other refl
]

-- The result of `remove` on a table without a file.
abbrev pub status_of_remove : Option Bytes → ℤ
status_of_remove none = negsuc 0
status_of_remove (some _) = pos 0

erase-le-quota :
    (m : NoVoHt) (k q : Bytes)
    → IsValid m
    → copies q (erase k (get_or m.kvpairs (home k m.size) [])) ≤ quota m.size q (home k m.size)
erase-le-quota m k q valid = omega (
  arith,
  copies-erase-le k q (get_or m.kvpairs (home k m.size) []),
  valid.placed.apart q (home k m.size),
)

erase_reads :
    (m : NoVoHt) (k q : Bytes)
    → IsValid m
    → value (
        view m.size
          (set m.kvpairs (home k m.size) (erase k (get_or m.kvpairs (home k m.size) [])))
          q)
      ≡ (if eqb q k then none else value (view m.size m.kvpairs q))
unfolding view
erase_reads m k q valid =
    let c = get_or m.kvpairs (home k m.size) [] in
    let once : copies q c ≤ 1 = ground (arith, valid.placed.apart q (home k m.size)) in
    rw (view-set valid.placed (home k m.size) (home-lt k m.size valid.positive) (erase k c) q)
      (ground (arith, find-erase k q c once, eqb→eq q k))

unlink-Writes :
    (m : NoVoHt) (k : Bytes) (o : Option KvPair)
    → IsValid m
    → find k (get_or m.kvpairs (home k m.size) []) ≡ o
    → Returns (unlink (home k m.size) k m o) (Writes m k none (status_of_remove (value o)))
unfolding unlink
unlink-Writes m k none valid e = (
  (m, negsuc 0),
  refl,
  record {
    valid = valid;
    reads = λ q. absent_lem m k q (unfold values view in ap value e);
    steady = record { factor = refl; count = omega arith };
    in_ram = λ ram. (refl, refl);
  },
)
unlink-Writes m k (some r) valid e =
    let ((d, ret), run₁, (keeps, memory)) = mark-Returns r.file_pos m.disk valid.write_free in
    let c = erase k (get_or m.kvpairs (home k m.size) []) in
    let lt = home-lt k m.size valid.positive in
    let cut : NoVoHt = record m {
      kvpairs = set m.kvpairs (home k m.size) c;
      num_el = m.num_el +ℤ negsuc 0;
      disk = d;
    } in
    let (after, run₂, t) = removed-Counts ret cut (record {
      positive = valid.positive;
      placed = set-IsPlaced valid.placed (home k m.size) lt c (λ q. erase-le-quota m k q valid);
      map_free = valid.map_free;
      write_free = keeps.locked ∙ valid.write_free;
    }) in
    (
      after,
      rw (run₁, ◌>>=◌) run₂,
      record {
        valid = t.valid;
        reads = λ q. t.reads q ∙ unfold values view in erase_reads m k q valid;
        steady = record { factor = t.factor; count = rw t.count (elements-less m.num_el) };
        in_ram = λ ram.
            let (code, same) = memory ram.0 in
            let (zero_ret, kept) = t.in_ram (rw same ram) (code ∙ no_file-InRam m.disk ram) in
            (zero_ret, kept ∙ same);
      },
    )

-- From a valid table `remove` ends; the key has no value, every other key has what it had, and the
-- result on a table without a file is 0 exactly if the key was there, and else -1.
pub remove-Writes :
    (m : NoVoHt) (k : Bytes)
    → IsValid m
    → Returns (remove k m) (Writes m k none (status_of_remove (values m k)))
unfolding remove
remove-Writes m k valid =
    simp (valid.map_free, slot-home k m.size valid.positive)
      (unfold values view in unlink-Writes m k _ valid refl)
