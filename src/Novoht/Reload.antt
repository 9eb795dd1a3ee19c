-- ===== src/Novoht/Reload.antt =====
-- What a table has that is opened on a file: `readFile` of src/zht/src/common/novoht.cpp.
use fusionfs_cache.Novoht.Chain.{KvPair, find, replace}
use fusionfs_cache.Novoht.Disk.{
  DbFile, Disk, fprint, seek_end, line, write, write_db, mark, mark_db, read_tab_string,
}
use fusionfs_cache.Novoht.Placed.{home, slot-home}
use fusionfs_cache.Novoht.Refines.{values, IsValid, can_grow, grow-Grown}
use fusionfs_cache.Novoht.Refines.Put.{put-Writes}
use fusionfs_cache.Novoht.Table.{NoVoHt, store, put, is_live, set_file, read_entries}
use fusionfs_cache.Prelude.{
  ℕ, zero, suc, ◌+◌, ◌-◌, ◌≤◌, ◌≡◌, refl, sym, ap, ◌∙◌, true, false, Option, none, some,
  Option-cases, inl, inr, Returns, [], ◌∷◌, ◌++◌, arith, Bytes, eqb, length, take, drop, replicate,
  length-append, get_or, set, ◌+ℤ◌, if◌then◌else◌, ℤ, pos, subst,
}

-- An open file, and one whose position is its end.
Open : Option DbFile → Type 0
Open none = ⊥
Open (some f) = Unit

Ended : Option DbFile → Type 0
Ended none = ⊥
Ended (some f) = f.offset ≡ length f.content

take-length : (c : Bytes) → take (length c) c ≡ c
take-length [] = refl
take-length (x ∷ c) = ap (λ r. x ∷ r) (take-length c)

drop_beyond : (n : ℕ) (c : Bytes) → length c ≤ n → drop n c ≡ []
drop_beyond zero [] h = refl
drop_beyond (suc n) [] h = refl
drop_beyond zero (x ∷ c) h = absurd (omega arith)
drop_beyond (suc n) (x ∷ c) h = drop_beyond n c (omega arith)

append_nil : (c : Bytes) → c ++ [] ≡ c
append_nil [] = refl
append_nil (x ∷ c) = ap (λ r. x ∷ r) (append_nil c)

no_gap : (n : ℕ) → n - n ≡ 0
no_gap n = omega arith

none_left : (n : ℕ) → replicate {A = ℕ} (n - n) 0 ≡ []
none_left n = rw (no_gap n) refl

-- Printing at the end leaves the position at the end.
fprint-Ended : (bs : Bytes) (f : DbFile) → Ended (some (fprint bs (seek_end f)))
unfolding fprint seek_end Ended
fprint-Ended bs f =
    rw
      (
        take-length f.content,
        none_left (length f.content),
        drop_beyond (length f.content + length bs) f.content (omega arith),
        append_nil f.content,
        append_nil (f.content ++ bs),
      )
      (sym (length-append f.content bs))

module _ (d : Disk) (opened : Open d.dbfile) (free : d.write_lock ≡ false) where
  write-Ended : (p : KvPair) → Returns (write p d) λ r. Ended r.1.dbfile
  unfolding write Open
  write-Ended p = (write_db p d d.dbfile, rw free, ends d.dbfile opened)
    where
      ends : (o : Option DbFile) → Open o → Ended (write_db p d o).1.dbfile
      ends none h = elim h [ ]
      ends (some f) h = fprint-Ended (line p) f

  mark-Open : (n : ℕ) → Returns (mark n d) λ r. Open r.0.dbfile × (r.0.write_lock ≡ false)
  unfolding mark Open
  mark-Open n = (mark_db n d d.dbfile, rw free, opens d.dbfile opened)
    where
      opens :
          (o : Option DbFile)
          → Open o
          → Open (mark_db n d o).0.dbfile × ((mark_db n d o).0.write_lock ≡ false)
      opens none h = elim h [ ]
      opens (some f) h = (tt, free)

store-Ended :
    (i : ℕ) (k v : Bytes) (m : NoVoHt) (o : Option KvPair)
    → Open m.disk.dbfile
    → m.disk.write_lock ≡ false
    → Returns (store i k v m o) λ r. Ended r.0.disk.dbfile
unfolding store
store-Ended i k v m none opened free =
    let (r, run, ended) =
      write-Ended m.disk opened free (record { key = k; val = v; file_pos = 0 }) in
    (
      (
        record m {
          kvpairs = set m.kvpairs i (get_or m.kvpairs i [] ++ r.0 ∷ []);
          num_el = m.num_el +ℤ pos 1;
          map_lock = false;
          disk = r.1;
        },
        r.2,
      ),
      rw run refl,
      ended,
    )
store-Ended i k v m (some cur) opened free =
    let (t, run₁, (open₁, free₁)) = mark-Open m.disk opened free cur.file_pos in
    let (r, run, ended) = write-Ended t.0 open₁ free₁ (record cur { val = v }) in
    (
      (
        record m {
          kvpairs = set m.kvpairs i (replace k r.0 (get_or m.kvpairs i []));
          map_lock = false;
          disk = r.1;
        },
        r.2,
      ),
      rw (run₁, run) refl,
      ended,
    )

-- Behind an insertion the position is at the end of the file.
put-Ended :
    (m : NoVoHt) (k v : Bytes)
    → IsValid m
    → can_grow m ≡ true
    → Open m.disk.dbfile
    → Returns (put k v m) λ r. Ended r.0.disk.dbfile
unfolding put
put-Ended m k v valid room opened =
    let locked : NoVoHt = record m { map_lock = true } in
    let (grown, grows, t) = grow-Grown locked valid.positive valid.placed room in
    let (r, run, ended) =
      store-Ended (home k grown.size) k v grown
        (find k (get_or grown.kvpairs (home k grown.size) []))
        (subst (λ (d : Disk). Open d.dbfile) (sym t.same_disk) opened)
        (ap (λ (d : Disk). d.write_lock) t.same_disk ∙ valid.write_free) in
    (r, rw (valid.map_free, grows, slot-home k grown.size t.positive) run, ended)

-- At the end of the file nothing is read.
read-Ended :
    (f : DbFile) → Ended (some f) → (after : DbFile) × (read_tab_string f ≡ some (none, after))
unfolding read_tab_string Ended
read-Ended f ended =
    let nothing : drop f.offset f.content ≡ [] =
      drop_beyond f.offset f.content (omega (arith, ended)) in
    (record f { offset = f.offset + 0 }, rw (nothing, nothing) refl)

-- One round of the loop: at the end, and at a live entry.
at_end :
    (fuel : ℕ) (m : NoVoHt) (g after : DbFile)
    → m.disk.dbfile ≡ some g
    → read_tab_string g ≡ some (none, after)
    → read_entries (suc fuel) m ≡ some (set_file after m)
unfolding read_entries
at_end fuel m g after opened nothing = rw (opened, read_entries) (rw (nothing, read_entries) refl)

one_round :
    (m : NoVoHt) (f f₁ f₂ : DbFile) (key val : Bytes) (fuel : ℕ) (r : NoVoHt × ℤ) (x : NoVoHt)
    → m.disk.dbfile ≡ some f
    → read_tab_string f ≡ some (some key, f₁)
    → read_tab_string f₁ ≡ some (some val, f₂)
    → is_live key ≡ true
    → put key val (set_file f₂ m) ≡ some r
    → read_entries fuel r.0 ≡ some x
    → read_entries (suc fuel) m ≡ some x
unfolding read_entries
one_round m f f₁ f₂ key val fuel r x opened first second live run ends =
    rw (opened, read_entries)
      (rw (first, read_entries) (rw (second, read_entries) (rw (live, read_entries) (rw run ends))))

-- The loop of `readFile` ends where nothing is left to read.
read_entries-Ended :
    (fuel : ℕ) (m : NoVoHt)
    → Ended m.disk.dbfile
    → Returns (read_entries (suc fuel) m) λ r. (q : Bytes) → values r q ≡ values m q
unfolding read_entries values Ended
read_entries-Ended fuel m ended = elim (Option-cases m.disk.dbfile) [
  | inl e ↦ absurd (subst Ended e ended)
  | inr (g, e) ↦
      let (after, nothing) = read-Ended g (subst Ended e ended) in
      (set_file after m, at_end fuel m g after e nothing, λ q. refl)
]

some-injective : (a b : NoVoHt × ℤ) → some a ≡ some b → a ≡ b
some-injective a b h = cc

-- The loop of `readFile` at a valid table whose first entry is live, with a key and a value that fit
-- their buffers, ends, on any fuel for two rounds or more, and puts this entry and no other: what stands
-- behind it in the file is lost. The table's doubled size fits an `int` if the table is to grow now.
pub read_entries-first :
    (m : NoVoHt) (f f₁ f₂ : DbFile) (key val : Bytes) (fuel : ℕ)
    → IsValid m
    → can_grow m ≡ true
    → m.disk.dbfile ≡ some f
    → read_tab_string f ≡ some (some key, f₁)
    → read_tab_string f₁ ≡ some (some val, f₂)
    → is_live key ≡ true
    → Returns
        (read_entries (suc (suc fuel)) m)
        λ r. (q : Bytes) → values r q ≡ (if eqb q key then some val else values m q)
unfolding read_entries values Open
read_entries-first m f f₁ f₂ key val fuel valid room opened first second live =
    let valid₂ : IsValid (set_file f₂ m) = record {
      positive = valid.positive;
      placed = valid.placed;
      map_free = valid.map_free;
      write_free = valid.write_free;
    } in
    let (r, run, w) = put-Writes (set_file f₂ m) key val valid₂ room in
    let (r', run', ended) = put-Ended (set_file f₂ m) key val valid₂ room tt in
    let (x, ends, same) = read_entries-Ended fuel r.0 (
      subst (λ (t : NoVoHt × ℤ). Ended t.0.disk.dbfile) (some-injective r' r (sym run' ∙ run))
        ended) in
    (
      x,
      one_round m f f₁ f₂ key val (suc fuel) r x opened first second live run ends,
      λ q. same q ∙ w.reads q,
    )
