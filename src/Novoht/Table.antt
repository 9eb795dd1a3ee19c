-- ===== src/Novoht/Table.antt =====
-- The class NoVoHT of novoht.h and its operations. The program has one thread, so a busy wait on a
-- lock that is held never ends; `none` stands for that, and for undefined behaviour: the division by
-- a zero size, a size that overflows its `int`, a write past a buffer.
use fusionfs_cache.Prelude.{
  ℕ, zero, suc, ◌+◌, ◌*◌, ◌%◌, Bool, true, false, not, ◌&&◌, Option, none, some, List, [], ◌∷◌,
  ◌++◌, Bytes, eqb, length, get_or, set, replicate, ◌==◌, ltb, if◌then◌else◌, ◌>>=◌, ℤ, pos, negsuc,
  ◌+ℤ◌,
}
use fusionfs_cache.Novoht.Chain.{KvPair, Chain, value, find, replace, erase}
use fusionfs_cache.Novoht.Disk.{DbFile, Disk, fprint, line, no_file, write, mark, read_tab_string}
use fusionfs_cache.Novoht.Hash.{hash}

-- `float resizeNum`, as the two tests that the code makes: resizeNum != 0 and
-- numEl >= size * resizeNum. The floating-point product is a parameter.
pub record LoadFactor : Type 0 where
  pub nonzero : Bool
  pub reached : ℤ → ℕ → Bool

-- class NoVoHT
pub record NoVoHt : Type 0 where
  pub size : ℕ
  pub kvpairs : List Chain
  pub map_lock : Bool
  pub num_el : ℤ
  pub disk : Disk
  pub n_rem : ℕ
  pub magic_number : ℕ
  pub resize_num : LoadFactor

-- hash(k) % size
unfoldable pub slot : Bytes → ℕ → Option ℕ
slot k zero = none
slot k (suc n) = some (hash k % suc n)

-- A node moves to the head of its new bucket.
unfoldable pub relink : KvPair → List Chain → List Chain
relink e bs = let i = hash e.key % length bs in set bs i (e ∷ get_or bs i [])

unfoldable pub relink_chain : Chain → List Chain → List Chain
unfolding relink
relink_chain [] bs = bs
relink_chain (e ∷ c) bs = relink_chain c (relink e bs)

unfoldable pub relink_all : List Chain → List Chain → List Chain
unfolding relink_chain
relink_all [] bs = bs
relink_all (c ∷ cs) bs = relink_all cs (relink_chain c bs)

-- The numbers that an `int` has no room for: 2 ^ 31 and above.
abbrev pub int_limit : ℕ
int_limit = 2147483648

-- NoVoHT::resize; the new size is an `int`, and the product that the caller computes overflows if it
-- does not fit.
unfoldable pub resize : ℕ → NoVoHt → Option NoVoHt
unfolding relink_all
resize ns m =
    if not (ltb ns int_limit)
    then none
    else some
        (record m { size = ns; num_el = pos 0; kvpairs = relink_all m.kvpairs (replicate ns []) })

-- The test at the head of `put`.
unfoldable pub grow : NoVoHt → Option NoVoHt
unfolding resize
grow m =
    if m.resize_num.reached m.num_el m.size && m.resize_num.nonzero
    then resize (m.size * 2) m
    else some m

-- The end of `put`, in bucket `i`: a new node at the tail of the chain, or a new value.
unfoldable pub store : ℕ → Bytes → Bytes → NoVoHt → Option KvPair → Option (NoVoHt × ℤ)
store i k v m none = do
  (add, d, r) ← write (record { key = k; val = v; file_pos = 0 }) m.disk
  some (
    record m {
      kvpairs = set m.kvpairs i (get_or m.kvpairs i [] ++ add ∷ []);
      num_el = m.num_el +ℤ pos 1;
      map_lock = false;
      disk = d;
    },
    r,
  )
store i k v m (some cur) = do
  (marked, _) ← mark cur.file_pos m.disk
  (node, d, r) ← write (record cur { val = v }) marked
  some (
    record m {
      kvpairs = set m.kvpairs i (replace k node (get_or m.kvpairs i []));
      map_lock = false;
      disk = d;
    },
    r,
  )

-- NoVoHT::put
unfoldable pub put : Bytes → Bytes → NoVoHt → Option (NoVoHt × ℤ)
unfolding grow slot store
put k v m = if m.map_lock then none else do
  grown ← grow (record m { map_lock = true })
  i ← slot k grown.size
  store i k v grown (find k (get_or grown.kvpairs i []))

-- NoVoHT::get; the loop does not start at an empty key
unfoldable pub get : Bytes → NoVoHt → Option (Option Bytes)
unfolding slot
get k m = if m.map_lock then none else do
  i ← slot k m.size
  some (if eqb k [] then none else value (find k (get_or m.kvpairs i [])))

-- The body of the loops of `writeFile`: an entry with a key and a value gets a new position.
unfoldable pub print_entry : KvPair → DbFile → KvPair × DbFile
print_entry e f =
    if not (eqb e.key []) && not (eqb e.val [])
    then (record e { file_pos = f.offset }, fprint (line e) f)
    else (e, f)

unfoldable pub write_chain : Chain → DbFile → Chain × DbFile
unfolding print_entry
write_chain [] f = ([], f)
write_chain (e ∷ c) f =
    let (e', f') = print_entry e f in let (c', f'') = write_chain c f' in (e' ∷ c', f'')

unfoldable pub write_chains : List Chain → DbFile → List Chain × DbFile
unfolding write_chain
write_chains [] f = ([], f)
write_chains (c ∷ cs) f =
    let (c', f') = write_chain c f in let (cs', f'') = write_chains cs f' in (c' ∷ cs', f'')

unfoldable pub write_file_db : NoVoHt → Option DbFile → NoVoHt × ℤ
unfolding write_chains
write_file_db m none = (m, no_file m.disk.filename)
write_file_db m (some _) =
    let (bs, f) = write_chains m.kvpairs (record { content = []; offset = 0 }) in
    (record m { kvpairs = bs; disk = record m.disk { dbfile = some f } }, pos 0)

-- NoVoHT::writeFile; `rewind` and `ftruncate` empty the file first
unfoldable pub write_file : NoVoHt → Option (NoVoHt × ℤ)
unfolding write_file_db
write_file m = if m.disk.write_lock then none else some (write_file_db m m.disk.dbfile)

-- The common end of both branches of `remove`.
unfoldable pub removed : ℤ → NoVoHt → Option (NoVoHt × ℤ)
removed ret m =
    let counted = record m { n_rem = m.n_rem + 1 } in
    if m.n_rem + 1 == m.magic_number
    then (do (saved, r) ← write_file counted; some (record saved { n_rem = 0 }, ret +ℤ r))
    else some (counted, ret)

unfoldable pub unlink : ℕ → Bytes → NoVoHt → Option KvPair → Option (NoVoHt × ℤ)
unfolding removed
unlink i k m none = some (m, negsuc 0)
unlink i k m (some r) = do
  (d, ret) ← mark r.file_pos m.disk
  removed ret (record m {
    kvpairs = set m.kvpairs i (erase k (get_or m.kvpairs i []));
    num_el = m.num_el +ℤ negsuc 0;
    disk = d;
  })

-- NoVoHT::remove
unfoldable pub remove : Bytes → NoVoHt → Option (NoVoHt × ℤ)
unfolding slot unlink
remove k m =
    if m.map_lock then none else do i ← slot k m.size; unlink i k m (find k (get_or m.kvpairs i []))

-- key[0] != '~'
unfoldable pub is_live : Bytes → Bool
is_live [] = true
is_live (c ∷ _) = not (c == b'~')

abbrev pub set_file : DbFile → NoVoHt → NoVoHt
set_file f m = record m { disk = record m.disk { dbfile = some f } }

-- The loop of `readFile`, on fuel: every round takes at least one byte of the file.
unfoldable pub read_entries : ℕ → NoVoHt → Option NoVoHt
read_entries zero m = none
read_entries (suc fuel) m = elim m.disk.dbfile [
  | none ↦ some m
  | some f ↦ elim (read_tab_string f) [
    | none ↦ none
    | some (none, f₁) ↦ some (set_file f₁ m)
    | some (some key, f₁) ↦ elim (read_tab_string f₁) [
      | none ↦ none
      | some (none, f₂) ↦ some (set_file f₂ m)
      | some (some val, f₂) ↦ elim (is_live key) [
        | true ↦ put key val (set_file f₂ m) >>= λ r. read_entries fuel r.0
        | false ↦ read_entries fuel (set_file f₂ m)
      ]
    ]
  ]
]

-- NoVoHT::readFile, with fuel for every byte of the file
unfoldable pub read_file : NoVoHt → Option NoVoHt
unfolding read_entries write_file
read_file m = elim m.disk.dbfile [
  | none ↦ some m
  | some f ↦ do
    loaded ← read_entries (length f.content + 1) m
    (saved, _) ← write_file loaded
    some saved
]

-- The table before `readFile`: no entry, all locks free. `opened` is what the two calls of `fopen`
-- give.
unfoldable pub fresh : Bytes → ℕ → ℕ → LoadFactor → Option DbFile → NoVoHt
fresh f s m r opened = record {
  size = s;
  kvpairs = replicate s [];
  map_lock = false;
  num_el = pos 0;
  disk = record { dbfile = opened; filename = f; write_lock = false };
  n_rem = 0;
  magic_number = m;
  resize_num = r;
}

-- NoVoHT::NoVoHT(string f, int s, int m, float r)
unfoldable pub construct : Bytes → ℕ → ℕ → LoadFactor → Option DbFile → Option NoVoHt
unfolding fresh read_file
construct f s m r opened = read_file (fresh f s m r opened)
