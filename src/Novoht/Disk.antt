-- ===== src/Novoht/Disk.antt =====
-- The file behind a table: `write`, `mark` and `readTabString` of novoht.cpp. A file is its bytes
-- and the position of its stream; the busy waits `while (write_lock) {}` end only if the lock is
-- free, and `none` stands for one that does not end, or for a write past a buffer.
use fusionfs_cache.Prelude.{
  ℕ, zero, suc, ◌+◌, ◌-◌, ◌≡◌, refl, Bool, true, false, not, Option, none, some, [], ◌∷◌, ◌++◌,
  arith, Bytes, eqb, c_str, length, take, drop, replicate, ◌==◌, ltb, if◌then◌else◌, Returns, ℤ,
  pos, negsuc,
}
use fusionfs_cache.Novoht.Chain.{KvPair}

-- FILE *dbfile
pub record DbFile : Type 0 where
  pub content : Bytes
  pub offset : ℕ

pub record Disk : Type 0 where
  pub dbfile : Option DbFile
  pub filename : Bytes
  pub write_lock : Bool

-- fprintf, fputc: the bytes replace what stands at the position, which moves behind them. Past the
-- end of the file the gap is filled with zeros.
unfoldable pub fprint : Bytes → DbFile → DbFile
fprint bs f =
    let c = f.content in
    let before = take f.offset c ++ replicate (f.offset - length c) 0 in
    record {
      content = before ++ bs ++ drop (f.offset + length bs) c;
      offset = f.offset + length bs;
    }

-- fseek(dbfile, 0, SEEK_END)
unfoldable pub seek_end : DbFile → DbFile
seek_end f = record f { offset = length f.content }

-- What `fprintf(dbfile, "%s\t%s\t", ...)` prints of an entry.
unfoldable pub line : KvPair → Bytes
line p = c_str p.key ++ 9 ∷ c_str p.val ++ 9 ∷ []

-- The result of an operation with no open file.
unfoldable pub no_file : Bytes → ℤ
no_file filename = if eqb filename [] then pos 0 else negsuc 1

pub write_db : KvPair → Disk → Option DbFile → KvPair × Disk × ℤ
unfolding fprint seek_end line no_file
write_db p d none = (p, d, no_file d.filename)
write_db p d (some f) =
    let e = seek_end f in
    (record p { file_pos = e.offset }, record d { dbfile = some (fprint (line p) e) }, pos 0)

-- NoVoHT::write; the entry comes back with the position that `fgetpos` stores in it
unfoldable pub write : KvPair → Disk → Option (KvPair × Disk × ℤ)
unfolding write_db
write p d = if d.write_lock then none else some (write_db p d d.dbfile)

pub mark_db : ℕ → Disk → Option DbFile → Disk × ℤ
unfolding fprint no_file
mark_db position d none = (d, no_file d.filename)
mark_db position d (some f) =
    (record d { dbfile = some (fprint (b'~' ∷ []) (record f { offset = position })) }, pos 0)

-- NoVoHT::mark
unfoldable pub mark : ℕ → Disk → Option (Disk × ℤ)
unfolding mark_db
mark position d = if d.write_lock then none else some (mark_db position d d.dbfile)

-- The loop of `readTabString` over the rest of the file: the bytes kept, how many were taken from
-- the file, and whether it stopped at a tab. The byte 255 reads as EOF, since `t` is a char. With
-- no room left one more byte is taken and dropped.
pub record TabScan : Type 0 where
  pub kept : Bytes
  pub taken : ℕ
  pub tabbed : Bool

scan_tab : ℕ → Bytes → TabScan
scan_tab room [] = record { kept = []; taken = 0; tabbed = false }
scan_tab zero (t ∷ rest) = record { kept = []; taken = 1; tabbed = false }
scan_tab (suc room) (t ∷ rest) =
    let s = scan_tab room rest in
    if t == 255
    then record { kept = []; taken = 1; tabbed = false }
    else if t == 9
    then record { kept = []; taken = 1; tabbed = true }
    else record { kept = t ∷ s.kept; taken = s.taken + 1; tabbed = s.tabbed }

-- sizeof(s), sizeof(v) in `readFile`
abbrev pub field_size : ℕ
field_size = 300

-- readTabString, with a buffer of `readFile`; the inner `none` is NULL. The string that the caller
-- builds ends at a zero byte. Behind 300 bytes kept the final zero byte goes past the buffer: the outer
-- `none`.
unfoldable pub read_tab_string : DbFile → Option (Option Bytes × DbFile)
unfolding scan_tab
read_tab_string f =
    let s = scan_tab 300 (drop f.offset f.content) in
    let after = record f { offset = f.offset + s.taken } in
    if not (ltb (length s.kept) field_size)
    then none
    else if s.tabbed
    then some (some (c_str s.kept), after)
    else elim s.kept [ [] ↦ some (none, after) | c ∷ cs ↦ some (some (c_str (c ∷ cs)), after) ]

-- What `write` and `mark` leave alone.
pub record Keeps (d e : Disk) : Type 0 where
  pub locked : e.write_lock ≡ d.write_lock
  pub named : e.filename ≡ d.filename

-- Without an open file nothing happens, and the result is that of `no_file`.
abbrev pub InMemory : Disk → Disk → ℤ → Type 0
InMemory d e r = d.dbfile ≡ none → (r ≡ no_file d.filename) × (e ≡ d)

pub write-Returns :
    (p : KvPair) (d : Disk)
    → d.write_lock ≡ false
    → Returns
        (write p d)
        λ r. (r.0.key ≡ p.key) × (r.0.val ≡ p.val) × Keeps d r.1 × InMemory d r.1 r.2
unfolding write
write-Returns p d free = (write_db p d d.dbfile, rw free, kept d.dbfile)
  where
    kept :
        (o : Option DbFile)
        → ((write_db p d o).0.key ≡ p.key)
          × ((write_db p d o).0.val ≡ p.val)
          × Keeps d (write_db p d o).1
          × (o ≡ none → ((write_db p d o).2 ≡ no_file d.filename) × ((write_db p d o).1 ≡ d))
    kept none = ground arith
    kept (some f) = (refl, refl, record { locked = refl; named = refl }, λ h. cc)

pub mark-Returns :
    (position : ℕ) (d : Disk)
    → d.write_lock ≡ false
    → Returns (mark position d) λ r. Keeps d r.0 × InMemory d r.0 r.1
unfolding mark
mark-Returns position d free = (mark_db position d d.dbfile, rw free, kept d.dbfile)
  where
    kept :
        (o : Option DbFile)
        → Keeps d (mark_db position d o).0
          × (o ≡ none
              → ((mark_db position d o).1 ≡ no_file d.filename) × ((mark_db position d o).0 ≡ d))
    kept none = ground arith
    kept (some f) = (record { locked = refl; named = refl }, λ h. cc)
