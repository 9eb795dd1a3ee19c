-- ===== src/Checks/Tables.antt =====
-- The hash table and the hashing at concrete inputs: a table of one bucket that grows.
use fusionfs_cache.Novoht.Disk.{DbFile, write, read_tab_string}
use fusionfs_cache.Novoht.Hash.{hash}
use fusionfs_cache.Novoht.History.{
  Request, put_value, get_value, remove_value, Answer, status, found, perform_all, expected, Fills,
  fresh-expected, Stores, put-Stores,
}
use fusionfs_cache.Novoht.Placed.{IsPlaced, view, quota, home}
use fusionfs_cache.Novoht.Refines.{values, IsValid, fresh-IsValid}
use fusionfs_cache.Novoht.Chain.{KvPair, Chain, copies, to_nat, find}
use fusionfs_cache.Novoht.Table.{LoadFactor, NoVoHt, put, fresh, construct, read_entries, is_live}
use fusionfs_cache.Novoht.Reload.{read_entries-first}
use fusionfs_cache.Zht.Config.{
  Settings, atoi, key_value, client_variable, client_variables, set_variables, OneMore,
  client-OneMore,
}
use fusionfs_cache.Zht.Hashing.{myhash, hash_64bit_ring, polynomial, myhash-polynomial}
use fusionfs_cache.Prelude.{
  if◌then◌else◌, Option, ◌>>=◌, ℕ, zero, ◌≤◌, get_or, false, ◌+ℤ◌, ◌≡◌, refl, Bool, true, none,
  some, Returns, List, [], ◌∷◌, arith, Bytes, codes, eqb, leb, pos, negsuc, c_str, ◌%◌, ◌^◌, suc,
}

-- The table grows once it has as many entries as buckets.
abbrev pub full : LoadFactor
full = record { nonzero = true; reached = λ n s. elim n [ pos i ↦ leb s i | negsuc i ↦ leb 1 0 ] }

abbrev small : NoVoHt
small = fresh [] 1 100 full none

abbrev pub key_a : Bytes
key_a = codes "a"

abbrev pub key_b : Bytes
key_b = codes "b"

abbrev requests : List Request
requests =
    put_value key_a (codes "1")
    ∷ put_value key_b (codes "2")
    ∷ put_value key_a (codes "3")
    ∷ get_value key_a
    ∷ remove_value key_a
    ∷ get_value key_a
    ∷ get_value key_b
    ∷ remove_value key_a
    ∷ []

abbrev answers : List Answer
answers =
    status (pos 0)
    ∷ status (pos 0)
    ∷ status (pos 0)
    ∷ found (some (codes "3"))
    ∷ status (pos 0)
    ∷ found none
    ∷ found (some (codes "2"))
    ∷ status (negsuc 0)
    ∷ []

small-IsValid : IsValid small × ((q : Bytes) → values small q ≡ none)
small-IsValid = fresh-IsValid [] 1 100 full (omega arith)

full-Fills : Fills full
full-Fills (pos i) s h = ground (arith, h)
full-Fills (negsuc i) s h = ground (arith, h)

fresh-expected_example : perform_all requests small ≡ some answers
unfolding expected eqb
fresh-expected_example = fresh-expected requests 1 100 full (omega arith) full-Fills (omega arith)

-- A full table: the next insertion makes it grow.
abbrev pub entry_a : KvPair
entry_a = record { key = key_a; val = codes "1"; file_pos = 0 }

abbrev pub entries : List Chain
entries = (entry_a ∷ []) ∷ []

abbrev pub filled : NoVoHt
filled = record {
  size = 1;
  kvpairs = entries;
  map_lock = false;
  num_el = pos 1;
  disk = record { dbfile = none; filename = []; write_lock = false };
  n_rem = 0;
  magic_number = 100;
  resize_num = full;
}

to_nat-le : (b : Bool) → to_nat b ≤ 1
to_nat-le true = omega arith
to_nat-le false = omega arith

entries-apart : (q : Bytes) (i : ℕ) → copies q (get_or entries i []) ≤ quota 1 q i
unfolding copies home
entries-apart q zero = ground (arith, to_nat-le (eqb q key_a))
entries-apart q (suc i) = ground arith

pub entries-IsPlaced : IsPlaced 1 entries
entries-IsPlaced = record { width = refl; apart = entries-apart }

pub filled-IsValid : IsValid filled
filled-IsValid = record {
  positive = omega arith;
  placed = entries-IsPlaced;
  map_free = refl;
  write_free = refl;
}

-- The size doubles from 1 to 2.
put-Stores_example : Returns (put key_b (codes "2") filled) (Stores filled key_b (some (codes "2")))
put-Stores_example = put-Stores filled key_b (codes "2") filled-IsValid

myhash-polynomial_example :
    (myhash key_a 7 ≡ hash_64bit_ring key_a % 7)
    × (hash_64bit_ring key_a ≡ polynomial 0 key_a % 2 ^ 64)
unfolding c_str
myhash-polynomial_example = myhash-polynomial key_a 7

abbrev settings : Settings
settings = record { replication_type = negsuc 0; num_replicas = negsuc 0 }

abbrev client_settings : Settings
client_settings = record { replication_type = pos 1; num_replicas = pos 3 }

client-OneMore_example :
    Returns
      (set_variables (codes "REPLICATION_TYPE=1" ∷ codes "NUM_REPLICAS=2" ∷ []) settings)
      (OneMore client_settings)
unfolding client_variables client_variable key_value atoi eqb ◌+ℤ◌
client-OneMore_example =
    client-OneMore (codes "REPLICATION_TYPE=1") (codes "NUM_REPLICAS=2") [] (pos 1) (pos 2) settings
      settings client_settings refl refl refl

-- A file of two entries is opened again: the second is lost.
abbrev saved : DbFile
saved = record { content = codes "a\t1\tb\t2\t"; offset = 0 }

reloaded : Option (Option Bytes × Option Bytes)
unfolding construct values
reloaded = do m ← construct [] 4 100 full (some saved); some (values m key_a, values m key_b)

reloaded_lem : reloaded ≡ some (some (codes "1"), none)
unfolding reloaded c_str find hash write view home eqb read_tab_string is_live put
reloaded_lem = refl

abbrev reopened : NoVoHt
reopened = record filled {
  disk = record { dbfile = some saved; filename = codes "f"; write_lock = false };
}

reopened-IsValid : IsValid reopened
reopened-IsValid = record {
  positive = omega arith;
  placed = entries-IsPlaced;
  map_free = refl;
  write_free = refl;
}

read_entries-first_example :
    Returns
      (read_entries 9 reopened)
      λ r. (q : Bytes) → values r q ≡ (if eqb q key_a then some (codes "1") else values reopened q)
unfolding read_tab_string c_str is_live
read_entries-first_example =
    read_entries-first reopened saved (record saved { offset = 2 }) (record saved { offset = 4 })
      key_a (codes "1") 7 reopened-IsValid refl refl refl refl refl
