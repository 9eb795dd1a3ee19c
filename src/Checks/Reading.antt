-- ===== src/Checks/Reading.antt =====
-- A client reads what another inserted: the C interface of the ZHT client at a concrete input.
use fusionfs_cache.Checks.Packing.{pack, unpack, packing}
use fusionfs_cache.Checks.Servers.{insert_b, cache, client, host, no_nul, no_nul-NoNul}
use fusionfs_cache.Checks.Tables.{key_b}
use fusionfs_cache.Io.{Reply, result}
use fusionfs_cache.Prelude.{
  ℕ, zero, suc, ◌≡◌, refl, true, some, [], ◌++◌, arith, Bytes, codes, eqb, c_str, length, pos,
}
use fusionfs_cache.Zht.Client.Answers.{IsShort, IsConnected, touched, query}
use fusionfs_cache.Zht.Hashing.{myhash}
use fusionfs_cache.Zht.Interface.{strncpy, c_zht_lookup2}
use fusionfs_cache.Zht.Interface.Reading.{asks, c_zht_lookup2-received}

abbrev asked : Bytes
asked = pack (query packing cache (asks packing key_b))

-- The request of 15 bytes is sent, and the answer arrives.
abbrev answered : ℕ → Reply
answered zero = record { ret = pos 0; num = pos 0; payload = [] }
answered (suc zero) = record { ret = pos 15; num = pos 0; payload = [] }
answered (suc (suc i)) = record { ret = pos 18; num = pos 0; payload = codes "00" ++ pack insert_b }

asked-clean : no_nul asked ≡ true
unfolding pack unpack no_nul
asked-clean = refl

insert_b-clean : no_nul (pack insert_b) ≡ true
unfolding pack no_nul
insert_b-clean = refl

insert_b-IsShort : IsShort (some (pack insert_b))
unfolding IsShort pack
insert_b-IsShort = (no_nul-NoNul (pack insert_b) insert_b-clean, omega arith)

client-IsConnected : IsConnected packing cache (unpack (asks packing key_b)).virtualpath client
unfolding pack unpack myhash c_str
client-IsConnected = record { tcp = refl; dest = host; listed = refl; cached = refl }

asked-sent : (answered 1).ret ≡ pos (length asked)
unfolding pack unpack
asked-sent = refl

c_zht_lookup2-received_example :
    (result answered (c_zht_lookup2 packing cache key_b client)
      ≡ some (
        (some (strncpy (codes "2")), pos 0),
        touched packing cache client-IsConnected.dest.host client,
      ))
    × ((unpack asked).virtualpath ≡ key_b)
    × ((unpack asked).operation ≡ pos 1)
c_zht_lookup2-received_example =
    c_zht_lookup2-received packing cache key_b (codes "2") (unfold eqb in refl) answered 18 client
      client-IsConnected insert_b-IsShort (unfold eqb pack in refl) (no_nul-NoNul asked asked-clean)
      asked-sent refl refl
