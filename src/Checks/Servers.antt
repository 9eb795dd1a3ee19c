-- ===== src/Checks/Servers.antt =====
-- A ZHT server and a ZHT client at concrete inputs: one server with one entry and one replica.
use fusionfs_cache.Checks.Packing.{pack, unpack, packing}
use fusionfs_cache.Checks.Tables.{filled, filled-IsValid, key_a, key_b}
use fusionfs_cache.Io.{Reply, result, trace}
use fusionfs_cache.Net.{make_client_socket, reuse_sock, general_send_to, general_receive}
use fusionfs_cache.Net.Contacts.{asked, sent, contacts}
use fusionfs_cache.Net.Sends.{payloads}
use fusionfs_cache.Zht.Hashing.{myhash}
use fusionfs_cache.Prelude.{
  ℕ, zero, suc, ◌≡◌, refl, Bool, true, false, not, ◌&&◌, none, some, [], ◌∷◌, arith, Bytes, codes,
  eqb, c_str, NoNul, length, get_or, ◌==◌, if◌then◌else◌, pos, negsuc,
}
use fusionfs_cache.Zht.Client.{
  ConnectionCache, ZhtClient, str2sock_lru, request, insert, lookup, remove,
}
use fusionfs_cache.Zht.Client.Answers.{IsShort, IsConnected, touched, query, lookup-answered}
use fusionfs_cache.Zht.Client.Requests.{removal, remove-not_replicated}
use fusionfs_cache.Zht.Interface.{insert_package, lookup_package, remove_package}
use fusionfs_cache.Zht.Members.{HostEntity}
use fusionfs_cache.Zht.Package.{Package}
use fusionfs_cache.Zht.Server.{Server, dispatch, forward, hb_status}
use fusionfs_cache.Zht.Server.Replication.{copy_of, nobody, Kept, forward-copies}
use fusionfs_cache.Zht.Server.Storing.{IsReady, stored, status_call, insert-stores, remove-clears}
use fusionfs_cache.Novoht.Refines.Remove.{status_of_remove}

abbrev pub host : HostEntity
host = record { host = codes "h"; port = 50000; sock = negsuc 0; valid = true }

abbrev pub server : Server
server = record {
  pmap = filled;
  replicas = host ∷ [];
  host_list = host ∷ [];
  num_replicas = 1;
  tcp = true;
  turn_off = false;
}

server-IsReady : IsReady server
server-IsReady = record { valid = filled-IsValid; in_ram = (refl, refl) }

abbrev pub insert_b : Package
insert_b = insert_package key_b (codes "2")

abbrev lookup_a : Package
lookup_a = lookup_package key_a

-- Every call succeeds, and descriptors are 5.
abbrev pub ok : ℕ → Reply
ok i = record { ret = pos 5; num = pos 0; payload = [] }

insert-stores_example :
    (s' : Server) × (result ok (dispatch packing (pos 4) insert_b server) ≡ some s')
    × (trace ok (dispatch packing (pos 4) insert_b server) ≡ status_call true (pos 4) (pos 0) ∷ [])
    × IsReady s'
    × ((q : Bytes) → stored s' q ≡ (if eqb q key_b then some (pack insert_b) else stored server q))
insert-stores_example =
    insert-stores packing (pos 4) insert_b server server-IsReady (unfold eqb in refl) ok refl refl

remove-clears_example :
    (s' : Server) × (result ok (dispatch packing (pos 4) (remove_package key_a) server) ≡ some s')
    × (trace ok (dispatch packing (pos 4) (remove_package key_a) server)
        ≡ status_call true (pos 4) (hb_status (status_of_remove (stored server key_a))) ∷ [])
    × IsReady s'
    × ((q : Bytes) → stored s' q ≡ (if eqb q key_a then none else stored server q))
remove-clears_example =
    remove-clears packing (pos 4) (remove_package key_a) server server-IsReady (unfold eqb in refl)
      ok refl

-- The server behind the forwarding: its replica has a socket.
abbrev connected_server : Server
connected_server = record server { replicas = record host { sock = pos 5 } ∷ [] }

forward-runs : result ok (forward packing insert_b server) ≡ some connected_server
unfolding forward make_client_socket reuse_sock general_send_to
forward-runs = refl

forward-copies_example :
    (contacts (trace ok (forward packing insert_b server))
      ≡ asked (c_str (codes "h")) ∷ sent (pos 5) (copy_of packing insert_b) ∷ [])
    × ((j : ℕ) → Kept (get_or server.replicas j nobody) (get_or connected_server.replicas j nobody))
    × (connected_server ≡ record server { replicas = connected_server.replicas })
forward-copies_example = forward-copies packing insert_b server connected_server ok forward-runs

unfoldable pub no_nul : Bytes → Bool
no_nul [] = true
no_nul (c ∷ s) = not (c == 0) && no_nul s

pub no_nul-NoNul : (s : Bytes) → no_nul s ≡ true → NoNul s
unfolding no_nul
no_nul-NoNul [] h = tt
no_nul-NoNul (c ∷ s) h = ground (arith, no_nul-NoNul s)

insert_b-clean : no_nul (pack (record insert_b { replicano = pos 3 })) ≡ true
unfolding pack no_nul
insert_b-clean = refl

-- A cache that has socket 7 for every host.
abbrev pub cache : ConnectionCache (Unit {0})
cache = record { fetch = λ s h. (pos 7, tt); insert = λ s h n. (negsuc 0, tt) }

abbrev pub client : ZhtClient (Unit {0})
client = record {
  member_list = host ∷ [];
  tcp = true;
  settings = record { replication_type = pos 0; num_replicas = pos 1 };
  udp_socket = negsuc 0;
  connections = tt;
}

insert-runs : result ok (insert packing cache (pack insert_b) client) ≡ some (pos 0, client)
unfolding insert request str2sock_lru myhash c_str unpack pack reuse_sock general_send_to
    general_receive
insert-runs = refl

remove_a-runs :
    result ok (remove packing cache (pack (remove_package key_a)) client) ≡ some (pos 0, client)
unfolding remove request str2sock_lru myhash c_str unpack pack reuse_sock general_send_to
    general_receive
remove_a-runs = refl

remove_a-clean : no_nul (pack (removal packing cache (pack (remove_package key_a)))) ≡ true
unfolding pack unpack no_nul
remove_a-clean = refl

remove-not_replicated_example :
    (sent : Bytes) × (payloads
        (trace ok (remove packing cache (pack (remove_package key_a)) client))
      ≡ sent ∷ [])
    × ((unpack sent).operation ≡ pos 2)
    × ((s : Server) (o' : ℕ → Reply)
        → (result o' (forward packing (unpack sent) s) ≡ some s)
          × (trace o' (forward packing (unpack sent) s) ≡ []))
remove-not_replicated_example =
    remove-not_replicated packing cache (pack (remove_package key_a)) client ok (pos 0, client)
      (no_nul-NoNul _ remove_a-clean) remove_a-runs

abbrev question : Bytes
question = pack (query packing cache (pack lookup_a))

-- The request of 15 bytes is sent, and the answer "001" arrives.
abbrev answered : ℕ → Reply
answered zero = record { ret = pos 0; num = pos 0; payload = [] }
answered (suc zero) = record { ret = pos 15; num = pos 0; payload = [] }
answered (suc (suc i)) = record { ret = pos 3; num = pos 0; payload = codes "001" }

question-clean : no_nul question ≡ true
unfolding pack unpack no_nul
question-clean = refl

question-sent : (answered 1).ret ≡ pos (length question)
unfolding pack unpack
question-sent = refl

client-IsConnected : IsConnected packing cache (unpack (pack lookup_a)).virtualpath client
unfolding pack unpack myhash c_str
client-IsConnected = record { tcp = refl; dest = host; listed = refl; cached = refl }

value-IsShort : IsShort (some (codes "1"))
unfolding IsShort
value-IsShort = ((refl, tt), omega arith)

lookup-answered_example :
    (payloads (trace answered (lookup packing cache (pack lookup_a) [] client)) ≡ question ∷ [])
    × (unpack question ≡ query packing cache (pack lookup_a))
    × (result answered (lookup packing cache (pack lookup_a) [] client)
        ≡ some ((codes "1", pos 0), touched packing cache client-IsConnected.dest.host client))
unfolding eqb
lookup-answered_example =
    lookup-answered packing cache (pack lookup_a) [] client answered 3 client-IsConnected
      (some (codes "1")) value-IsShort (no_nul-NoNul _ question-clean) question-sent refl refl
