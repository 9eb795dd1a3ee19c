-- ===== src/Zht/Client.antt =====
-- The ZHT client: src/zht/src/cpp_zhtclient.cpp and its C interface src/zht/src/c_zhtclient.cpp.
-- `fault` is undefined behaviour or a C++ exception that nobody catches. A `const char *` is the
-- bytes before its zero byte.
pub mod Requests
pub mod Answers
use fusionfs_cache.Io.{Io, Call, Reply, done, fault, sys, ◌>>=◌, ◌>>◌, close_fd}
use fusionfs_cache.Net.{make_client_socket, reuse_sock, general_send_to, general_receive}
use fusionfs_cache.Prelude.{
  ℕ, zero, suc, ◌≡◌, Bool, true, false, not, Option, none, some, List, [], ◌∷◌, Bytes, c_str, eqb,
  length, get_elem?, set, ◌==◌, leb, if◌then◌else◌, ℤ, pos, negsuc, is_neg, is_error, is_nat,
  is_nonpos,
}
use fusionfs_cache.Zht.Config.{Settings, client_variables, atoi}
use fusionfs_cache.Zht.Hashing.{myhash}
use fusionfs_cache.Zht.Members.{HostEntity, get_membership, tear_down_tcp}
use fusionfs_cache.Zht.Package.{Package, empty_package, Codec}

-- The connection cache is a class of another library. `fetch` gives the socket of a host, 0 if it
-- has none; `insert` gives the socket that it drops, -1 if it drops none.
pub record ConnectionCache (State : Type 0) : Type 0 where
  pub fetch : State → Bytes → ℤ × State
  pub insert : State → Bytes → ℤ → ℤ × State

-- class ZHTClient with the globals UDP_SOCKET and connectionCache
pub record ZhtClient (State : Type 0) : Type 0 where
  pub member_list : List HostEntity
  pub tcp : Bool
  pub settings : Settings
  pub udp_socket : ℤ
  pub connections : State

-- sRecv = buff; returnStr = sRecv.substr(2); sStatus = sRecv.substr(0, 2); status = atoi(…)
unfoldable pub read_answer : Bytes → Option (Bytes × ℤ)
read_answer (a ∷ b ∷ value) = some (value, atoi (a ∷ b ∷ []))
read_answer short = none

module _ {State : Type 0} where
  -- ZHTClient::ZHTClient and the initial values of the globals. The constructor leaves the member TCP
  -- as it finds it.
  unfoldable pub new_client : Bool → State → ZhtClient State
  new_client tcp connections = record {
    member_list = [];
    tcp = tcp;
    settings = record { replication_type = negsuc 0; num_replicas = negsuc 0 };
    udp_socket = negsuc 0;
    connections = connections;
  }

  -- ZHTClient::initialize on the files of the configuration and of the servers; atoi(NULL) is a fault.
  unfoldable pub initialize :
      Option (List Bytes) → Option Bytes → Bool → ZhtClient State → Io (ZhtClient State × ℤ)
  unfolding get_membership
  initialize config members tcp c = do
    hosts ← get_membership members
    let listed = record c { tcp = tcp; member_list = hosts }
    elim config [
      | none ↦ done (listed, negsuc 0)
      | some lines ↦ elim (client_variables lines c.settings) [
        | none ↦ fault
        | some (settings, ret) ↦ done (record listed { settings = settings }, ret)
      ]
    ]

  -- ZHTClient::tearDownTCP
  unfoldable pub tear_down : ZhtClient State → Io ℤ
  tear_down c = if c.tcp then tear_down_tcp c.member_list else done (pos 0)

  module _ (codec : Codec) where
    -- ZHTClient::str2Host, with the index. An empty list is a division by zero.
    unfoldable pub str2host : Bytes → ZhtClient State → Io (ℕ × HostEntity)
    str2host str c =
        let index = myhash (codec.parse str).virtualpath (length c.member_list) in
        if length c.member_list == 0
        then fault
        else elim (get_elem? c.member_list index) [ none ↦ fault | some host ↦ done (index, host) ]

    -- ZHTClient::str2Sock, which keeps every connection
    unfoldable pub str2sock : Bytes → ZhtClient State → Io (ℤ × ZhtClient State)
    str2sock str c = do
      (index, dest) ← str2host str c
      if c.tcp
          then (if not (is_neg dest.sock) then done (dest.sock, c) else do
            sock ← make_client_socket dest.host dest.port c.tcp
            reuse_sock sock
            done (
              sock,
              record c { member_list = set c.member_list index (record dest { sock = sock }) },
            ))
          else (if not (is_neg c.udp_socket) then done (c.udp_socket, c) else do
            sock ← make_client_socket dest.host dest.port c.tcp
            done (sock, record c { udp_socket = sock }))

    module _ (cache : ConnectionCache State) where
      -- connectionCache.insert(dest.host, sock, tobeRemoved); if (tobeRemoved != -1) close(…)
      unfoldable pub remember : Bytes → ℤ → ZhtClient State → Io (ℤ × ZhtClient State)
      remember host sock c = do
        let (dropped, connections) = cache.insert c.connections host sock
        let kept = record c { connections = connections }
        if is_error dropped then done (sock, kept) else do sys (close_fd dropped); done (sock, kept)

      -- ZHTClient::str2SockLRU
      unfoldable pub str2sock_lru : Bytes → ZhtClient State → Io (ℤ × ZhtClient State)
      unfolding str2host remember
      str2sock_lru str c = do
        (index, dest) ← str2host str c
        let (sock, connections) = cache.fetch c.connections dest.host
        if c.tcp
            then (if not (is_nonpos sock)
                then done (sock, record c { connections = connections })
                else do
                  made ← make_client_socket dest.host dest.port c.tcp
                  if is_nonpos made
                      then done (negsuc 0, record c { connections = connections })
                      else remember dest.host made (record c { connections = connections }))
            else (if not (is_nonpos c.udp_socket) then done (c.udp_socket, c) else do
              made ← make_client_socket dest.host dest.port c.tcp
              done (made, record c { udp_socket = made }))

      -- The request to the server of the key, up to the number of bytes sent.
      unfoldable pub request : Bytes → ZhtClient State → Io (ℤ × ℤ × ZhtClient State)
      request str c = do
        (sock, connected) ← str2sock_lru str c
        reuse_sock sock
        (index, dest) ← str2host str connected
        sent ← general_send_to dest.host dest.port sock str c.tcp
        done (sent, sock, connected)

      -- ZHTClient::insert. The result is what the buffer of four bytes holds, which is not
      -- initialised, behind the receive, whether this fails or not.
      unfoldable pub insert : Bytes → ZhtClient State → Io (ℤ × ZhtClient State)
      insert str c = do
        (sent, sock, connected) ← request str c
        (size, got) ← general_receive sock 4 c.tcp
        done (got.num, connected)

      -- The buffer of the answer: 1024 bytes, zero at first. A text that fills it has no zero byte
      -- to end it. `none` of the reading is an answer of less than two bytes, where `substr` throws.
      unfoldable pub receive_answer : Bytes → ℤ → Bool → Io (Bytes × ℤ)
      receive_answer return_str sock tcp = do
        (size, got) ← general_receive sock 1024 tcp
        if is_neg size
            then done (return_str, negsuc 0)
            else if leb 1024 (length (c_str got.payload))
            then fault
            else elim (read_answer (c_str got.payload)) [ none ↦ fault | some r ↦ done r ]

      -- ZHTClient::lookup, from the string that the caller passes for the result
      unfoldable pub lookup : Bytes → Bytes → ZhtClient State → Io ((Bytes × ℤ) × ZhtClient State)
      lookup str return_str c = do
        let asked =
            codec.serialize (record (codec.parse str) { operation = pos 1; replicano = pos 3 })
        (sent, sock, connected) ← request asked c
        answer ←
            (if is_nat sent (length asked)
              then receive_answer return_str sock c.tcp
              else done (return_str, negsuc 0))
        done (answer, connected)

      -- ZHTClient::remove
      unfoldable pub remove : Bytes → ZhtClient State → Io (ℤ × ZhtClient State)
      remove str c = do
        let asked =
            codec.serialize (record (codec.parse str) { operation = pos 2; replicano = pos 3 })
        (sent, sock, connected) ← request asked c
        (size, got) ← general_receive sock 4 c.tcp
        done (got.num, connected)
