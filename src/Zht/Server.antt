-- ===== src/Zht/Server.antt =====
-- The ZHT server: src/zht/src/server_general.cpp.
pub mod Replication
pub mod Storing
use fusionfs_cache.Io.{Io, Call, Reply, done, fault, sys, ◌>>=◌, ◌>>◌, send_status, sendto_status}
use fusionfs_cache.Net.{make_client_socket, reuse_sock, general_send_to, general_send_back}
use fusionfs_cache.Novoht.Table.{NoVoHt, put, get, remove}
use fusionfs_cache.Prelude.{
  ℕ, zero, suc, ◌+◌, ◌-◌, ◌/◌, ◌%◌, ◌≡◌, refl, Bool, true, false, not, ◌&&◌, ◌||◌, Option, none,
  some, List, [], ◌∷◌, ◌++◌, arith, Bytes, codes, eqb, length, get_elem?, set, ◌==◌, ltb,
  if◌then◌else◌, ℤ, pos, negsuc, is_neg, is_nat,
}
use fusionfs_cache.Zht.Hashing.{myhash}
use fusionfs_cache.Zht.Members.{HostEntity}
use fusionfs_cache.Zht.Package.{Package, Codec}

-- The globals that the handlers use.
pub record Server : Type 0 where
  pub pmap : NoVoHt
  pub replicas : List HostEntity
  pub host_list : List HostEntity
  pub num_replicas : ℕ
  pub tcp : Bool
  pub turn_off : Bool

-- `none` of the table is a wait that does not end.
abbrev pub await : {A : Type 0} → Option A → Io A
await none = fault
await (some a) = done a

-- What sprintf(statusBuff, "%02d", operation_status) prints for the statuses -9, ..., 99, without the zero
-- byte behind it
unfoldable pub status_text : ℤ → Bytes
status_text (pos n) = (48 + n / 10) ∷ (48 + n % 10) ∷ []
status_text (negsuc n) = b'-' ∷ (49 + n) ∷ []

-- char statusBuff[2]
abbrev pub status_size : ℕ
status_size = 2

-- if (ret != 0) return -2; else return 0;
abbrev pub hb_status : ℤ → ℤ
hb_status ret = if is_nat ret 0 then pos 0 else negsuc 1

module _ (codec : Codec) where
  -- HB_insert on the table
  unfoldable pub hb_insert : Package → NoVoHt → Option (NoVoHt × ℤ)
  hb_insert p m = elim (put p.virtualpath (codec.serialize p) m) [
    | none ↦ none
    | some (m', ret) ↦ some (m', hb_status ret)
  ]

-- if (strP == NULL) return "Empty"; return *strP;
abbrev pub or_empty : Option Bytes → Bytes
or_empty none = codes "Empty"
or_empty (some v) = v

-- HB_lookup on the table
unfoldable pub hb_lookup : Package → NoVoHt → Option Bytes
hb_lookup p m = elim (get p.virtualpath m) [ none ↦ none | some strP ↦ some (or_empty strP) ]

-- HB_remove on the table
unfoldable pub hb_remove : Package → NoVoHt → Option (NoVoHt × ℤ)
hb_remove p m = elim (remove p.virtualpath m) [
  | none ↦ none
  | some (m', ret) ↦ some (m', hb_status ret)
]

-- makeConnForReplica; the destination comes back with its socket
unfoldable pub make_conn_for_replica : Bool → HostEntity → Io HostEntity
make_conn_for_replica tcp dest = if not (is_neg dest.sock) then done dest else do
  made ← make_client_socket dest.host dest.port tcp
  reuse_sock made
  done (record dest { sock = made })

-- The answer to a removal or an insertion: four bytes of status.
unfoldable pub send_back_status : Bool → ℤ → ℤ → Io (Unit {0})
send_back_status tcp client status = do
  sys (if tcp then send_status client status else sendto_status client status)
  done tt

-- case 1 of the switch. `sprintf` writes the status and a zero byte; a byte past statusBuff is a fault.
unfoldable pub serve_lookup : ℤ → Package → Server → Io Server
unfolding hb_lookup status_text
serve_lookup client p s = do
  found ← await (if eqb p.virtualpath [] then some [] else hb_lookup p s.pmap)
  let status =
      if eqb p.virtualpath []
      then negsuc 0
      else if eqb found (codes "Empty")
      then negsuc 1
      else pos 0
  if ltb status_size (length (status_text status) + 1)
      then fault
      else do general_send_back client (status_text status ++ found) s.tcp; done s

-- case 2
unfoldable pub serve_remove : ℤ → Package → Server → Io Server
unfolding hb_remove send_back_status
serve_remove client p s = do
  (m, status) ← await (if eqb p.virtualpath [] then some (s.pmap, negsuc 0) else hb_remove p s.pmap)
  send_back_status s.tcp client status
  done (record s { pmap = m })

module _ (codec : Codec) where
  -- general_replica
  unfoldable pub general_replica : Bool → Package → HostEntity → Io HostEntity
  unfolding make_conn_for_replica
  general_replica tcp p dest = do
    let str = codec.serialize (record p { replicano = pos 3 })
    connected ← make_conn_for_replica tcp dest
    general_send_to connected.host connected.port connected.sock str tcp
    done connected

  -- case 3
  unfoldable pub serve_insert : ℤ → Package → Server → Io Server
  unfolding hb_insert send_back_status
  serve_insert client p s = do
    (m, status) ←
        await (if eqb p.virtualpath [] then some (s.pmap, negsuc 0) else hb_insert codec p s.pmap)
    send_back_status s.tcp client status
    done (record s { pmap = m })

  -- The loop over the replicas, `i` of them left: Replicas[i - 1] first. The index into the list of
  -- servers is computed and not used, but it divides by the lengths of the lists.
  unfoldable pub replicate_to : ℕ → Package → Server → Io Server
  unfolding general_replica
  replicate_to zero p s = done s
  replicate_to (suc i) p s =
      if length s.host_list == 0 then fault else elim (get_elem? s.replicas i) [
        | none ↦ fault
        | some dest ↦ do
          connected ← general_replica s.tcp p dest
          replicate_to i p (record s { replicas = set s.replicas i connected })
      ]

  -- The part of dataService behind the switch.
  unfoldable pub forward : Package → Server → Io Server
  unfolding replicate_to
  forward p s =
      if ltb 0 s.num_replicas
        && is_nat p.replicano 5
        && (is_nat p.operation 3 || is_nat p.operation 2)
      then replicate_to s.num_replicas p s
      else done s

  -- The switch of dataService. Another operation gets no answer.
  unfoldable pub dispatch : ℤ → Package → Server → Io Server
  dispatch client p s =
      if is_nat p.operation 1
      then serve_lookup client p s
      else if is_nat p.operation 2
      then serve_remove client p s
      else if is_nat p.operation 3
      then serve_insert client p s
      else if is_nat p.operation 99
      then done (record s { turn_off = true })
      else done s

  -- dataService
  unfoldable pub data_service : ℤ → Bytes → Server → Io Server
  data_service client buff s = do
    let p = codec.parse buff
    served ← dispatch client p s
    forward p served
