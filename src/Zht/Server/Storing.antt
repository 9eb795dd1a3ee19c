-- ===== src/Zht/Server/Storing.antt =====
-- What the requests of a ZHT server do to its table (server_general.cpp): insertion, removal
-- and lookup against the map that the table stands for, with the answers that go to the client.
use fusionfs_cache.Io.{Call, Reply, run, result, trace, send_status, sendto_status}
use fusionfs_cache.Novoht.Refines.{values, IsValid, InRam, can_grow}
use fusionfs_cache.Novoht.Refines.Put.{put-Writes}
use fusionfs_cache.Novoht.Refines.Remove.{remove-Writes, status_of_remove}
use fusionfs_cache.Novoht.Table.{NoVoHt}
use fusionfs_cache.Prelude.{
  ℕ, ◌≡◌, refl, Bool, true, false, Option, none, some, [], ◌∷◌, arith, Bytes, eqb, if◌then◌else◌, ℤ,
  pos, Returns,
}
use fusionfs_cache.Zht.Package.{Package, Codec}
use fusionfs_cache.Zht.Server.{
  Server, hb_insert, hb_remove, hb_status, serve_remove, serve_insert, send_back_status, dispatch,
}

-- The answer of four bytes.
abbrev pub status_call : Bool → ℤ → ℤ → Call
status_call tcp client status =
    if tcp then send_status client status else sendto_status client status

module _ (codec : Codec) (p : Package) (m : NoVoHt) (valid : IsValid m) (ram : InRam m.disk) where
  hb_insert_lem :
      can_grow m ≡ true
      → Returns (hb_insert codec p m) λ r.
        (r.1 ≡ pos 0)
        × IsValid r.0
        × InRam r.0.disk
        × ((q : Bytes)
            → values r.0 q ≡ (if eqb q p.virtualpath then some (codec.serialize p) else values m q))
  unfolding hb_insert
  hb_insert_lem room =
      let ((m', ret), run, w) = put-Writes m p.virtualpath (codec.serialize p) valid room in
      let (code, same) = w.in_ram ram in
      ((m', pos 0), rw (run, hb_insert, code) refl, (refl, w.valid, rw same ram, w.reads))

  hb_remove_lem : Returns (hb_remove p m) λ r.
      (r.1 ≡ hb_status (status_of_remove (values m p.virtualpath)))
      × IsValid r.0
      × InRam r.0.disk
      × ((q : Bytes) → values r.0 q ≡ (if eqb q p.virtualpath then none else values m q))
  unfolding hb_remove
  hb_remove_lem =
      let ((m', ret), run, w) = remove-Writes m p.virtualpath valid in
      let (code, same) = w.in_ram ram in
      (
        (m', hb_status (status_of_remove (values m p.virtualpath))),
        rw (run, hb_remove, code) refl,
        (refl, w.valid, rw same ram, w.reads),
      )

-- The map of a server's table.
abbrev pub stored : Server → Bytes → Option Bytes
stored s = values s.pmap

-- A server as `main` starts it, with any contents: a valid table without a file.
pub record IsReady (s : Server) : Type 0 where
  pub valid : IsValid s.pmap
  pub in_ram : InRam s.pmap.disk

-- The switch.
module _ (codec : Codec) (client : ℤ) (p : Package) (s : Server) where
  dispatch-remove : p.operation ≡ pos 2 → dispatch codec client p s ≡ serve_remove client p s
  unfolding dispatch
  dispatch-remove op = ground arith

  dispatch-insert : p.operation ≡ pos 3 → dispatch codec client p s ≡ serve_insert codec client p s
  unfolding dispatch
  dispatch-insert op = ground arith

module _ (codec : Codec) (client : ℤ) (p : Package) (s : Server) (ready : IsReady s)
    (keyed : eqb p.virtualpath [] ≡ false) (o : ℕ → Reply) where
  -- At a ready server an insertion with a key ends, if the doubled size of the table fits an `int` when the
  -- table is to grow now, and the server stays ready; the key has the encoded package, every other key has
  -- what it had, and the client gets status 0 and nothing else.
  pub insert-stores :
      p.operation ≡ pos 3
      → can_grow s.pmap ≡ true
      → (s' : Server) × (result o (dispatch codec client p s) ≡ some s')
        × (trace o (dispatch codec client p s) ≡ status_call s.tcp client (pos 0) ∷ [])
        × IsReady s'
        × ((q : Bytes)
            → stored s' q ≡ (if eqb q p.virtualpath then some (codec.serialize p) else stored s q))
  unfolding serve_insert send_back_status
  insert-stores op room =
      let ((m, code), run, (zero_code, valid, ram, reads)) =
        hb_insert_lem codec p s.pmap ready.valid ready.in_ram room in
      (
        record s { pmap = m },
        simp (dispatch-insert codec client p s op, keyed, run),
        simp (dispatch-insert codec client p s op, keyed, run, zero_code),
        record { valid = valid; in_ram = ram },
        reads,
      )

  -- At a ready server a removal with a key ends, and the server stays ready; the key has no value, every other key has what it had, and the
  -- client gets status 0 if the key had a value and else status -2.
  pub remove-clears :
      p.operation ≡ pos 2
      → (s' : Server) × (result o (dispatch codec client p s) ≡ some s')
        × (trace o (dispatch codec client p s)
            ≡ status_call s.tcp client (hb_status (status_of_remove (stored s p.virtualpath))) ∷ [])
        × IsReady s'
        × ((q : Bytes) → stored s' q ≡ (if eqb q p.virtualpath then none else stored s q))
  unfolding serve_remove send_back_status
  remove-clears op =
      let ((m, code), run, (status, valid, ram, reads)) =
        hb_remove_lem codec p s.pmap ready.valid ready.in_ram in
      (
        record s { pmap = m },
        simp (dispatch-remove codec client p s op, keyed, run),
        simp (dispatch-remove codec client p s op, keyed, run, status),
        record { valid = valid; in_ram = ram },
        reads,
      )
