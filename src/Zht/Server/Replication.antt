-- ===== src/Zht/Server/Replication.antt =====
-- Which copies a ZHT server sends to its replicas, and over which connections (server_general.cpp).
use fusionfs_cache.Io.{Io, Reply, result, trace, done, fault, ◌>>=◌}
use fusionfs_cache.Io.Runs.{Every-run}
use fusionfs_cache.Net.{make_client_socket, reuse_sock, general_send_to}
use fusionfs_cache.Net.Contacts.{
  Contact, asked, sent, contacts, Reaches, Reaches-bind, Reaches-if, Reaches-fault, Reaches-done,
  Reaches-weaken, Exactly, make_client_socket-Reaches, reuse_sock-Reaches, general_send_to-Reaches,
}
use fusionfs_cache.Prelude.{
  ℕ, zero, suc, ◌<◌, ◌≤◌, ◌≡◌, refl, ◌∙◌, subst, Bool, true, false, not, ◌&&◌, ◌||◌, Option, none,
  some, List, [], ◌∷◌, ◌++◌, arith, Bool-cases, inl, inr, Bytes, c_str, NoNul, c_str-NoNul, length,
  get_elem?, get_or, get_or-set, set, ◌==◌, ltb, if◌then◌else◌, pos, negsuc, is_neg, is_nat,
}
use fusionfs_cache.Zht.Members.{HostEntity}
use fusionfs_cache.Zht.Package.{Package, Codec}
use fusionfs_cache.Zht.Server.{
  Server, general_replica, replicate_to, forward, make_conn_for_replica,
}

-- An entry of a list of replicas before and behind a copy: the same server, on the same socket if it
-- had one.
pub record Kept (before after : HostEntity) : Type 0 where
  pub host : after.host ≡ before.host
  pub port : after.port ≡ before.port
  pub valid : after.valid ≡ before.valid
  pub sock : is_neg before.sock ≡ false → after.sock ≡ before.sock

Kept-same : (h : HostEntity) → Kept h h
Kept-same h = record { host = refl; port = refl; valid = refl; sock = λ f. refl }

-- The contacts of one copy: the replica's host is looked up unless it has a TCP connection, and the copy
-- goes out on the replica's socket.
abbrev pub copy_to : Bool → Bytes → HostEntity → HostEntity → List Contact
copy_to tcp message before after =
    (if tcp && not (is_neg before.sock) then [] else asked (c_str before.host) ∷ [])
    ++ sent after.sock message ∷ []

-- A place for an index that is out of range.
abbrev pub nobody : HostEntity
nobody = record { host = []; port = 0; sock = negsuc 0; valid = false }

-- The contacts of the copies to the replicas i - 1, ..., 0, in this order.
abbrev pub copies_to : Bool → Bytes → ℕ → List HostEntity → List HostEntity → List Contact
copies_to tcp message zero before after = []
copies_to tcp message (suc i) before after =
    copy_to tcp message (get_or before i nobody) (get_or after i nobody)
    ++ copies_to tcp message i before after

get_elem?-get_or :
    (hs : List HostEntity) (i : ℕ) (h : HostEntity)
    → get_elem? hs i ≡ some h
    → (get_or hs i nobody ≡ h) × (i < length hs)
get_elem?-get_or [] i h e = cc
get_elem?-get_or (x ∷ hs) zero h e = (cc, omega arith)
get_elem?-get_or (x ∷ hs) (suc i) h e =
    let (same, lt) = get_elem?-get_or hs i h e in (same, omega (arith, lt))

-- A change at an index does not concern the copies to lower ones.
copies_to-set :
    (tcp : Bool) (message : Bytes) (i k : ℕ) (h : HostEntity) (before after : List HostEntity)
    → i ≤ k
    → k < length before
    → copies_to tcp message i (set before k h) after ≡ copies_to tcp message i before after
copies_to-set tcp message zero k h before after le lt = refl
copies_to-set tcp message (suc i) k h before after le lt =
    let other : (i == k) ≡ false = ground (arith, le) in
    rw
      (
        get_or-set before k i h nobody lt,
        other,
        copies_to-set tcp message i k h before after (omega (arith, le)) lt,
      )
      refl

contacts_of_copy :
    (tcp neg : Bool) (h s : Contact)
    → (if tcp && neg then h ∷ [] else []) ++ ((if tcp then s ∷ [] else h ∷ s ∷ []) ++ [])
      ≡ (if tcp && not neg then [] else h ∷ []) ++ s ∷ []
contacts_of_copy true true h s = refl
contacts_of_copy true false h s = refl
contacts_of_copy false true h s = refl
contacts_of_copy false false h s = refl

abbrev Connects : Bool → HostEntity → List Contact → HostEntity → Type 0
Connects tcp dest l a =
    (l ≡ (if tcp && is_neg dest.sock then asked (c_str dest.host) ∷ [] else [])) × Kept dest a

looked_up :
    (tcp : Bool) (h : Contact)
    → (if tcp then h ∷ [] else []) ++ ([] ++ []) ≡ (if tcp && true then h ∷ [] else [])
looked_up true h = refl
looked_up false h = refl

not_looked_up : (tcp : Bool) (h : Contact) → [] ≡ (if tcp && false then h ∷ [] else [])
not_looked_up true h = refl
not_looked_up false h = refl

make_conn_for_replica-Reaches :
    (tcp : Bool) (dest : HostEntity) → Reaches (Connects tcp dest) (make_conn_for_replica tcp dest)
unfolding make_conn_for_replica
make_conn_for_replica-Reaches tcp dest = elim (Bool-cases (is_neg dest.sock)) [
  | inr f ↦ rw f (Reaches-done _ dest (rw f (not_looked_up tcp _), Kept-same dest))
  | inl t ↦ rw t (
      Reaches-bind (Exactly (if tcp then asked (c_str dest.host) ∷ [] else [])) _
        (make_client_socket dest.host dest.port tcp) _
        (make_client_socket-Reaches dest.host dest.port tcp)
        (λ l made e.
          Reaches-bind (Exactly []) _ (reuse_sock made) _ (reuse_sock-Reaches made) (λ l' u e'.
            Reaches-done _ _ (
              rw (e, e', t) (looked_up tcp _),
              record { host = refl; port = refl; valid = refl; sock = λ f. cc },
            ))))
]

module _ (codec : Codec) where
  -- What goes to a replica: the request, marked as a copy.
  pub copy_of : Package → Bytes
  copy_of p = c_str (codec.serialize (record p { replicano = pos 3 }))

  abbrev Delivers : Bool → Package → HostEntity → List Contact → HostEntity → Type 0
  Delivers tcp p dest l a = (l ≡ copy_to tcp (copy_of p) dest a) × Kept dest a

  general_replica-Delivers :
      (tcp : Bool) (p : Package) (dest : HostEntity)
      → Reaches (Delivers tcp p dest) (general_replica codec tcp p dest)
  unfolding general_replica copy_of
  general_replica-Delivers tcp p dest =
      Reaches-bind (Connects tcp dest) (Delivers tcp p dest) (make_conn_for_replica tcp dest) _
        (make_conn_for_replica-Reaches tcp dest)
        (λ l connected (e, kept).
          Reaches-bind _ (λ l' b. Delivers tcp p dest (l ++ l') b)
            (general_send_to connected.host connected.port connected.sock _ tcp) _
            (general_send_to-Reaches connected.host connected.port connected.sock _ tcp)
            (λ l' u e'.
              Reaches-done _ _
                (rw (e, e', kept.host) (contacts_of_copy tcp (is_neg dest.sock) _ _), kept)))

  -- What `i` rounds of the loop over the replicas do to the server.
  pub record Copied (p : Package) (i : ℕ) (s : Server) (l : List Contact) (r : Server)
      : Type 0 where
    pub sends : l ≡ copies_to s.tcp (copy_of p) i s.replicas r.replicas
    pub above : (j : ℕ) → i ≤ j → get_or r.replicas j nobody ≡ get_or s.replicas j nobody
    pub kept : (j : ℕ) → Kept (get_or s.replicas j nobody) (get_or r.replicas j nobody)
    pub same : r ≡ record s { replicas = r.replicas }

  one_more :
      (p : Package) (i : ℕ) (s r : Server) (dest connected : HostEntity) (l l' : List Contact)
      → get_elem? s.replicas i ≡ some dest
      → Delivers s.tcp p dest l connected
      → Copied p i (record s { replicas = set s.replicas i connected }) l' r
      → Copied p (suc i) s (l ++ l') r
  one_more p i s r dest connected l l' found (e, kept) c =
      let (at_i, lt) = get_elem?-get_or s.replicas i dest found in
      let last : get_or r.replicas i nobody ≡ connected =
        c.above i (omega arith) ∙ get_or-set s.replicas i i connected nobody lt ∙ ground arith in
      record {
        sends =
            rw
              (
                e,
                c.sends,
                at_i,
                last,
                copies_to-set s.tcp (copy_of p) i i connected s.replicas r.replicas (omega arith)
                    lt,
              )
              refl;
        above = λ j le.
            c.above j (omega (arith, le))
            ∙ get_or-set s.replicas i j connected nobody lt
            ∙ ground (arith, le);
        kept = λ j. elim (Bool-cases (j == i)) [
          | inl t ↦
              let here : i ≡ j = ground (arith, t) in
              subst (λ k. Kept (get_or s.replicas k nobody) (get_or r.replicas k nobody)) here
                (rw (at_i, last) kept)
          | inr f ↦
              let other : get_or (set s.replicas i connected) j nobody
                  ≡ get_or s.replicas j nobody =
                get_or-set s.replicas i j connected nobody lt ∙ rw f refl in
              subst (λ h. Kept h (get_or r.replicas j nobody)) other (c.kept j)
        ];
        same = c.same;
      }

  module _ (i : ℕ) (p : Package) (s : Server) where
    -- A round, and what follows it.
    copy_round :
        (rest : Server → Io Server)
        → ((s' : Server) → Reaches (Copied p i s') (rest s'))
        → (o : Option HostEntity) → get_elem? s.replicas i ≡ o
        → Reaches (Copied p (suc i) s) (elim o [
          | none ↦ fault
          | some dest ↦ general_replica codec s.tcp p dest >>= λ connected.
              rest (record s { replicas = set s.replicas i connected })
        ])
    copy_round rest each none e = Reaches-fault _
    copy_round rest each (some dest) e =
        Reaches-bind (Delivers s.tcp p dest) (Copied p (suc i) s)
          (general_replica codec s.tcp p dest) _ (general_replica-Delivers s.tcp p dest)
          (λ l connected d.
            let s' : Server = record s { replicas = set s.replicas i connected } in
            Reaches-weaken (Copied p i s') (λ l' r. Copied p (suc i) s (l ++ l') r) (rest s')
              (λ l' r c. one_more p i s r dest connected l l' e d c) (each s'))

  replicate_to-Copied :
      (i : ℕ) (p : Package) (s : Server) → Reaches (Copied p i s) (replicate_to codec i p s)
  unfolding replicate_to
  replicate_to-Copied zero p s =
      Reaches-done _ s
        (record { sends = refl; above = λ j le. refl; kept = λ j. Kept-same _; same = refl })
  replicate_to-Copied (suc i) p s =
      Reaches-if _ (length s.host_list == 0) fault _ (Reaches-fault _) (
        copy_round i p s (replicate_to codec i p) (λ s'. replicate_to-Copied i p s')
          (get_elem? s.replicas i) refl)

  -- Whether the server forwards a request.
  abbrev pub is_forwarded : Package → Server → Bool
  is_forwarded p s =
      ltb 0 s.num_replicas && is_nat p.replicano 5 && (is_nat p.operation 3 || is_nat p.operation 2)

  -- Behind the switch, on every run that ends without a fault: if the request is an insertion or a removal
  -- that is not itself a copy, the server sends one copy to each of its replicas, from the last in its
  -- list to the first. A copy goes out on the socket that the list then has for this replica, which is
  -- the socket that it had before, or a new one; the replica's host is looked up before, unless it has a
  -- TCP connection. Else the server sends nothing and looks nobody up. Its list keeps the hosts and the
  -- ports, and nothing but the list changes.
  pub forward-copies :
      (p : Package) (s served : Server) (o : ℕ → Reply)
      → result o (forward codec p s) ≡ some served
      → (contacts (trace o (forward codec p s)) ≡ (
          if is_forwarded p s
          then copies_to s.tcp (copy_of p) s.num_replicas s.replicas served.replicas
          else []))
        × ((j : ℕ) → Kept (get_or s.replicas j nobody) (get_or served.replicas j nobody))
        × (served ≡ record s { replicas = served.replicas })
  unfolding forward
  forward-copies p s served o h =
      Every-run _ (forward codec p s) o served (copies (is_forwarded p s)).every h
    where
      copies :
          (b : Bool)
          → Reaches
              (λ l r.
                (l ≡ (
                  if b
                  then copies_to s.tcp (copy_of p) s.num_replicas s.replicas r.replicas
                  else []))
                × ((j : ℕ) → Kept (get_or s.replicas j nobody) (get_or r.replicas j nobody))
                × (r ≡ record s { replicas = r.replicas }))
              (if b then replicate_to codec s.num_replicas p s else done s)
      copies true =
          Reaches-weaken (Copied p s.num_replicas s) _ (replicate_to codec s.num_replicas p s)
            (λ l r c. (c.sends, c.kept, c.same)) (replicate_to-Copied s.num_replicas p s)
      copies false = Reaches-done _ s (refl, λ j. Kept-same _, refl)

  -- A server that gets a copy, whose encoding has no zero byte, forwards nothing: a request is
  -- copied once.
  pub copy-not_forwarded :
      (p : Package) (s : Server) (o : ℕ → Reply)
      → NoNul (codec.serialize (record p { replicano = pos 3 }))
      → (result o (forward codec (codec.parse (copy_of p)) s) ≡ some s)
        × (trace o (forward codec (codec.parse (copy_of p)) s) ≡ [])
  unfolding forward copy_of
  copy-not_forwarded p s o whole =
      rw (c_str-NoNul _ whole, codec.parse-serialize (record p { replicano = pos 3 }))
        (ground arith)
