-- ===== src/Zht/Client/Requests.antt =====
-- Which requests the ZHT client sends (cpp_zhtclient.cpp), and what a server makes of them.
use fusionfs_cache.Io.{Io, Reply, result, trace, done, fault}
use fusionfs_cache.Io.Runs.{Every-run}
use fusionfs_cache.Net.{make_client_socket, reuse_sock, general_send_to, general_receive}
use fusionfs_cache.Net.Sends.{
  payloads, Sends, Sends-bind, Sends-if, Sends-fault, Sends-done, make_client_socket-silent,
  reuse_sock-silent, general_send_to-Sends,
}
use fusionfs_cache.Prelude.{
  ℕ, ◌≡◌, refl, Bool, true, false, not, Option, none, some, [], ◌∷◌, arith, Bytes, c_str, NoNul,
  c_str-NoNul, length, ◌==◌, ℤ, pos, is_error, is_nonpos,
}
use fusionfs_cache.Zht.Client.{
  ConnectionCache, ZhtClient, str2host, remember, str2sock_lru, request, insert, remove,
}
use fusionfs_cache.Zht.Members.{HostEntity}
use fusionfs_cache.Zht.Package.{Package, Codec}
use fusionfs_cache.Zht.Server.{Server, forward}

host-silent :
    (i : ℕ) (o : Option HostEntity)
    → Sends [] (elim o as (λ x. Io (ℕ × HostEntity)) [ none ↦ fault | some host ↦ done (i, host) ])
host-silent i none = Sends-fault []
host-silent i (some h) = Sends-done (i, h)

receive-silent : (sock : ℤ) (size : ℕ) (tcp : Bool) → Sends [] (general_receive sock size tcp)
unfolding general_receive
receive-silent sock size true = record { every = λ r. refl }
receive-silent sock size false = record { every = λ r. refl }

module _ {State : Type 0} (codec : Codec) (cache : ConnectionCache State) where
  str2host-silent : (str : Bytes) (c : ZhtClient State) → Sends [] (str2host codec str c)
  unfolding str2host
  str2host-silent str c =
      Sends-if [] (length c.member_list == 0) fault _ (Sends-fault []) (host-silent _ _)

  remember-silent :
      (host : Bytes) (sock : ℤ) (c : ZhtClient State) → Sends [] (remember codec cache host sock c)
  unfolding remember
  remember-silent host sock c =
      Sends-if [] (is_error (cache.insert c.connections host sock).0) _ _ (Sends-done _)
        (record { every = λ r. refl })

  str2sock_lru-silent :
      (str : Bytes) (c : ZhtClient State) → Sends [] (str2sock_lru codec cache str c)
  unfolding str2sock_lru
  str2sock_lru-silent str c =
      Sends-bind [] [] (str2host codec str c) _ (str2host-silent str c) (λ (i, dest).
        Sends-if [] c.tcp _ _
          (Sends-if [] (not (is_nonpos (cache.fetch c.connections dest.host).0)) _ _ (Sends-done _)
            (Sends-bind [] [] (make_client_socket dest.host dest.port c.tcp) _
              (make_client_socket-silent dest.host dest.port c.tcp)
              (λ made.
                Sends-if [] (is_nonpos made) _ _ (Sends-done _)
                  (remember-silent dest.host made _))))
          (Sends-if [] (not (is_nonpos c.udp_socket)) _ _ (Sends-done _) (
            Sends-bind [] [] (make_client_socket dest.host dest.port c.tcp) _
              (make_client_socket-silent dest.host dest.port c.tcp) (λ made. Sends-done _))))

  request-Sends :
      (str : Bytes) (c : ZhtClient State) → Sends (c_str str ∷ []) (request codec cache str c)
  unfolding request
  request-Sends str c =
      Sends-bind [] (c_str str ∷ []) (str2sock_lru codec cache str c) _ (str2sock_lru-silent str c)
        (λ (sock, connected).
          Sends-bind [] (c_str str ∷ []) (reuse_sock sock) _ (reuse_sock-silent sock) (λ u.
            Sends-bind [] (c_str str ∷ []) (str2host codec str connected) _
              (str2host-silent str connected)
              (λ (i, dest).
                Sends-bind (c_str str ∷ []) [] (general_send_to dest.host dest.port sock str c.tcp)
                  _ (general_send_to-Sends dest.host dest.port sock str c.tcp)
                  (λ sent. Sends-done _))))

  -- An insertion sends the string it is given, up to its first zero byte, and nothing else: on
  -- every run that ends without a fault, whether connections are made, fail or are in the cache.
  pub insert-sends :
      (str : Bytes) (c : ZhtClient State) (o : ℕ → Reply) (r : ℤ × ZhtClient State)
      → result o (insert codec cache str c) ≡ some r
      → payloads (trace o (insert codec cache str c)) ≡ c_str str ∷ []
  unfolding insert
  insert-sends str c o r h =
      Every-run _ (insert codec cache str c) o r
        (Sends-bind (c_str str ∷ []) [] (request codec cache str c) _ (request-Sends str c)
          (λ (sent, sock, connected).
            Sends-bind [] [] (general_receive sock 4 c.tcp) _ (receive-silent sock 4 c.tcp)
              (λ got. Sends-done _))).every
        h

  -- The package that a removal sends.
  abbrev pub removal : Bytes → Package
  removal str = record (codec.parse str) { operation = pos 2; replicano = pos 3 }

  remove-sends :
      (str : Bytes) (c : ZhtClient State) (o : ℕ → Reply) (r : ℤ × ZhtClient State)
      → result o (remove codec cache str c) ≡ some r
      → payloads (trace o (remove codec cache str c)) ≡ c_str (codec.serialize (removal str)) ∷ []
  unfolding remove
  remove-sends str c o r h =
      Every-run _ (remove codec cache str c) o r
        (Sends-bind (c_str (codec.serialize (removal str)) ∷ []) []
          (request codec cache (codec.serialize (removal str)) c) _ (request-Sends _ c)
          (λ (sent, sock, connected).
            Sends-bind [] [] (general_receive sock 4 c.tcp) _ (receive-silent sock 4 c.tcp)
              (λ got. Sends-done _))).every
        h

  -- Every removal that ends sends one request, whose encoding here has no zero byte, and the server
  -- that reads it forwards nothing: removals do not reach the replicas.
  pub remove-not_replicated :
      (str : Bytes) (c : ZhtClient State) (o : ℕ → Reply) (r : ℤ × ZhtClient State)
      → NoNul (codec.serialize (removal str))
      → result o (remove codec cache str c) ≡ some r
      → (sent : Bytes) × (payloads (trace o (remove codec cache str c)) ≡ sent ∷ [])
        × ((codec.parse sent).operation ≡ pos 2)
        × ((s : Server) (o' : ℕ → Reply)
            → (result o' (forward codec (codec.parse sent) s) ≡ some s)
              × (trace o' (forward codec (codec.parse sent) s) ≡ []))
  unfolding forward
  remove-not_replicated str c o r whole h = (
    codec.serialize (removal str),
    rw (remove-sends str c o r h, c_str-NoNul _ whole) refl,
    rw (codec.parse-serialize (removal str)) refl,
    λ s o'. rw (codec.parse-serialize (removal str)) (ground arith),
  )
