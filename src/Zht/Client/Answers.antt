-- ===== src/Zht/Client/Answers.antt =====
-- What the ZHT client makes of a server's answers (cpp_zhtclient.cpp).
use fusionfs_cache.Io.{
  reuse_addr, send_bytes, recv_bytes, Reply, run, result, trace, done, call, ◌>>=◌,
}
use fusionfs_cache.Net.{reuse_sock, general_send_to, general_receive}
use fusionfs_cache.Net.Sends.{payloads}
use fusionfs_cache.Prelude.{
  ℕ, ◌<◌, ◌≡◌, refl, ap, ◌∙◌, true, false, Bool-cases, Option, none, some, List, [], ◌∷◌, ◌++◌,
  arith, Bytes, codes, eqb, c_str, NoNul, c_str-NoNul, length, get_elem?, ◌==◌, leb, if◌then◌else◌,
  ℤ, pos, negsuc, is_neg, is_nat, is_nonpos, inl, inr,
}
use fusionfs_cache.Zht.Client.{
  ConnectionCache, ZhtClient, str2host, str2sock_lru, request, read_answer, receive_answer, lookup,
}
use fusionfs_cache.Zht.Config.{atoi}
use fusionfs_cache.Zht.Hashing.{myhash}
use fusionfs_cache.Zht.Members.{HostEntity}
use fusionfs_cache.Zht.Package.{Package, Codec}

-- The text that answers a lookup: a status in two characters, and the value.
abbrev pub lookup_text : Option Bytes → Bytes
lookup_text none = codes "-2Empty"
lookup_text (some v) = if eqb v (codes "Empty") then codes "-2Empty" else codes "00" ++ v

-- What a lookup of a key with this value is to give: the value and the status.
abbrev pub answer_of : Option Bytes → Bytes × ℤ
answer_of none = (codes "Empty", negsuc 1)
answer_of (some v) = if eqb v (codes "Empty") then (codes "Empty", negsuc 1) else (v, pos 0)

-- A value that fits into the client's buffer and has no zero byte.
unfoldable pub IsShort : Option Bytes → Type 0
IsShort none = Unit
IsShort (some v) = NoNul v × (length v < 1022)

absent-NoNul : NoNul (codes "-2Empty")
absent-NoNul = (refl, (refl, (refl, (refl, (refl, (refl, (refl, tt)))))))

text-IsShort :
    (v : Option Bytes) → IsShort v → NoNul (lookup_text v) × (length (lookup_text v) < 1024)
unfolding IsShort
text-IsShort none h = (absent-NoNul, omega arith)
text-IsShort (some v) (h, lt) = elim (Bool-cases (eqb v (codes "Empty"))) [
  | inl e ↦ rw e (absent-NoNul, omega arith)
  | inr e ↦ rw e ((refl, (refl, h)), omega arith)
]

read_answer-text : (v : Option Bytes) → read_answer (lookup_text v) ≡ some (answer_of v)
unfolding read_answer atoi
read_answer-text none = refl
read_answer-text (some v) = elim (Bool-cases (eqb v (codes "Empty"))) [
  | inl e ↦ rw e refl
  | inr e ↦ rw e refl
]

occupied :
    (hs : List HostEntity) (i : ℕ) (h : HostEntity)
    → get_elem? hs i ≡ some h
    → (length hs == 0) ≡ false
occupied [] i h e = cc
occupied (x ∷ hs) i h e = ground arith

same_nat : (n : ℕ) → is_nat (pos n) n ≡ true
same_nat n = ground arith

fits_buffer : (n : ℕ) → n < 1024 → leb 1024 n ≡ false
fits_buffer n h = ground arith

module _ {State : Type 0} (codec : Codec) (cache : ConnectionCache State) where
  -- The client has a connection to the server of the key.
  pub record IsConnected (key : Bytes) (c : ZhtClient State) : Type 0 where
    pub tcp : c.tcp ≡ true
    pub dest : HostEntity
    pub listed : get_elem? c.member_list (myhash key (length c.member_list)) ≡ some dest
    pub cached : is_nonpos (cache.fetch c.connections dest.host).0 ≡ false

  -- The client behind a call that finds its connection in the cache.
  abbrev pub touched : Bytes → ZhtClient State → ZhtClient State
  touched host c = record c { connections = (cache.fetch c.connections host).1 }

  str2host_lem :
      (str : Bytes) (c : ZhtClient State) (dest : HostEntity)
      → get_elem? c.member_list (myhash (codec.parse str).virtualpath (length c.member_list))
        ≡ some dest
      → str2host codec str c
        ≡ done (myhash (codec.parse str).virtualpath (length c.member_list), dest)
  unfolding str2host
  str2host_lem str c dest listed = rw (occupied _ _ _ listed, listed) refl

  -- The package that a lookup sends.
  abbrev pub query : Bytes → Package
  query str = record (codec.parse str) { operation = pos 1; replicano = pos 3 }

  request_lem :
      (str key : Bytes) (c : ZhtClient State) (k : IsConnected key c)
      → (codec.parse str).virtualpath ≡ key
      → NoNul str
      → request codec cache str c
        ≡ call (reuse_addr (cache.fetch c.connections k.dest.host).0) (λ r.
          call (send_bytes (cache.fetch c.connections k.dest.host).0 str) (λ sent. done (
            if is_neg sent.ret then negsuc 0 else sent.ret,
            (cache.fetch c.connections k.dest.host).0,
            touched k.dest.host c,
          )))
  unfolding request str2sock_lru reuse_sock general_send_to
  request_lem str key c k same whole =
      simp (str2host_lem str c k.dest (rw same k.listed), k.tcp, k.cached, c_str-NoNul str whole)

  receive_answer_lem :
      {A : Type 0} (ret : Bytes) (sock : ℤ) (o : ℕ → Reply) (got : ℕ) (r : Bytes × ℤ)
      (f : Bytes × ℤ → A)
      → (o 2).ret ≡ pos got
      → read_answer (c_str (o 2).payload) ≡ some r
      → length (c_str (o 2).payload) < 1024
      → run o 2 (receive_answer codec cache ret sock true >>= λ a. done (f a))
        ≡ (some (f r), recv_bytes sock 1024 ∷ [])
  unfolding receive_answer general_receive
  receive_answer_lem ret sock o got r f arrived read fits =
      rw (arrived, fits_buffer (length (c_str (o 2).payload)) fits, read) refl

  -- A connected client sends the lookup to the server of the key and gives what the answer reads as.
  run-lookup :
      (str ret : Bytes) (c : ZhtClient State) (o : ℕ → Reply) (got : ℕ)
      (k : IsConnected (codec.parse str).virtualpath c) (r : Bytes × ℤ)
      → NoNul (codec.serialize (query str))
      → (o 1).ret ≡ pos (length (codec.serialize (query str)))
      → (o 2).ret ≡ pos got
      → read_answer (c_str (o 2).payload) ≡ some r
      → length (c_str (o 2).payload) < 1024
      → run o 0 (lookup codec cache str ret c) ≡ (
        some (r, touched k.dest.host c),
        reuse_addr (cache.fetch c.connections k.dest.host).0
            ∷ send_bytes (cache.fetch c.connections k.dest.host).0 (codec.serialize (query str))
            ∷ recv_bytes (cache.fetch c.connections k.dest.host).0 1024
            ∷ [],
      )
  unfolding lookup
  run-lookup str ret c o got k r whole sent arrived read fits =
      simp
        (
          request_lem (codec.serialize (query str)) _ c k
              (ap (λ p. p.virtualpath) (codec.parse-serialize (query str))) whole,
          k.tcp,
        )
        (rw
          (
            sent,
            same_nat (length (codec.serialize (query str))),
            receive_answer_lem {A = (Bytes × ℤ) × ZhtClient State} ret
                (cache.fetch c.connections k.dest.host).0 o got r
                (λ answer. (
                  answer,
                  record c { tcp = true; connections = (cache.fetch c.connections k.dest.host).1 },
                ))
                arrived read fits,
          )
          refl)

  -- A lookup by a client that has a connection to the server of the key, and whose encoded request has no
  -- zero byte and is sent whole: the client sends this request and nothing else, the server decodes it as
  -- operation 1 on the same key, and if the text of a status and a value comes back, the lookup ends with
  -- this value and status 0, or with "Empty" and status -2 if the text is that of a missing key. The value
  -- has no zero byte and less than 1022 bytes.
  pub lookup-answered :
      (str ret : Bytes) (c : ZhtClient State) (o : ℕ → Reply) (got : ℕ)
      (k : IsConnected (codec.parse str).virtualpath c) (value : Option Bytes)
      → IsShort value
      → NoNul (codec.serialize (query str))
      → (o 1).ret ≡ pos (length (codec.serialize (query str)))
      → (o 2).ret ≡ pos got
      → (o 2).payload ≡ lookup_text value
      → (payloads (trace o (lookup codec cache str ret c)) ≡ codec.serialize (query str) ∷ [])
        × (codec.parse (codec.serialize (query str)) ≡ query str)
        × (result o (lookup codec cache str ret c) ≡ some (answer_of value, touched k.dest.host c))
  lookup-answered str ret c o got k value short whole sent arrived carried =
      let (clean, fits) = text-IsShort value short in
      let text : c_str (o 2).payload ≡ lookup_text value =
        ap c_str carried ∙ c_str-NoNul (lookup_text value) clean in
      let runs =
        run-lookup str ret c o got k (answer_of value) whole sent arrived
          (rw text (read_answer-text value)) (rw text fits) in
      (ap (λ x. payloads x.1) runs, codec.parse-serialize (query str), ap (λ x. x.0) runs)
