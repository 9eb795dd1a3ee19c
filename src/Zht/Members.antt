-- ===== src/Zht/Members.antt =====
-- The list of servers: `struct HostEntity` and the functions over it of
-- src/zht/src/common/zht_util.cpp and src/zht/src/server_general.cpp. The socket address `si` is
-- computed from host and port, and `ringID` is never filled: neither is modelled.
pub mod Cut
pub mod Listed
use fusionfs_cache.Io.{Io, done, fault, sys, ◌>>=◌, ◌>>◌, close_fd}
use fusionfs_cache.Net.{resolve}
use fusionfs_cache.Prelude.{
  ℕ, zero, suc, ◌+◌, ◌-◌, ◌*◌, Bool, true, false, not, ◌&&◌, ◌||◌, Option, none, some, List, [],
  ◌∷◌, Bytes, eqb, length, take, ◌==◌, leb, ltb, if◌then◌else◌, ℤ, pos, negsuc, is_nonpos,
}

pub record HostEntity : Type 0 where
  pub host : Bytes
  pub port : ℕ
  pub sock : ℤ
  pub valid : Bool

-- An open ifstream: what is not yet read, eofbit, and failbit.
pub record Stream : Type 0 where
  pub rest : Bytes
  pub eof : Bool
  pub fail : Bool

-- isspace
abbrev pub is_space : ℕ → Bool
is_space c = (c == 32) || (leb 9 c && leb c 13)

pub skip_spaces : Bytes → Bytes
skip_spaces [] = []
skip_spaces (c ∷ s) = if is_space c then skip_spaces s else c ∷ s

-- The characters up to the first that fails the test, and the others.
pub span : (ℕ → Bool) → Bytes → Bytes × Bytes
span test [] = ([], [])
span test (c ∷ s) = let (w, r) = span test s in if test c then (c ∷ w, r) else ([], c ∷ s)

unfoldable pub is_empty : Bytes → Bool
is_empty [] = true
is_empty (c ∷ s) = false

-- What an extraction does first: a stream that is not good fails, and spaces are skipped.
pub sentry : Stream → Stream
unfolding skip_spaces is_empty
sentry f =
    let start = skip_spaces f.rest in
    if f.eof || f.fail
    then record f { fail = true }
    else record { rest = start; eof = is_empty start; fail = is_empty start }

-- in >> host; a failed extraction leaves the variable as it is
unfoldable pub read_host : Bytes → Stream → Bytes × Stream
unfolding sentry span is_empty
read_host host f =
    let good = sentry f in
    let (word, after) = span (λ c. not (is_space c)) good.rest in
    if good.fail
    then (host, good)
    else (word, record { rest = after; eof = is_empty after; fail = false })

unfoldable pub decimal : ℕ → Bytes → ℕ
decimal n [] = n
decimal n (c ∷ s) = decimal (n * 10 + (c - 48)) s

-- in >> port, of an `int`; no digit, or a number that does not fit, sets failbit. A port with a sign is
-- left out: `none`.
unfoldable pub read_port : ℕ → Stream → Option (ℕ × Stream)
unfolding sentry span is_empty decimal
read_port port f =
    let good = sentry f in
    let (digits, after) = span (λ c. leb 48 c && leb c 57) good.rest in
    let n = decimal 0 digits in
    let read : Stream = record { rest = after; eof = is_empty after; fail = false } in
    if good.fail
    then some (port, good)
    else if eqb (take 1 good.rest) (b'-' ∷ []) || eqb (take 1 good.rest) (b'+' ∷ [])
    then none
    else if is_empty digits
    then some (0, record read { fail = true })
    else if ltb n 2147483648
    then some (n, read)
    else some (2147483647, record read { fail = true })

-- in >> host >> port; record = gethostbyname(host.c_str()), whose result is dereferenced
unfoldable pub read_entry : Bytes → ℕ → Stream → Io (Bytes × ℕ × Stream)
unfolding read_host read_port resolve
read_entry host port f =
    let (host', f₁) = read_host host f in
    elim (read_port port f₁) [
      | none ↦ fault
      | some (port', f₂) ↦ do resolve host'; done (host', port', f₂)
    ]

-- The loop `while (!in.eof())`, on fuel. A round that takes nothing from the file and does not meet its
-- end is repeated for ever, as behind a port that is not a number: `fault` at the end of the fuel.
unfoldable pub read_members : ℕ → Bytes → ℕ → Stream → Io (List HostEntity)
unfolding read_entry
read_members zero host port f = fault
read_members (suc fuel) host port f = if f.eof then done [] else do
  (host', port', f') ← read_entry host port f
  others ← read_members fuel host' port' f'
  done (record { host = host; port = port; sock = negsuc 0; valid = true } ∷ others)

-- getMembership, with fuel for every byte; `none` is a file that does not open. `port` is not
-- initialized, and 0 here.
unfoldable pub get_membership : Option Bytes → Io (List HostEntity)
unfolding read_members read_entry
get_membership none = done []
get_membership (some text) = do
  (host, port, f) ← read_entry [] 0 (record { rest = text; eof = false; fail = false })
  read_members (length text + 1) host port f

-- The search for a server; `i` counts the ones passed.
index_from : ℕ → (HostEntity → Bool) → List HostEntity → ℤ
index_from i test [] = negsuc 0
index_from i test (h ∷ hs) = if test h then pos i else index_from (i + 1) test hs

-- myIndex
unfoldable pub my_index : List HostEntity → HostEntity → ℤ
unfolding index_from
my_index hosts a = index_from 0 (λ h. eqb h.host a.host && (h.port == a.port)) hosts

-- Host2Index
unfoldable pub host2index : List HostEntity → Bytes → ℤ
unfolding index_from
host2index hosts name = index_from 0 (λ h. eqb h.host name) hosts

-- tearDownTCP
unfoldable pub tear_down_tcp : List HostEntity → Io ℤ
tear_down_tcp [] = done (pos 0)
tear_down_tcp (h ∷ hs) =
    if is_nonpos h.sock then tear_down_tcp hs else do sys (close_fd h.sock); tear_down_tcp hs
