-- ===== src/Ffsnet/Protocol.antt =====
-- The client (ffsnet.cpp) against the daemon (ffsnetd.cpp): the messages of one are the replies of
-- the other.
use fusionfs_cache.Ffsnet.Client.{ffs_mkdir, ffs_rmfile, recvfile_udt, sendfile_udt}
use fusionfs_cache.Ffsnet.Daemon.{
  in_buffer, transfile, serve, upload, download, remove_file, make_directory,
}
use fusionfs_cache.Io.{
  Io, done, fault, call, Call, Reply, Message, word, long, text, udt_recv, trace, result, messages,
  udt_recvfile, udt_sendfile, open_out, open_in, unlink_file, lstat_file, make_dirs,
}
use fusionfs_cache.Prelude.{
  ℕ, suc, ◌<◌, ◌≡◌, refl, ap, ◌∙◌, true, false, not, ◌&&◌, some, List, [], ◌∷◌, arith, Bytes,
  length, if◌then◌else◌, ℤ, pos, is_neg, is_error, is_nat,
}

-- What `recv` gives for a message of the peer.
abbrev pub carry : Message → Reply
carry (word n) = record { ret = pos 4; num = n; payload = [] }
carry (long n) = record { ret = pos 8; num = n; payload = [] }
carry (text s) = record { ret = pos (length s); num = pos 0; payload = s }

-- A `recv` gives the next message of the peer; every other call is answered by `o`.
abbrev pub next_reply : Call → List Message → Reply → Reply × List Message
next_reply (udt_recv s n) (m ∷ ms) r = (carry m, ms)
next_reply c ms r = (r, ms)

-- The calls of a run whose peer sent `ms`.
abbrev pub trace_on {ℓ} : {A : Type ℓ} → List Message → (ℕ → Reply) → ℕ → Io A → List Call
trace_on ms o i (done a) = []
trace_on ms o i fault = []
trace_on ms o i (call c k) =
    let (r, rest) = next_reply c ms (o i) in c ∷ trace_on rest o (suc i) (k r)

-- The calls of a run that read or change files.
abbrev pub file_calls : List Call → List Call
file_calls [] = []
file_calls (open_out f ∷ t) = open_out f ∷ file_calls t
file_calls (open_in f ∷ t) = open_in f ∷ file_calls t
file_calls (unlink_file f ∷ t) = unlink_file f ∷ file_calls t
file_calls (lstat_file f ∷ t) = lstat_file f ∷ file_calls t
file_calls (make_dirs f ∷ t) = make_dirs f ∷ file_calls t
file_calls (udt_recvfile s n ∷ t) = udt_recvfile s n ∷ file_calls t
file_calls (udt_sendfile s ∷ t) = udt_sendfile s ∷ file_calls t
file_calls (c ∷ t) = file_calls t

-- No call of the client fails.
pub record Answers (o : ℕ → Reply) : Type 0 where
  pub resolved : is_nat (o 2).ret 0 ≡ true
  pub connected : is_error (o 3).ret ≡ false
  pub sent_kind : is_error (o 4).ret ≡ false
  pub sent_length : is_error (o 5).ret ≡ false
  pub sent_path : is_error (o 6).ret ≡ false

-- The daemon's run on what a client's run sent; `d` answers its other calls.
abbrev pub daemon_on : List Message → (ℕ → Reply) → ℤ → List Call
daemon_on ms d handle = trace_on ms d 0 (transfile handle)

abbrev request : ℕ → Bytes → List Message
request kind path = word (pos kind) ∷ word (pos (length path)) ∷ text path ∷ []

abbrev upload_request : Bytes → ℤ → List Message
upload_request path size = word (pos 1) ∷ word (pos (length path)) ∷ text path ∷ long size ∷ []

module _ (o : ℕ → Reply) (ip port path : Bytes) (a : Answers o) where
  rmfile-messages : messages (trace o (ffs_rmfile ip port path)) ≡ request 2 path
  unfolding ffs_rmfile
  rmfile-messages = rw (a.resolved, a.connected, a.sent_kind, a.sent_length, a.sent_path) refl

  rmfile-result :
      result o (ffs_rmfile ip port path) ≡ some (if is_error (o 7).ret then pos 0 else (o 7).num)
  unfolding ffs_rmfile
  rmfile-result = ground arith

  mkdir-messages : messages (trace o (ffs_mkdir ip port path)) ≡ request 3 path
  unfolding ffs_mkdir
  mkdir-messages = rw (a.resolved, a.connected, a.sent_kind, a.sent_length, a.sent_path) refl

  sendfile-messages :
      (local : Bytes)
      → messages (trace o (sendfile_udt ip port local path)) ≡ upload_request path (o 8).num
  unfolding sendfile_udt
  sendfile-messages local =
      rw (a.resolved, a.connected, a.sent_kind, a.sent_length, a.sent_path) (ground arith)

  recvfile-messages :
      (local : Bytes) → messages (trace o (recvfile_udt ip port path local)) ≡ request 0 path
  unfolding recvfile_udt
  recvfile-messages local =
      rw (a.resolved, a.connected, a.sent_kind, a.sent_length, a.sent_path) (ground arith)

module _ (d : ℕ → Reply) (handle : ℤ) (path : Bytes) (short : length path < 1024) where
  fits : in_buffer (pos (length path)) ≡ true
  unfolding in_buffer
  fits = ground arith

  request-unlinks : file_calls (daemon_on (request 2 path) d handle) ≡ unlink_file path ∷ []
  unfolding transfile serve upload download remove_file make_directory
  request-unlinks = rw fits (ground arith)

  request-makes :
      file_calls (daemon_on (request 3 path) d handle)
      ≡ lstat_file path
        ∷ (if not (is_nat (d 3).ret 0) && is_nat (d 3).num 2 then make_dirs path ∷ [] else [])
  unfolding transfile serve upload download remove_file make_directory
  request-makes = rw fits (ground arith)

  request-stores :
      (size : ℕ)
      → file_calls (daemon_on (upload_request path (pos size)) d handle)
        ≡ open_out path ∷ udt_recvfile handle (pos size) ∷ []
  unfolding transfile serve upload download remove_file make_directory
  request-stores size = rw fits (ground arith)

  request-reads :
      file_calls (daemon_on (request 0 path) d handle)
      ≡ open_in path ∷ (if is_error (d 5).ret then [] else udt_sendfile handle ∷ [])
  unfolding transfile serve upload download remove_file make_directory
  request-reads = rw fits (ground arith)

  request-answers :
      messages (daemon_on (request 2 path) d handle)
      ≡ word (if is_neg (d 3).ret then pos 1 else pos 0) ∷ []
  unfolding transfile serve upload download remove_file make_directory
  request-answers = rw fits (ground arith)

-- A remove request of a path below 1024 bytes, on which no call of the client fails, makes the daemon
-- unlink that path, and touch no other file.
pub rmfile-unlinks :
    (o d : ℕ → Reply) (ip port path : Bytes) (handle : ℤ)
    → Answers o
    → length path < 1024
    → file_calls (daemon_on (messages (trace o (ffs_rmfile ip port path))) d handle)
      ≡ unlink_file path ∷ []
rmfile-unlinks o d ip port path handle a short =
    ap (λ ms. file_calls (daemon_on ms d handle)) (rmfile-messages o ip port path a)
    ∙ request-unlinks d handle path short

-- A request for a directory, its path below 1024 bytes, on which no call of the client fails, makes
-- the daemon look at that path and, exactly if it is missing, make the directory; no other file is
-- touched.
pub mkdir-makes :
    (o d : ℕ → Reply) (ip port path : Bytes) (handle : ℤ)
    → Answers o
    → length path < 1024
    → file_calls (daemon_on (messages (trace o (ffs_mkdir ip port path))) d handle)
      ≡ lstat_file path
        ∷ (if not (is_nat (d 3).ret 0) && is_nat (d 3).num 2 then make_dirs path ∷ [] else [])
mkdir-makes o d ip port path handle a short =
    ap (λ ms. file_calls (daemon_on ms d handle)) (mkdir-messages o ip port path a)
    ∙ request-makes d handle path short

-- An upload to a path below 1024 bytes, on which no call of the client fails, makes the daemon open
-- the remote path for writing and store as many bytes as the client's file has.
pub sendfile-stores :
    (o d : ℕ → Reply) (ip port local path : Bytes) (handle : ℤ) (size : ℕ)
    → Answers o
    → length path < 1024
    → (o 8).num ≡ pos size
    → file_calls (daemon_on (messages (trace o (sendfile_udt ip port local path))) d handle)
      ≡ open_out path ∷ udt_recvfile handle (pos size) ∷ []
sendfile-stores o d ip port local path handle size a short sized =
    ap (λ ms. file_calls (daemon_on ms d handle)) (sendfile-messages o ip port path a local)
    ∙ ap (λ n. file_calls (daemon_on (upload_request path n) d handle)) sized
    ∙ request-stores d handle path short size

-- A download of a path below 1024 bytes, on which no call of the client fails, makes the daemon open
-- the remote path for reading; it streams the file unless the size cannot be sent, and changes no
-- file.
pub recvfile-reads :
    (o d : ℕ → Reply) (ip port path local : Bytes) (handle : ℤ)
    → Answers o
    → length path < 1024
    → file_calls (daemon_on (messages (trace o (recvfile_udt ip port path local))) d handle)
      ≡ open_in path ∷ (if is_error (d 5).ret then [] else udt_sendfile handle ∷ [])
recvfile-reads o d ip port path local handle a short =
    ap (λ ms. file_calls (daemon_on ms d handle)) (recvfile-messages o ip port path a local)
    ∙ request-reads d handle path short

-- To a remove request of a path below 1024 bytes, on which no call of the client fails, the daemon
-- reports 1 if unlink failed and else 0; if the client receives this report, it returns it.
pub rmfile-reports :
    (o d : ℕ → Reply) (ip port path : Bytes) (handle : ℤ)
    → Answers o
    → length path < 1024
    → o 7 ≡ carry (word (if is_neg (d 3).ret then pos 1 else pos 0))
    → let answer = if is_neg (d 3).ret then pos 1 else pos 0 in
      (messages (daemon_on (messages (trace o (ffs_rmfile ip port path))) d handle)
        ≡ word answer ∷ [])
      × (result o (ffs_rmfile ip port path) ≡ some answer)
rmfile-reports o d ip port path handle a short e = (
  ap (λ ms. messages (daemon_on ms d handle)) (rmfile-messages o ip port path a)
      ∙ request-answers d handle path short,
  rmfile-result o ip port path a ∙ rw e refl,
)
