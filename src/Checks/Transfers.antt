-- ===== src/Checks/Transfers.antt =====
-- The file transfer at concrete inputs.
use fusionfs_cache.Ffsnet.Client.{ffs_rmfile, sendfile_udt, recvfile_udt}
use fusionfs_cache.Ffsnet.Daemon.{in_buffer, transfile}
use fusionfs_cache.Ffsnet.Protocol.{
  carry, file_calls, Answers, daemon_on, rmfile-unlinks, sendfile-stores, recvfile-reads,
}
use fusionfs_cache.Ffsnet.Sockets.{transfile-closes, transfile-done, transfile-overflow}
use fusionfs_cache.Io.{
  Reply, word, result, trace, closes, messages, unlink_file, open_in, open_out, udt_recvfile,
  udt_sendfile,
}
use fusionfs_cache.Prelude.{
  ℕ, zero, suc, ◌≡◌, refl, some, none, [], ◌∷◌, arith, Bytes, codes, pos, negsuc, ◌==◌,
  if◌then◌else◌,
}

abbrev ip : Bytes
ip = codes "127.0.0.1"

abbrev port : Bytes
port = codes "9001"

abbrev path : Bytes
path = codes "/a"

-- The client's calls: `getaddrinfo` gives 0, as does every other call; the file has 0 bytes.
abbrev quiet : ℕ → Reply
quiet i = record { ret = pos 0; num = pos 0; payload = [] }

quiet-Answers : Answers quiet
quiet-Answers = record {
  resolved = refl;
  connected = refl;
  sent_kind = refl;
  sent_length = refl;
  sent_path = refl;
}

-- The daemon's calls: each fails, with errno 2.
abbrev failing : ℕ → Reply
failing i = record { ret = negsuc 0; num = pos 2; payload = [] }

rmfile-unlinks_example :
    file_calls (daemon_on (messages (trace quiet (ffs_rmfile ip port path))) quiet (pos 3))
    ≡ unlink_file path ∷ []
rmfile-unlinks_example = rmfile-unlinks quiet quiet ip port path (pos 3) quiet-Answers (omega arith)

sendfile-stores_example :
    file_calls (daemon_on (messages (trace quiet (sendfile_udt ip port path path))) quiet (pos 3))
    ≡ open_out path ∷ udt_recvfile (pos 3) (pos 0) ∷ []
sendfile-stores_example =
    sendfile-stores quiet quiet ip port path path (pos 3) 0 quiet-Answers (omega arith) refl

recvfile-reads_example :
    file_calls (daemon_on (messages (trace quiet (recvfile_udt ip port path path))) quiet (pos 3))
    ≡ open_in path ∷ udt_sendfile (pos 3) ∷ []
recvfile-reads_example =
    recvfile-reads quiet quiet ip port path path (pos 3) quiet-Answers (omega arith)

-- The client receives status 1.
abbrev refused : ℕ → Reply
refused i = if i == 7 then carry (word (pos 1)) else quiet i

refused-Answers : Answers refused
refused-Answers = record {
  resolved = refl;
  connected = refl;
  sent_kind = refl;
  sent_length = refl;
  sent_path = refl;
}

-- A remove request whose path has two bytes.
abbrev removing : ℕ → Reply
removing i = record { ret = negsuc 1; num = pos 2; payload = path }

removing-done : result removing (transfile (pos 3)) ≡ some tt
unfolding in_buffer
removing-done = transfile-done removing (pos 3) refl

-- No call fails with -1, but unlink gives -2: the connection is closed twice.
transfile-closes_example : closes (trace removing (transfile (pos 3))) ≡ 2
transfile-closes_example = transfile-closes removing (pos 3) removing-done

-- A remove request that announces 2000 bytes.
abbrev long_path : ℕ → Reply
long_path zero = record { ret = pos 4; num = pos 2; payload = [] }
long_path (suc i) = record { ret = pos 4; num = pos 2000; payload = path }

transfile-overflow_example : result long_path (transfile (pos 3)) ≡ none
unfolding in_buffer
transfile-overflow_example =
    transfile-overflow long_path (pos 3) 2 2000 refl refl (omega arith) refl refl refl
