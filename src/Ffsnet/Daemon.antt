-- ===== src/Ffsnet/Daemon.antt =====
-- The daemon of the file transfer: `transfile` of src/ffsnet/ffsnetd.cpp, the thread that serves
-- one connection. The diagnostics on `cout` are left out.
use fusionfs_cache.Io.{
  Io, done, fault, sys, ◌>>=◌, ◌>>◌, word, long, udt_close, udt_perfmon, udt_sendfile, udt_recvfile,
  udt_send, udt_recv, open_out, open_in, unlink_file, lstat_file, make_dirs, file_size, close_file,
}
use fusionfs_cache.Prelude.{
  Bool, true, false, not, ◌&&◌, Option, none, some, Bytes, ltb, if◌then◌else◌, ℤ, pos, negsuc,
  is_neg, is_error, is_nat,
}

-- file[len] = '\0' on `char file[1024]`
unfoldable pub in_buffer : ℤ → Bool
in_buffer (pos n) = ltb n 1024
in_buffer (negsuc n) = false

-- The length and the path; `none` is the early `return` behind a close.
receive_path : ℤ → Io (Option Bytes)
unfolding in_buffer
receive_path handle = do
  len ← sys (udt_recv handle (pos 4))
  if is_error len.ret then (sys (udt_close handle) >> done none) else do
    file ← sys (udt_recv handle len.num)
    if is_error file.ret
        then (sys (udt_close handle) >> done none)
        else (if in_buffer len.num then done (some file.payload) else fault)

-- The end of the function.
finish : ℤ → Io (Unit {0})
finish handle = do sys (udt_close handle); done tt

-- An early `return` that closes the connection and the file.
abandon : ℤ → Io (Unit {0})
abandon handle = do sys (udt_close handle); sys close_file; done tt

unfoldable pub upload : ℤ → Io (Unit {0})
unfolding receive_path finish abandon
upload handle = do
  received ← receive_path handle
  elim received [
    | none ↦ done tt
    | some file ↦ do
      sys (open_out file)
      size ← sys (udt_recv handle (pos 8))
      if is_error size.ret
          then abandon handle
          else (if is_neg size.num then abandon handle else do
            stored ← sys (udt_recvfile handle size.num)
            if is_error stored.ret then abandon handle else do sys close_file; finish handle)
  ]

unfoldable pub download : ℤ → Io (Unit {0})
unfolding receive_path finish abandon
download handle = do
  received ← receive_path handle
  elim received [
    | none ↦ done tt
    | some file ↦ do
      sys (open_in file)
      size ← sys file_size
      told ← sys (udt_send handle (long size.num))
      if is_error told.ret then abandon handle else do
        sys (udt_perfmon handle)
        streamed ← sys (udt_sendfile handle)
        if is_error streamed.ret
            then abandon handle
            else do sys (udt_perfmon handle); sys close_file; finish handle
  ]

-- The status, and the end of the function; an error of `send` closes and returns.
acknowledge : ℤ → Bool → Io (Unit {0})
unfolding finish
acknowledge handle failed = do
  sent ← sys (udt_send handle (word (if failed then pos 1 else pos 0)))
  if is_error sent.ret then (sys (udt_close handle) >> done tt) else finish handle

unfoldable pub remove_file : ℤ → Io (Unit {0})
unfolding receive_path acknowledge
remove_file handle = do
  received ← receive_path handle
  elim received [
    | none ↦ done tt
    | some file ↦ do
      stat ← sys (unlink_file file)
      if is_neg stat.ret
          then (sys (udt_close handle) >> acknowledge handle true)
          else acknowledge handle false
  ]

-- `num` of the reply of lstat is `errno`; ENOENT is 2
unfoldable pub make_directory : ℤ → Io (Unit {0})
unfolding receive_path acknowledge
make_directory handle = do
  received ← receive_path handle
  elim received [
    | none ↦ done tt
    | some file ↦ do
      info ← sys (lstat_file file)
      if not (is_nat info.ret 0) && is_nat info.num 2
          then (sys (make_dirs file) >> acknowledge handle false)
          else acknowledge handle (is_neg info.ret)
  ]

-- The chain of tests on the request type.
unfoldable pub serve : ℤ → ℤ → Io (Unit {0})
unfolding finish
serve handle is_recv =
    if is_nat is_recv 1
    then upload handle
    else if is_nat is_recv 0
    then download handle
    else if is_nat is_recv 2
    then remove_file handle
    else if is_nat is_recv 3
    then make_directory handle
    else finish handle

-- transfile
unfoldable pub transfile : ℤ → Io (Unit {0})
transfile handle = do
  is_recv ← sys (udt_recv handle (pos 4))
  if is_error is_recv.ret then done tt else serve handle is_recv.num
