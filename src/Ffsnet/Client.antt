-- ===== src/Ffsnet/Client.antt =====
-- The client side of the file transfer: src/ffsnet/ffsnet.cpp. The diagnostics on `cout` and `cerr`
-- are left out.
use fusionfs_cache.Io.{
  Io, done, fault, sys, ◌>>=◌, ◌>>◌, word, long, text, udt_startup, udt_cleanup, udt_socket,
  getaddrinfo, udt_connect, udt_close, udt_perfmon, udt_sendfile, udt_recvfile, udt_send, udt_recv,
  open_out, open_in, file_exists, make_dirs, file_size, close_file,
}
use fusionfs_cache.Prelude.{
  Bool, false, not, Option, none, some, [], ◌∷◌, Bytes, codes, eqb, length, ◌==◌, if◌then◌else◌, ℤ,
  pos, negsuc, is_neg, is_error, is_nat,
}

-- The head of all four requests: UDT::startup, UDT::socket, getaddrinfo, UDT::connect. `none` is
-- the early `return -1`.
dial : Bytes → Bytes → Io (Option ℤ)
dial remote_ip server_port = do
  sys udt_startup
  opened ← sys udt_socket
  resolved ← sys (getaddrinfo remote_ip server_port)
  if not (is_nat resolved.ret 0) then done none else do
    connected ← sys (udt_connect opened.ret)
    if is_error connected.ret then done none else done (some opened.ret)

-- The request type, the length of the path and the path. `false` is an early `return -1`.
send_request : ℤ → ℤ → Bytes → Io Bool
send_request handle kind path = do
  a ← sys (udt_send handle (word kind))
  if is_error a.ret then done false else do
    b ← sys (udt_send handle (word (pos (length path))))
    if is_error b.ret
        then done false
        else do c ← sys (udt_send handle (text path)); done (not (is_error c.ret))

-- `int stat` from the daemon; an error of `recv` gives 0.
receive_status : ℤ → Io ℤ
receive_status handle = do
  r ← sys (udt_recv handle (pos 4))
  done (if is_error r.ret then pos 0 else r.num)

ask : ℤ → Bytes → Bytes → Bytes → Io ℤ
unfolding dial send_request receive_status
ask kind remote_ip server_port remote_filename = do
  dialled ← dial remote_ip server_port
  elim dialled [
    | none ↦ done (negsuc 0)
    | some handle ↦ do
      sent ← send_request handle kind remote_filename
      if sent then receive_status handle else done (negsuc 0)
  ]

unfoldable pub ffs_mkdir : Bytes → Bytes → Bytes → Io ℤ
unfolding ask
ffs_mkdir remote_ip server_port remote_filename = ask (pos 3) remote_ip server_port remote_filename

unfoldable pub ffs_rmfile : Bytes → Bytes → Bytes → Io ℤ
unfolding ask
ffs_rmfile remote_ip server_port remote_filename = ask (pos 2) remote_ip server_port remote_filename

-- The part of a path in front of its last '/'. `none`: there is no '/', and `pch` is NULL.
unfoldable pub parent_path : Bytes → Option Bytes
parent_path [] = none
parent_path (c ∷ s) = elim (parent_path s) [
  | some p ↦ some (c ∷ p)
  | none ↦ if c == b'/' then some [] else none
]

-- The parent directory of `local_filename` is made if it is missing.
make_parent : Bytes → Io (Option ℤ)
unfolding parent_path
make_parent local_filename = elim (parent_path local_filename) [
  | none ↦ fault
  | some path ↦ do
    found ← sys (file_exists path)
    if is_nat found.ret 0 then done none else do sys (make_dirs path); done none
]

-- _recvfile_udt. The function ends without a `return`: `none` stands for the missing value.
unfoldable pub recvfile_udt : Bytes → Bytes → Bytes → Bytes → Io (Option ℤ)
unfolding dial send_request make_parent
recvfile_udt remote_ip server_port remote_filename local_filename = do
  dialled ← dial remote_ip server_port
  elim dialled [
    | none ↦ done (some (negsuc 0))
    | some handle ↦ do
      sent ← send_request handle (pos 0) remote_filename
      if not sent then done (some (negsuc 0)) else do
        size ← sys (udt_recv handle (pos 8))
        if is_error size.ret
            then done (some (negsuc 0))
            else (if is_neg size.num then done (some (negsuc 0)) else do
              make_parent local_filename
              sys (open_out local_filename)
              received ← sys (udt_recvfile handle size.num)
              if is_error received.ret
                  then done (some (negsuc 0))
                  else do sys (udt_close handle); sys close_file; sys udt_cleanup; done none)
  ]

-- _sendfile_udt. The function ends without a `return` too.
unfoldable pub sendfile_udt : Bytes → Bytes → Bytes → Bytes → Io (Option ℤ)
unfolding dial send_request
sendfile_udt remote_ip server_port local_filename remote_filename = do
  dialled ← dial remote_ip server_port
  elim dialled [
    | none ↦ done (some (negsuc 0))
    | some handle ↦ do
      sent ← send_request handle (pos 1) remote_filename
      if not sent then done (some (negsuc 0)) else do
        sys (open_in local_filename)
        size ← sys file_size
        told ← sys (udt_send handle (long size.num))
        if is_error told.ret then done (some (pos 0)) else do
          sys (udt_perfmon handle)
          streamed ← sys (udt_sendfile handle)
          if is_error streamed.ret then done (some (pos 0)) else do
            sys (udt_perfmon handle)
            sys (udt_close handle)
            sys close_file
            sys udt_cleanup
            done none
  ]

-- `stray` is what the caller reads as the result of a function that returned none.
abbrev settle : ℤ → Option ℤ → ℤ
settle stray none = if is_error stray then negsuc 0 else pos 0
settle stray (some r) = if is_error r then negsuc 0 else pos 0

unfoldable pub ffs_recvfile : ℤ → Bytes → Bytes → Bytes → Bytes → Bytes → Io ℤ
unfolding recvfile_udt eqb
ffs_recvfile stray proto remote_ip server_port remote_filename local_filename =
    if not (eqb (codes "udt") proto) then done (negsuc 0) else do
      r ← recvfile_udt remote_ip server_port remote_filename local_filename
      done (settle stray r)

unfoldable pub ffs_sendfile : ℤ → Bytes → Bytes → Bytes → Bytes → Bytes → Io ℤ
unfolding sendfile_udt eqb
ffs_sendfile stray proto remote_ip server_port local_filename remote_filename =
    if not (eqb (codes "udt") proto) then done (negsuc 0) else do
      r ← sendfile_udt remote_ip server_port local_filename remote_filename
      done (settle stray r)
