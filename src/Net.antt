-- ===== src/Net.antt =====
-- The socket helpers of ZHT: src/zht/src/common/net_util.cpp. A negative result of a call is an
-- error; `gethostbyname` gives NULL as 0, which the code goes on to dereference. The diagnostics
-- are left out. A string goes out up to its first zero byte, since the code measures it by strlen.
pub mod Contacts
pub mod Sends
pub mod Sockets
use fusionfs_cache.Io.{
  Io, Call, Reply, done, fault, sys, ◌>>=◌, ◌>>◌, gethostbyname, socket, bind_port, listen_on,
  connect_to, accept_on, close_fd, reuse_addr, recv_timeout, send_bytes, sendto_bytes, recv_bytes,
  recvfrom_bytes,
}
use fusionfs_cache.Prelude.{
  ℕ, ◌≡◌, Bool, true, false, not, Option, [], ◌∷◌, Bytes, c_str, length, if◌then◌else◌, ℤ, pos,
  negsuc, is_neg, is_nat,
}

-- close(svrSock); return -1;
give_up : ℤ → Io ℤ
give_up sock = do sys (close_fd sock); done (negsuc 0)

-- makeSvrSocket
unfoldable pub make_svr_socket : ℕ → Bool → Io ℤ
unfolding give_up
make_svr_socket port tcp = do
  made ← sys (socket tcp)
  if is_neg made.ret then give_up made.ret else do
    bound ← sys (bind_port made.ret port)
    if is_neg bound.ret
        then give_up made.ret
        else (if not tcp then done made.ret else do
          listening ← sys (listen_on made.ret 1000)
          if is_neg listening.ret then give_up made.ret else done made.ret)

-- svr_accept
unfoldable pub svr_accept : ℤ → Bool → Io ℤ
svr_accept sock tcp =
    if not tcp then done sock else do accepted ← sys (accept_on sock); done accepted.ret

-- The lookups whose result is dereferenced.
unfoldable pub resolve : Bytes → Io (Unit {0})
resolve host = do
  found ← sys (gethostbyname (c_str host))
  if is_nat found.ret 0 then fault else done tt

-- makeClientSocket
unfoldable pub make_client_socket : Bytes → ℕ → Bool → Io ℤ
unfolding resolve give_up
make_client_socket host port true = do
  resolve host
  made ← sys (socket true)
  if is_neg made.ret then done (negsuc 0) else do
    connected ← sys (connect_to made.ret port)
    if is_neg connected.ret then done (negsuc 0) else done made.ret
make_client_socket host port false = do
  made ← sys (socket false)
  if is_neg made.ret then give_up made.ret else done made.ret

-- udpSendTo
unfoldable pub udp_send_to : ℤ → Bytes → ℕ → Bytes → Io ℤ
unfolding resolve
udp_send_to sock host port buff = do
  resolve host
  sent ← sys (sendto_bytes sock (c_str buff))
  done sent.ret

-- udpRecvFrom
unfoldable pub udp_recv_from : ℤ → ℕ → Io Reply
udp_recv_from sock size = sys (recvfrom_bytes sock size)

-- udpSendBack
unfoldable pub udp_send_back : ℤ → Bytes → Io ℤ
udp_send_back sock buff = do sent ← sys (sendto_bytes sock (c_str buff)); done sent.ret

-- generalSendTo
unfoldable pub general_send_to : Bytes → ℕ → ℤ → Bytes → Bool → Io ℤ
unfolding udp_send_to
general_send_to host port sock buff tcp = if not tcp then udp_send_to sock host port buff else do
  sent ← sys (send_bytes sock (c_str buff))
  done (if is_neg sent.ret then negsuc 0 else sent.ret)

-- generalSendBack
unfoldable pub general_send_back : ℤ → Bytes → Bool → Io ℤ
unfolding udp_send_back
general_send_back sock buff tcp =
    if not tcp
    then udp_send_back sock buff
    else do sent ← sys (send_bytes sock (c_str buff)); done sent.ret

-- sentSize != buff_size
sent_all : ℤ → Bytes → Bool
sent_all sent buff = is_nat sent (length (c_str buff))

-- generalSendUDP
unfoldable pub general_send_udp : Bytes → ℕ → ℤ → Bytes → Io ℤ
unfolding resolve give_up sent_all
general_send_udp host port sock buff = do
  resolve host
  sent ← sys (sendto_bytes sock (c_str buff))
  if not (sent_all sent.ret buff) then give_up sock else done sent.ret

-- generalReceive; the reply also has what the buffer holds
unfoldable pub general_receive : ℤ → ℕ → Bool → Io (ℤ × Reply)
unfolding udp_recv_from
general_receive sock size tcp = do
  got ← (if tcp then sys (recv_bytes sock size) else udp_recv_from sock size)
  done (if is_neg got.ret then negsuc 0 else got.ret, got)

-- generalSendTCP
unfoldable pub general_send_tcp : ℤ → Bytes → Io ℤ
general_send_tcp sock buff = do
  sent ← sys (send_bytes sock (c_str buff))
  done (if is_neg sent.ret then negsuc 0 else sent.ret)

-- generalReveiveTCP
unfoldable pub general_receive_tcp : ℤ → ℕ → Io Reply
general_receive_tcp sock size = sys (recv_bytes sock size)

-- generalReceiveUDP
unfoldable pub general_receive_udp : ℤ → Bytes → ℕ → Io ℤ
unfolding resolve give_up
general_receive_udp sock host size = do
  resolve host
  got ← sys (recvfrom_bytes sock size)
  if is_neg got.ret then give_up sock else done got.ret

-- simpleRecvUDP
unfoldable pub simple_recv_udp : ℤ → ℕ → Io ℤ
simple_recv_udp sock size = do got ← sys (recvfrom_bytes sock size); done got.ret

-- serverReceive
unfoldable pub server_receive : ℤ → ℕ → Bool → Io ℤ
unfolding give_up
server_receive sock size tcp =
    if tcp then (do got ← sys (recv_bytes sock size); done got.ret) else do
      got ← sys (recvfrom_bytes sock size)
      if is_neg got.ret then give_up sock else done got.ret

-- reuseSock
unfoldable pub reuse_sock : ℤ → Io ℤ
reuse_sock sock = do r ← sys (reuse_addr sock); done (if is_neg r.ret then negsuc 0 else pos 0)

-- setRecvTimeout; the microseconds are not used
unfoldable pub set_recv_timeout : ℤ → ℕ → ℕ → Io ℤ
set_recv_timeout sock sec usec = do r ← sys (recv_timeout sock sec); done r.ret
