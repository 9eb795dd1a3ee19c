-- ===== src/Net/Sockets.antt =====
-- Which runs of the socket helpers of net_util.cpp close the socket that they opened.
use fusionfs_cache.Io.{Reply, Call, result, trace, close_fd}
use fusionfs_cache.Net.{make_svr_socket, make_client_socket}
use fusionfs_cache.Prelude.{
  ℕ, ◌≡◌, Bool, true, false, some, List, [], ◌∷◌, arith, Bytes, if◌then◌else◌, ℤ, negsuc, is_neg,
  is_nat,
}

-- The descriptors that a run closes.
abbrev pub closed : List Call → List ℤ
closed [] = []
closed (close_fd s ∷ t) = s ∷ closed t
closed (c ∷ t) = closed t

-- makeSvrSocket gives the socket of its first call and leaves it open, or gives -1 and closes it
-- once: on every run, whichever call fails.
pub make_svr_socket-closed :
    (o : ℕ → Reply) (port : ℕ) (tcp : Bool)
    → let failed =
        if is_neg (o 0).ret
        then true
        else if is_neg (o 1).ret
        then true
        else if tcp
        then is_neg (o 2).ret
        else false in
      (result o (make_svr_socket port tcp) ≡ some (if failed then negsuc 0 else (o 0).ret))
      × (closed (trace o (make_svr_socket port tcp)) ≡ (if failed then (o 0).ret ∷ [] else []))
unfolding make_svr_socket
make_svr_socket-closed o port tcp = ground arith

-- makeClientSocket for TCP gives -1 if the connection fails, without closing the socket that it
-- made: no run of it closes anything.
pub make_client_socket-closed :
    (o : ℕ → Reply) (host : Bytes) (port : ℕ)
    → is_nat (o 0).ret 0 ≡ false
    → (result o (make_client_socket host port true)
        ≡ some (
            if is_neg (o 1).ret
            then negsuc 0
            else if is_neg (o 2).ret
            then negsuc 0
            else (o 1).ret))
      × (closed (trace o (make_client_socket host port true)) ≡ [])
unfolding make_client_socket
make_client_socket-closed o host port found = ground arith
