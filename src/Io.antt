-- ===== src/Io.antt =====
-- Programs that call the operating system or the UDT library. A call hands over its arguments and
-- waits for a reply; the replies are those of the environment, and a theorem ranges over all of
-- them. Nothing is assumed of a call beyond the reply that it gives.
pub mod Runs
use fusionfs_cache.Prelude.{
  ℕ, zero, suc, ◌+◌, ◌≡◌, refl, Bool, true, false, Option, none, some, List, [], ◌∷◌, ◌++◌, Bytes,
  ℤ, pos,
}

-- What goes over a UDT connection: an `int`, an `int64_t`, or bytes.
pub data Message : Type 0 where
  word : ℤ → Message
  long : ℤ → Message
  text : Bytes → Message

pub data Call : Type 0 where
  -- name service and sockets
  gethostbyname : Bytes → Call
  socket : Bool → Call
  bind_port listen_on connect_to : ℤ → ℕ → Call
  accept_on close_fd reuse_addr : ℤ → Call
  recv_timeout : ℤ → ℕ → Call
  send_bytes sendto_bytes : ℤ → Bytes → Call
  recv_bytes recvfrom_bytes : ℤ → ℕ → Call
  send_status sendto_status : ℤ → ℤ → Call
  -- UDT
  udt_startup udt_cleanup udt_socket : Call
  getaddrinfo : Bytes → Bytes → Call
  udt_connect udt_close udt_perfmon udt_sendfile : ℤ → Call
  udt_recvfile : ℤ → ℤ → Call
  udt_send : ℤ → Message → Call
  udt_recv : ℤ → ℤ → Call
  -- files
  open_out open_in file_exists unlink_file lstat_file make_dirs : Bytes → Call
  file_size close_file : Call

-- What a call returns, and what it stores through its pointer arguments.
pub record Reply : Type 0 where
  pub ret : ℤ
  pub num : ℤ
  pub payload : Bytes

-- `fault` is undefined behaviour: a write past a buffer, a null pointer.
pub data Io {ℓ} (A : Type ℓ) : Type ℓ where
  done : A → Io A
  fault : Io A
  call : Call → (Reply → Io A) → Io A

abbrev pub sys : Call → Io Reply
sys c = call c done

infixl 5 ◌>>=◌ ◌>>◌
abbrev pub ◌>>=◌ {ℓ κ} : {A : Type ℓ} {B : Type κ} → Io A → (A → Io B) → Io B
done a >>= f = f a
fault >>= f = fault
call c k >>= f = call c (λ r. k r >>= f)

abbrev pub ◌>>◌ {ℓ κ} : {A : Type ℓ} {B : Type κ} → Io A → Io B → Io B
m >> n = m >>= λ _. n

-- A run under the replies `o i`, `o (i + 1)`, …: the result, and the calls made.
abbrev pub run {ℓ} : {A : Type ℓ} → (ℕ → Reply) → ℕ → Io A → Option A × List Call
run o i (done a) = (some a, [])
run o i fault = (none, [])
run o i (call c k) = let (a, t) = run o (suc i) (k (o i)) in (a, c ∷ t)

abbrev pub result {ℓ} : {A : Type ℓ} → (ℕ → Reply) → Io A → Option A
result o m = (run o 0 m).0

abbrev pub trace {ℓ} : {A : Type ℓ} → (ℕ → Reply) → Io A → List Call
trace o m = (run o 0 m).1

-- How often a call closes a UDT socket.
abbrev pub closes : List Call → ℕ
closes [] = 0
closes (udt_close s ∷ t) = suc (closes t)
closes (c ∷ t) = closes t

-- The messages that a run sends over its UDT connection.
abbrev pub messages : List Call → List Message
messages [] = []
messages (udt_send s m ∷ t) = m ∷ messages t
messages (c ∷ t) = messages t
