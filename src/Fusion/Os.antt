-- ===== src/Fusion/Os.antt =====
-- The process of FusionFS as its handlers see it (`struct fusion_state` of src/params.h, and the calls of
-- src/fusion.c and src/util.c on the system and on the file transfer): a state with the history of the
-- calls, newest first. An environment answers a call by this history. `none` is undefined behaviour.
use fusionfs_cache.Cache.Clock.{Clock}
use fusionfs_cache.Cache.Heap.{Heap, Cmd}
use fusionfs_cache.Fusion.Directory.{fits}
use fusionfs_cache.Prelude.{
  ℕ, zero, suc, ℤ, pos, negsuc, is_neg, Bool, if◌then◌else◌, Option, none, some, Bytes, List, ◌∷◌,
}

-- The calls with their arguments. A file descriptor is an `int`.
pub data SysCall : Type 0 where
  getifaddrs : SysCall
  ftw : Bytes → SysCall
  system : Bytes → SysCall
  access : Bytes → ℕ → SysCall
  lstat : Bytes → SysCall
  fstat : ℤ → SysCall
  mkdir : Bytes → ℕ → SysCall
  rmdir : Bytes → SysCall
  unlink : Bytes → SysCall
  rename : Bytes → Bytes → SysCall
  symlink : Bytes → Bytes → SysCall
  link : Bytes → Bytes → SysCall
  readlink : Bytes → ℕ → SysCall
  chmod : Bytes → ℕ → SysCall
  chown : Bytes → ℕ → ℕ → SysCall
  utime : Bytes → Option (ℕ × ℕ) → SysCall
  truncate : Bytes → ℕ → SysCall
  ftruncate : ℤ → ℕ → SysCall
  open_file : Bytes → ℕ → ℕ → SysCall
  creat : Bytes → ℕ → SysCall
  close : ℤ → SysCall
  mkfifo : Bytes → ℕ → SysCall
  mknod : Bytes → ℕ → ℕ → SysCall
  pread : ℤ → ℕ → ℕ → SysCall
  pwrite : ℤ → Bytes → ℕ → SysCall
  statvfs : Bytes → SysCall
  fsync : ℤ → SysCall
  fdatasync : ℤ → SysCall
  fcntl_getfl : ℤ → SysCall
  lsetxattr : Bytes → Bytes → Bytes → ℕ → SysCall
  lgetxattr : Bytes → Bytes → ℕ → SysCall
  llistxattr : Bytes → ℕ → SysCall
  lremovexattr : Bytes → Bytes → SysCall
  opendir : Bytes → SysCall
  closedir : ℤ → SysCall
  filler : Bytes → SysCall
  ffs_recvfile : Bytes → Bytes → Bytes → SysCall
  ffs_rmfile : Bytes → Bytes → SysCall

-- `ifa_addr`: NULL, an address of another family, or an IPv4 address with the text that inet_ntop gives.
pub data Address : Type 0 where
  no_address : Address
  other_family : Address
  ipv4 : Bytes → Address

pub record Interface : Type 0 where
  pub ifa_name : Bytes
  pub ifa_addr : Address

-- What a call returns; errno behind it; whether the `st_mode` that the caller then reads is that of a
-- symbolic link, and the `st_size` there, also when the call failed; the lists that two calls hand out.
pub record Answer : Type 0 where
  pub ret : ℤ
  pub errno : ℕ
  pub is_link : Bool
  pub st_size : ℕ
  pub interfaces : List Interface
  pub entries : List (Bytes × ℕ)

-- `newip` is what the stack holds in the array of `real_ip`, behind the copy.
pub record Env : Type 0 where
  pub reply : List SysCall → Answer
  pub newip : List SysCall → Bytes

pub record Fs (S : Type 0) : Type 0 where
  pub dht : S
  pub calls : List SysCall
  pub clock : Clock
  pub heap : Heap

abbrev pub fs : {S : Type 0} → S → List SysCall → Clock → Heap → Fs S
fs w t c h = record { dht = w; calls = t; clock = c; heap = h }

abbrev pub Act : Type 0 → Type 0 → Type 0
Act S A = Fs S → Option (A × Fs S)

module _ {S A : Type 0} where
  abbrev pub pure : A → Act S A
  pure a s = some (a, s)

  abbrev pub fault : Act S A
  fault s = none

  abbrev pub lift : Option A → Act S A
  lift none s = none
  lift (some a) s = some (a, s)

module _ {S A B : Type 0} where
  abbrev pub continue : (A → Act S B) → Option (A × Fs S) → Option (B × Fs S)
  continue k none = none
  continue k (some (a, s)) = k a s

  infixl 5 ◌>>=◌ ◌>>◌
  abbrev pub ◌>>=◌ : Act S A → (A → Act S B) → Act S B
  (m >>= k) s = continue k (m s)

  abbrev pub ◌>>◌ : Act S A → Act S B → Act S B
  (m >> n) s = continue (λ _. n) (m s)

module _ {S : Type 0} where
  abbrev pub sys : Env → SysCall → Act S Answer
  sys env c s = some (env.reply (c ∷ s.calls), fs s.dht (c ∷ s.calls) s.clock s.heap)

  -- A text that goes into a buffer of PATH_MAX bytes.
  abbrev pub buffer : Bytes → Act S Bytes
  buffer t s = if fits t then some (t, s) else none

  -- A use of ZHT.
  abbrev pub ask : {A : Type 0} → (S → A) → Act S A
  ask f s = some (f s.dht, s)

  abbrev pub put_dht : Fs S → S → Option (Unit {0} × Fs S)
  put_dht s w = some (tt, fs w s.calls s.clock s.heap)

  abbrev pub change : (S → S) → Act S (Unit {0})
  change f s = put_dht s (f s.dht)

  abbrev pub then_put : Fs S → Option S → Option (Unit {0} × Fs S)
  then_put s none = none
  then_put s (some w) = put_dht s w

  abbrev pub try_change : (S → Option S) → Act S (Unit {0})
  try_change f s = then_put s (f s.dht)

  -- A call on the clock queue.
  abbrev pub then_queue : {A : Type 0} → Fs S → Option ((A × Clock) × Heap) → Option (A × Fs S)
  then_queue s none = none
  then_queue s (some ((a, c), h)) = some (a, fs s.dht s.calls c h)

  abbrev pub on_queue : {A : Type 0} → (Clock → Cmd (A × Clock)) → Act S A
  on_queue m s = then_queue s (m s.clock s.heap)

  abbrev pub then_clock : Fs S → Option (Clock × Heap) → Option (Unit {0} × Fs S)
  then_clock s none = none
  then_clock s (some (c, h)) = some (tt, fs s.dht s.calls c h)

  abbrev pub on_clock : (Clock → Cmd Clock) → Act S (Unit {0})
  on_clock m s = then_clock s (m s.clock s.heap)

-- `fusion_error`, right behind the call that failed: -errno.
abbrev pub negated : ℕ → ℤ
negated zero = pos 0
negated (suc n) = negsuc n

abbrev pub fusion_error : Answer → ℤ
fusion_error r = negated r.errno

-- retstat = call(...); if (retstat < 0) retstat = fusion_error(...);
abbrev pub checked : Answer → ℤ
checked r = if is_neg r.ret then fusion_error r else r.ret
