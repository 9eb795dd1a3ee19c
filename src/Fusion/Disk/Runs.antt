-- ===== src/Fusion/Disk/Runs.antt =====
-- On `net_getmyip`, `move_file_ssd` and `get_used_ssd` (src/util.c): which calls they make.
use fusionfs_cache.Fusion.Disk.{
  loopback, mv, int_mod, over_limit, take_address, last_address, net_getmyip, move_file_ssd,
  sum_size_ssd, sum_sizes, get_used_ssd, ssd_is_full,
}
use fusionfs_cache.Fusion.Directory.{fits}
use fusionfs_cache.Fusion.Os.{
  SysCall, getifaddrs, ftw, system, access, lstat, fstat, symlink, statvfs, lgetxattr, llistxattr,
  fcntl_getfl, Address, no_address, other_family, ipv4, Interface, Env, Fs, fs, lift, ◌>>=◌,
}
use fusionfs_cache.Fusion.Paths.{get_hdd_path}
use fusionfs_cache.Prelude.{
  ℕ, ◌+◌, ◌%◌, ◌≡◌, refl, ◌∙◌, Bool, true, false, if◌then◌else◌, Option, none, some, Bytes, eqb,
  List, [], ◌∷◌, Bool-cases, inl, inr,
}

-- The calls that change nothing.
abbrev pub is_query : SysCall → Bool
is_query getifaddrs = true
is_query (ftw p) = true
is_query (access p m) = true
is_query (lstat p) = true
is_query (fstat d) = true
is_query (statvfs p) = true
is_query (lgetxattr p n z) = true
is_query (llistxattr p z) = true
is_query (fcntl_getfl d) = true
is_query c = false

-- The other calls, newest first.
abbrev pub effects : List SysCall → List SysCall
effects [] = []
effects (c ∷ t) = if is_query c then effects t else c ∷ effects t

-- The last IPv4 address that does not belong to "lo".
abbrev pub take_last : Bytes → Address → Option Bytes
take_last addr no_address = none
take_last addr other_family = some addr
take_last addr (ipv4 t) = some t

abbrev pub from_address : (Bytes → Option Bytes) → Option Bytes → Option Bytes
from_address go none = none
from_address go (some a) = go a

abbrev pub address_of : Bytes → List Interface → Option Bytes
address_of addr [] = some addr
address_of addr (ifa ∷ more) =
    let skip = address_of addr more in
    let next = from_address (λ a. address_of a more) (take_last addr ifa.ifa_addr) in
    if eqb loopback ifa.ifa_name then skip else next

-- The interfaces of the node keep their addresses.
abbrev pub HasAddress : Env → Bytes → Type 0
HasAddress env ip =
    (t : List SysCall) → address_of [] (env.reply (getifaddrs ∷ t)).interfaces ≡ some ip

module _ {S : Type 0} (env : Env) (s : Fs S) where
  take_address-take_last :
      (addr : Bytes) (a : Address) (more : List Interface)
      → ((b : Bytes) → last_address env b more s ≡ lift (address_of b more) s)
      → (take_address env addr a >>= λ b. last_address env b more) s
        ≡ lift (from_address (λ b. address_of b more) (take_last addr a)) s
  take_address-take_last addr no_address more rest = refl
  take_address-take_last addr other_family more rest = rest addr
  take_address-take_last addr (ipv4 t) more rest = rest t

  last_address-address_of :
      (addr : Bytes) (ifs : List Interface)
      → last_address env addr ifs s ≡ lift (address_of addr ifs) s
  unfolding last_address
  last_address-address_of addr [] = refl
  last_address-address_of addr (ifa ∷ more) = elim (Bool-cases (eqb loopback ifa.ifa_name)) [
    | inl t ↦ rw t (last_address-address_of addr more)
    | inr f ↦
        rw f (take_address-take_last addr ifa.ifa_addr more (λ b. last_address-address_of b more))
  ]

module _ {S : Type 0} (env : Env) (s : Fs S) where
  pub net_getmyip-calls :
      (ip : Bytes)
      → HasAddress env ip
      → net_getmyip env s ≡ some (ip, fs s.dht (getifaddrs ∷ s.calls) s.clock s.heap)
  unfolding net_getmyip
  net_getmyip-calls ip node =
      let asked = fs s.dht (getifaddrs ∷ s.calls) s.clock s.heap in
      last_address-address_of env asked [] (env.reply (getifaddrs ∷ s.calls)).interfaces
      ∙ rw (node s.calls) refl

  pub move_file_ssd-calls :
      (name hdd : Bytes)
      → get_hdd_path name ≡ some hdd
      → fits (mv name hdd) ≡ true
      → move_file_ssd env name s
        ≡ some (tt, fs s.dht (symlink hdd name ∷ system (mv name hdd) ∷ s.calls) s.clock s.heap)
  unfolding move_file_ssd
  move_file_ssd-calls name hdd path room = rw (path, room) refl

  -- The test of the SSD's use returns, asks only, and leaves the rest of the state.
  abbrev pub Asked : {A : Type 0} → Option (A × Fs S) → Type 0
  Asked {A} r =
      (a : A) × (t : List SysCall) × (r ≡ some (a, fs s.dht t s.clock s.heap))
      × (effects t ≡ effects s.calls)

module _ {S : Type 0} (env : Env) (ssd : Bytes) where
  sum_sizes-Asked :
      (used : ℕ) (es : List (Bytes × ℕ)) (s : Fs S) → Asked env s (sum_sizes env ssd used es s)
  unfolding sum_sizes sum_size_ssd
  sum_sizes-Asked used [] s = (used, s.calls, refl, refl)
  sum_sizes-Asked used (e ∷ es) s = elim (Bool-cases (eqb e.0 ssd)) [
    | inl t ↦ rw t (sum_sizes-Asked used es s)
    | inr f ↦ rw f (
        sum_sizes-Asked
          ((used
              + (if (env.reply (lstat e.0 ∷ s.calls)).is_link
                  then (env.reply (lstat e.0 ∷ s.calls)).st_size
                  else e.1)
                % int_mod)
            % int_mod)
          es (fs s.dht (lstat e.0 ∷ s.calls) s.clock s.heap))
  ]

  pub get_used_ssd-Asked : (s : Fs S) → Asked env s (get_used_ssd env ssd s)
  unfolding get_used_ssd
  get_used_ssd-Asked s =
      let asked = fs s.dht (ftw ssd ∷ s.calls) s.clock s.heap in
      sum_sizes-Asked 0 (env.reply (ftw ssd ∷ s.calls)).entries asked

  pub ssd_is_full-Asked : (s : Fs S) → Asked env s (ssd_is_full env ssd s)
  unfolding ssd_is_full
  ssd_is_full-Asked s =
      let (used, t, run, same) = get_used_ssd-Asked s in (over_limit used, t, rw run refl, same)
