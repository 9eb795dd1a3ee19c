-- ===== src/Checks/Handlers.antt =====
-- The data of the examples of the FusionFS handlers: a mount with the SSD "/ssd", on a node with the
-- address "1", and a clock queue of two files.
use fusionfs_cache.Cache.Chosen.{Each-count}
use fusionfs_cache.Cache.Clock.{Clock, clock}
use fusionfs_cache.Cache.Clock.Invariant.{IsClock}
use fusionfs_cache.Cache.Heap.{File, inode, Heap}
use fusionfs_cache.Cache.Names.{distinct_names-Unique}
use fusionfs_cache.Cache.Ring.{Cells, Ring}
use fusionfs_cache.Fusion.Directory.{is_prefix, strstr}
use fusionfs_cache.Fusion.Disk.Runs.{HasAddress}
use fusionfs_cache.Fusion.Os.{
  SysCall, getifaddrs, ftw, lstat, fcntl_getfl, ipv4, Answer, Env, Fs, fs,
}
use fusionfs_cache.Fusion.Paths.{get_hdd_path, fusion_fullpath, default_ssd, default_hdd}
use fusionfs_cache.Fusion.Room.Draining.{IsMovable, CanMove}
use fusionfs_cache.Prelude.{
  ℕ, pos, ◌≡◌, refl, Bool, false, ◌==◌, if◌then◌else◌, Option, none, some, Bytes, eqb, List, [],
  ◌∷◌, ◌++◌, inl,
}

abbrev pub ssd : Bytes
ssd = default_ssd

abbrev pub ip : Bytes
ip = 49 ∷ []

-- "/a" and "/b", on the SSD and on the HDD.
abbrev pub path_a : Bytes
path_a = 47 ∷ 97 ∷ []

abbrev pub path_b : Bytes
path_b = 47 ∷ 98 ∷ []

abbrev pub ssd_a : Bytes
ssd_a = ssd ++ path_a

abbrev pub ssd_b : Bytes
ssd_b = ssd ++ path_b

abbrev pub hdd_a : Bytes
hdd_a = default_hdd ++ path_a

abbrev pub hdd_b : Bytes
hdd_b = default_hdd ++ path_b

-- "/c" is not in the queue.
abbrev pub name_c : Bytes
name_c = 99 ∷ []

abbrev pub path_c : Bytes
path_c = 47 ∷ name_c

abbrev pub ssd_c : Bytes
ssd_c = ssd ++ path_c

abbrev pub hdd_c : Bytes
hdd_c = default_hdd ++ path_c

-- Every call succeeds. `link`: lstat sees links. `size`: the size of the one file that ftw finds. `flags`:
-- those of an open file.
abbrev answer : Bool → ℕ → ℕ → SysCall → Answer
answer link size flags c = record {
  ret = elim c [ fcntl_getfl d ↦ pos flags | _ ↦ pos 0 ];
  errno = 0;
  is_link = elim c [ lstat p ↦ link | _ ↦ false ];
  st_size = 7;
  interfaces = elim c [
    | getifaddrs ↦ record { ifa_name = 101 ∷ []; ifa_addr = ipv4 ip } ∷ []
    | _ ↦ []
  ];
  entries = elim c [ ftw p ↦ (ssd_a, size) ∷ [] | _ ↦ [] ];
}

abbrev last_answer : Bool → ℕ → ℕ → List SysCall → Answer
last_answer link size flags [] = answer link size flags getifaddrs
last_answer link size flags (c ∷ t) = answer link size flags c

abbrev pub host : Bool → ℕ → ℕ → Env
host link size flags = record { reply = last_answer link size flags; newip = λ t. [] }

pub host-HasAddress : (link : Bool) (size flags : ℕ) → HasAddress (host link size flags) ip
unfolding eqb
host-HasAddress link size flags t = refl

abbrev cached_file : Bytes → File
cached_file n = record { fname = n; freq = 0; ref_bit = 1 }

abbrev pub two_files : Cells
two_files = (16, cached_file ssd_a) ∷ (32, cached_file ssd_b) ∷ []

abbrev pub nodes : Heap
nodes p =
    if p == 16
    then some (inode 32 32 (cached_file ssd_a))
    else if p == 32
    then some (inode 16 16 (cached_file ssd_b))
    else none

abbrev pub at_first : Clock
at_first = clock 16 32 16

two-Ring : Ring nodes two_files
two-Ring = record { links = (refl, refl, (refl, refl, tt)); apart = (refl, (refl, tt)) }

pub two_files-IsClock : IsClock nodes at_first two_files
unfolding eqb
two_files-IsClock = record {
  queue = record {
    behind = [];
    ahead = two_files;
    order = refl;
    turned = record { ring = two-Ring; ends = (refl, refl); hand = inl refl };
  };
  unique = distinct_names-Unique two_files refl;
}

pub a-hdd : get_hdd_path ssd_a ≡ some hdd_a
unfolding get_hdd_path strstr is_prefix
a-hdd = refl

pub b-hdd : get_hdd_path ssd_b ≡ some hdd_b
unfolding get_hdd_path strstr is_prefix
b-hdd = refl

pub c-hdd : get_hdd_path ssd_c ≡ some hdd_c
unfolding get_hdd_path strstr is_prefix
c-hdd = refl

pub two_files-CanMove : CanMove two_files
two_files-CanMove = Each-count IsMovable two_files (
  record { hdd = hdd_a; path = a-hdd; room = refl },
  (record { hdd = hdd_b; path = b-hdd; room = refl }, tt),
)

pub a-full : fusion_fullpath ssd path_a ≡ some ssd_a
unfolding fusion_fullpath
a-full = refl

pub c-full : fusion_fullpath ssd path_c ≡ some ssd_c
unfolding fusion_fullpath
c-full = refl

-- A process with these files, and what its ZHT has.
abbrev pub process : (Bytes → Option Bytes) → Fs (Bytes → Option Bytes)
process w = fs w [] at_first nodes
