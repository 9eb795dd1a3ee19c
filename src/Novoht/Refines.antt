-- ===== src/Novoht/Refines.antt =====
-- The operations of NoVoHT (novoht.cpp) against a map from keys to values.
pub mod Put
pub mod Remove
use fusionfs_cache.Prelude.{
  ℕ, ◌+◌, ◌*◌, ◌≤◌, ◌<◌, ◌≡◌, refl, sym, ◌∙◌, ap, Bool, true, false, Option, none, some, List, [],
  ◌∷◌, ◌++◌, or_else, arith, Bytes, eqb, eqb_refl, eqb→eq, length, get_or, set, ◌==◌, ◌&&◌, ◌||◌,
  not, ltb, replicate, if◌then◌else◌, ◌>>=◌, Returns, Option-cases, inl, inr, ℤ, pos, negsuc, ◌+ℤ◌,
  Bool-cases,
}
use fusionfs_cache.Novoht.Chain.{
  KvPair, Chain, value, find, replace, erase, copies, find-eq-none, copies-eq-zero, copies-append,
  find-append, find-replace, copies-replace, find-erase, copies-erase-le, find-key,
}
use fusionfs_cache.Novoht.Disk.{Disk, no_file, write, mark, write-Returns, mark-Returns, Keeps}
use fusionfs_cache.Novoht.Placed.{
  home, home-lt, slot-home, quota, IsPlaced, view, copies-home-le, set-IsPlaced, view-set,
}
use fusionfs_cache.Novoht.Resize.{relink_all_lem, replicate-IsPlaced, view-replicate}
use fusionfs_cache.Novoht.Table.{
  NoVoHt, LoadFactor, relink_all, int_limit, resize, grow, store, put, get, removed, unlink, remove,
  write_file, fresh,
}

-- The map that a table stands for.
unfoldable pub values : NoVoHt → Bytes → Option Bytes
values m q = value (view m.size m.kvpairs q)

-- Every node in its bucket, no key twice, no lock held.
pub record IsValid (m : NoVoHt) : Type 0 where
  pub positive : 0 < m.size
  pub placed : IsPlaced m.size m.kvpairs
  pub map_free : m.map_lock ≡ false
  pub write_free : m.disk.write_lock ≡ false

-- A new table with at least one bucket is valid and empty.
pub fresh-IsValid :
    (f : Bytes) (s magic : ℕ) (r : LoadFactor)
    → 0 < s
    → IsValid (fresh f s magic r none) × ((q : Bytes) → values (fresh f s magic r none) q ≡ none)
unfolding fresh values
fresh-IsValid f s magic r h = (
  record { positive = h; placed = replicate-IsPlaced s; map_free = refl; write_free = refl },
  λ q. rw (view-replicate s q) refl,
)

-- On a valid table `get` reads the map, and finds nothing under the empty key.
pub get-values :
    (m : NoVoHt) (k : Bytes) → IsValid m → get k m ≡ some (if eqb k [] then none else values m k)
unfolding get values view
get-values m k v = rw (v.map_free, slot-home k m.size v.positive) refl

-- The count of the elements, 0 while it is negative.
abbrev pub elements : ℤ → ℕ
elements (pos n) = n
elements (negsuc n) = 0

-- The load factor stays, and at most one element is counted.
pub record Steady (m r : NoVoHt) : Type 0 where
  pub factor : r.resize_num ≡ m.resize_num
  pub count : elements r.num_el ≤ elements m.num_el + 1

pub elements-more : (n : ℤ) → elements (n +ℤ pos 1) ≤ elements n + 1
unfolding ◌+ℤ◌
elements-more n = ground arith

pub elements-less : (n : ℤ) → elements (n +ℤ negsuc 0) ≤ elements n + 1
unfolding ◌+ℤ◌
elements-less n = ground arith

-- Growing keeps the nodes in place and every lookup.
pub record Grown (m r : NoVoHt) : Type 0 where
  pub positive : 0 < r.size
  pub placed : IsPlaced r.size r.kvpairs
  pub reads : (q : Bytes) → view r.size r.kvpairs q ≡ view m.size m.kvpairs q
  pub same_disk : r.disk ≡ m.disk
  pub same_factor : r.resize_num ≡ m.resize_num
  pub fewer : elements r.num_el ≤ elements m.num_el

-- The size does not overflow if the table grows now.
abbrev pub can_grow : NoVoHt → Bool
can_grow m =
    not (m.resize_num.reached m.num_el m.size && m.resize_num.nonzero) || ltb (m.size * 2) int_limit

pub grow-Grown :
    (m : NoVoHt)
    → 0 < m.size
    → IsPlaced m.size m.kvpairs
    → can_grow m ≡ true
    → Returns (grow m) (Grown m)
unfolding grow resize
grow-Grown m positive placed room =
    elim (Bool-cases (m.resize_num.reached m.num_el m.size && m.resize_num.nonzero)) [
      | inl yes' ↦
          let small : ltb (m.size * 2) int_limit ≡ true = rw yes' at room in
          let t = relink_all_lem m.size (m.size * 2) (omega arith) placed in
          (
            record m {
              size = m.size * 2;
              num_el = pos 0;
              kvpairs = relink_all m.kvpairs (replicate (m.size * 2) []);
            },
            rw (yes', small) refl,
            record {
              positive = omega arith;
              placed = t.0;
              reads = t.1;
              same_disk = refl;
              same_factor = refl;
              fewer = omega arith;
            },
          )
      | inr no' ↦ (
        m,
        rw no' refl,
        record {
          positive = positive;
          placed = placed;
          reads = λ q. refl;
          same_disk = refl;
          same_factor = refl;
          fewer = omega arith;
        },
      )
    ]

-- A table without a file, as the server opens it.
abbrev pub InRam : Disk → Type 0
InRam d = (d.dbfile ≡ none) × (d.filename ≡ [])

pub no_file-InRam : (d : Disk) → InRam d → no_file d.filename ≡ pos 0
unfolding no_file eqb
no_file-InRam d ram = rw ram.1

-- A write of `v` at `k` that returned `r`; in a table without a file the result is `code`.
pub record Writes (m : NoVoHt) (k : Bytes) (v : Option Bytes) (code : ℤ) (r : NoVoHt × ℤ)
    : Type 0 where
  pub valid : IsValid r.0
  pub reads : (q : Bytes) → values r.0 q ≡ (if eqb q k then v else values m q)
  pub steady : Steady m r.0
  pub in_ram : InRam m.disk → (r.1 ≡ code) × (r.0.disk ≡ m.disk)
