-- ===== src/Novoht/History.antt =====
-- The table of src/zht/src/common/novoht.cpp as a whole: what any sequence of calls of put, get and
-- remove answers, against a map from keys to values that knows nothing of buckets and growth.
use fusionfs_cache.Novoht.Refines.{
  values, IsValid, fresh-IsValid, get-values, InRam, elements, can_grow,
}
use fusionfs_cache.Novoht.Refines.Put.{put-Writes}
use fusionfs_cache.Novoht.Refines.Remove.{remove-Writes, status_of_remove}
use fusionfs_cache.Novoht.Saved.{write_file-Returns}
use fusionfs_cache.Novoht.Table.{
  LoadFactor, NoVoHt, int_limit, grow, resize, put, get, remove, write_file, fresh,
}
use fusionfs_cache.Prelude.{
  ℕ, ◌+◌, ◌*◌, ◌≤◌, ◌<◌, ◌≡◌, refl, ◌∙◌, true, false, ◌&&◌, ltb, length, arith, Bool-cases, inl,
  inr, Option, none, some, Returns, ◌>>=◌, List, [], ◌∷◌, Bytes, eqb, if◌then◌else◌, ℤ, pos,
}

-- A call, and its result.
pub data Request : Type 0 where
  put_value : Bytes → Bytes → Request
  get_value : Bytes → Request
  remove_value : Bytes → Request

pub data Answer : Type 0 where
  status : ℤ → Answer
  found : Option Bytes → Answer

-- One call on the table, and a sequence of calls.
unfoldable pub perform : Request → NoVoHt → Option (NoVoHt × Answer)
perform (put_value k v) m = put k v m >>= λ r. some (r.0, status r.1)
perform (get_value k) m = get k m >>= λ v. some (m, found v)
perform (remove_value k) m = remove k m >>= λ r. some (r.0, status r.1)

unfoldable pub perform_all : List Request → NoVoHt → Option (List Answer)
perform_all [] m = some []
perform_all (x ∷ xs) m = do (m', a) ← perform x m; rest ← perform_all xs m'; some (a ∷ rest)

-- The same on a map.
abbrev pub updated : Bytes → Option Bytes → (Bytes → Option Bytes) → Bytes → Option Bytes
updated k v f q = if eqb q k then v else f q

unfoldable pub expected : List Request → (Bytes → Option Bytes) → List Answer
expected [] f = []
expected (put_value k v ∷ xs) f = status (pos 0) ∷ expected xs (updated k (some v) f)
expected (get_value k ∷ xs) f = found (if eqb k [] then none else f k) ∷ expected xs f
expected (remove_value k ∷ xs) f = status (status_of_remove (f k)) ∷ expected xs (updated k none f)

-- A load factor of 0.5 or more, or one that is off: a table grows only when it counts at least half as
-- many elements as buckets. The server's is 0.7.
abbrev pub Fills : LoadFactor → Type 0
Fills r = (n : ℤ) (s : ℕ) → (r.reached n s && r.nonzero) ≡ true → s ≤ 2 * elements n

-- 2 ^ 29
abbrev pub most_puts : ℕ
most_puts = 536870912

-- With fewer elements the size does not overflow.
can_grow-Fills :
    (m : NoVoHt) → Fills m.resize_num → elements m.num_el < most_puts → can_grow m ≡ true
can_grow-Fills m fills few =
    elim (Bool-cases (m.resize_num.reached m.num_el m.size && m.resize_num.nonzero)) [
      | inl yes' ↦ let half = fills m.num_el m.size yes' in rw yes' (ground (arith, half, few))
      | inr no' ↦ rw no' refl
    ]

-- On a valid table without a file, with a load factor of at least 0.5 or none, any sequence of calls
-- ends, if the calls and the elements of the table are at most 2 ^ 29, and answers what the map answers.
pub perform_all-expected :
    (xs : List Request) (m : NoVoHt) (f : Bytes → Option Bytes)
    → IsValid m
    → InRam m.disk
    → Fills m.resize_num
    → elements m.num_el + length xs ≤ most_puts
    → ((q : Bytes) → values m q ≡ f q)
    → perform_all xs m ≡ some (expected xs f)
unfolding perform_all expected perform
perform_all-expected [] m f valid ram fills few reads = refl
perform_all-expected (put_value k v ∷ xs) m f valid ram fills few reads =
    let ((m', ret), run, w) =
      put-Writes m k v valid (can_grow-Fills m fills (omega (arith, few))) in
    let (code, same) = w.in_ram ram in
    rw
      (
        run,
        code,
        perform_all-expected xs m' (updated k (some v) f) w.valid (rw same ram)
            (rw w.steady.factor fills) (omega (arith, few, w.steady.count))
            (λ q. rw (w.reads q, reads q) refl),
      )
      refl
perform_all-expected (get_value k ∷ xs) m f valid ram fills few reads =
    rw
      (
        get-values m k valid,
        reads k,
        perform_all-expected xs m f valid ram fills (omega (arith, few)) reads,
      )
      refl
perform_all-expected (remove_value k ∷ xs) m f valid ram fills few reads =
    let ((m', ret), run, w) = remove-Writes m k valid in
    let (code, same) = w.in_ram ram in
    rw
      (
        run,
        code,
        reads k,
        perform_all-expected xs m' (updated k none f) w.valid (rw same ram)
            (rw w.steady.factor fills) (omega (arith, few, w.steady.count))
            (λ q. rw (w.reads q, reads q) refl),
      )
      refl

-- A new table without a file, with any number of buckets but 0, and with a load factor that is off or
-- lets it grow only when it counts at least half as many elements as buckets, answers any sequence of at
-- most 2 ^ 29 calls as an empty map does; so no size overflows on the way.
pub fresh-expected :
    (xs : List Request) (s magic : ℕ) (r : LoadFactor)
    → 0 < s
    → Fills r
    → length xs ≤ most_puts
    → perform_all xs (fresh [] s magic r none) ≡ some (expected xs (λ q. none))
fresh-expected xs s magic r positive fills few =
    let (valid, empty) = fresh-IsValid [] s magic r positive in
    perform_all-expected xs (fresh [] s magic r none) (λ q. none) valid
      (unfold fresh in (refl, refl)) (unfold fresh in fills) (unfold fresh in omega (arith, few))
      empty

-- What a call that writes does to the map, also with a file.
pub record Stores (m : NoVoHt) (k : Bytes) (v : Option Bytes) (r : NoVoHt × ℤ) : Type 0 where
  pub valid : IsValid r.0
  pub reads : (q : Bytes) → values r.0 q ≡ updated k v (values m) q

put-overflows :
    (m : NoVoHt) (k v : Bytes) → m.map_lock ≡ false → can_grow m ≡ false → put k v m ≡ none
unfolding put grow resize
put-overflows m k v free full =
    let grows : (m.resize_num.reached m.num_el m.size && m.resize_num.nonzero) ≡ true =
      ground (arith, full) in
    let large : ltb (m.size * 2) int_limit ≡ false = ground (arith, full) in
    rw (free, grows, large) refl

-- From a valid table, with a file or without, whose doubled size fits an `int` if the table is to grow
-- now, `put` ends; the table stays valid, the key has the value, and every other key has what it had,
-- also when the table grows on the way. Where the doubled size does not fit, `put` has no result.
pub put-Stores :
    (m : NoVoHt) (k v : Bytes)
    → IsValid m
    → if can_grow m then Returns (put k v m) (Stores m k (some v)) else (put k v m ≡ none)
put-Stores m k v valid = elim (Bool-cases (can_grow m)) [
  | inl room ↦
      let (r, run, w) = put-Writes m k v valid room in
      rw room (r, run, record { valid = w.valid; reads = w.reads })
  | inr full ↦ rw full (put-overflows m k v valid.map_free full)
]

-- From a valid table, with a file or without, `remove` ends; the table stays valid, the key has no
-- value, and every other key has what it had.
pub remove-Stores : (m : NoVoHt) (k : Bytes) → IsValid m → Returns (remove k m) (Stores m k none)
remove-Stores m k valid =
    let (r, run, w) = remove-Writes m k valid in
    (r, run, record { valid = w.valid; reads = w.reads })

-- From a valid table, with a file or without, `writeFile` ends; the table stays valid, and every key
-- has what it had.
pub write_file-keeps :
    (m : NoVoHt)
    → IsValid m
    → Returns (write_file m) λ r. IsValid r.0 × ((q : Bytes) → values r.0 q ≡ values m q)
unfolding values
write_file-keeps m valid =
    let (r, run, (saved, memory)) = write_file-Returns m valid.write_free in
    (
      r,
      run,
      (
        record {
          positive = rw saved.size valid.positive;
          placed = rw saved.size (saved.placed valid.placed);
          map_free = saved.map_lock ∙ valid.map_free;
          write_free = saved.disk.locked ∙ valid.write_free;
        },
        λ q. rw saved.size (saved.reads q),
      ),
    )
