-- ===== src/Novoht/Placed.antt =====
-- Where the entries of a NoVoHT table stand, what the bucket array means as a map, and writes to
-- one bucket (novoht.cpp).
use fusionfs_cache.Prelude.{
  ℕ, zero, suc, ◌%◌, ◌≤◌, ◌<◌, ◌≡◌, refl, Option, none, some, List, [], ◌∷◌, flatten, or_else,
  arith, Bytes, length, get_or, set, get_or-set, length-set, ◌==◌, if◌then◌else◌,
}
use fusionfs_cache.Novoht.Chain.{
  KvPair, Chain, find, copies, find-eq-none, find-append, copies-append,
}
use fusionfs_cache.Novoht.Hash.{hash}
use fusionfs_cache.Novoht.Table.{slot}

unfoldable pub home : Bytes → ℕ → ℕ
home k n = hash k % n

pub home-lt : (k : Bytes) (n : ℕ) → 0 < n → home k n < n
unfolding home
home-lt k n h = omega arith

pub slot-home : (k : Bytes) (n : ℕ) → 0 < n → slot k n ≡ some (home k n)
unfolding slot home
slot-home k zero h = elim h [ ]
slot-home k (suc n) h = refl

abbrev pub quota : ℕ → Bytes → ℕ → ℕ
quota n q i = if i == home q n then 1 else 0

-- Every key stands at most once, and only in its own bucket.
pub record IsPlaced (n : ℕ) (bs : List Chain) : Type 0 where
  pub width : length bs ≡ n
  pub apart : (q : Bytes) (i : ℕ) → copies q (get_or bs i []) ≤ quota n q i

-- The entry under a key.
unfoldable pub view : ℕ → List Chain → Bytes → Option KvPair
view n bs q = find q (get_or bs (home q n) [])

pub copies-home-le :
    {n : ℕ} {bs : List Chain} (q k : Bytes) → IsPlaced n bs → copies q (get_or bs (home k n) []) ≤ 1
copies-home-le {n} {bs} q k p = ground (arith, p.apart q (home k n))

module _ {n : ℕ} {bs : List Chain} (p : IsPlaced n bs) (i : ℕ) (lt : i < n) (c : Chain) where
  pub set-IsPlaced : ((q : Bytes) → copies q c ≤ quota n q i) → IsPlaced n (set bs i c)
  set-IsPlaced small = record {
    width = omega (arith, length-set {0} bs i c, p.width);
    apart = λ q j. ground (arith, get_or-set bs i j c [], p.width, p.apart q j, small q);
  }

  pub view-set :
      (q : Bytes) → view n (set bs i c) q ≡ (if home q n == i then find q c else view n bs q)
  unfolding view
  view-set q = ground (arith, get_or-set bs i (home q n) c [], p.width)

-- Where all nodes with the key `q` stand in one bucket, the array read as one chain has them.
pub flatten_lem :
    (bs : List Chain) (q : Bytes) (h : ℕ)
    → ((i : ℕ) → copies q (get_or bs i []) ≤ (if i == h then 1 else 0))
    → (find q (flatten bs) ≡ find q (get_or bs h [])) × (copies q (flatten bs) ≤ 1)
unfolding flatten copies find or_else
flatten_lem [] q h apart = (refl, omega arith)
flatten_lem (c ∷ bs) q zero apart =
    let ih = flatten_absent bs q (λ i. ground (arith, apart (suc i))) in
    (
      rw (find-append q c (flatten bs), ih.0) (ground (arith, or_else-none (find q c))),
      omega (arith, copies-append q c (flatten bs), apart 0, ih.1),
    )
  where
    or_else-none : (o : Option KvPair) → or_else o none ≡ o
    or_else-none none = refl
    or_else-none (some e) = refl

    flatten_absent :
        (cs : List Chain) (k : Bytes)
        → ((i : ℕ) → copies k (get_or cs i []) ≤ 0)
        → (find k (flatten cs) ≡ none) × (copies k (flatten cs) ≡ 0)
    flatten_absent [] k none_at = (refl, refl)
    flatten_absent (d ∷ cs) k none_at =
        let (f, z) = flatten_absent cs k (λ i. none_at (suc i)) in
        (
          rw (find-append k d (flatten cs), find-eq-none k d (omega (arith, none_at 0))) f,
          omega (arith, copies-append k d (flatten cs), none_at 0),
        )
flatten_lem (c ∷ bs) q (suc h) apart =
    let absent : copies q c ≡ 0 = ground (arith, apart 0) in
    let ih = flatten_lem bs q h (λ i. ground (arith, apart (suc i))) in
    (
      rw (find-append q c (flatten bs), find-eq-none q c absent) ih.0,
      omega (arith, copies-append q c (flatten bs), ih.1),
    )
