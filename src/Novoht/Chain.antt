-- ===== src/Novoht/Chain.antt =====
-- One bucket of the table. The nodes of a chain are reached from their bucket alone, so a chain of
-- `next` pointers is a list, and a write through `cur` replaces an entry of the list.
use fusionfs_cache.Prelude.{
  ℕ, ◌+◌, ◌≤◌, ◌≡◌, refl, Bool, true, false, Option, none, some, List, [], ◌∷◌, ◌++◌, or_else,
  arith, Bytes, eqb, eqb_refl, eqb→eq, length, if◌then◌else◌,
}

-- struct kvpair
pub record KvPair : Type 0 where
  pub key : Bytes
  pub val : Bytes
  pub file_pos : ℕ

abbrev pub Chain : Type 0
Chain = List KvPair

-- The first node whose key is `k`.
unfoldable pub find : Bytes → Chain → Option KvPair
find k [] = none
find k (e ∷ c) = if eqb k e.key then some e else find k c

-- The first node whose key is `k` becomes `p`.
unfoldable pub replace : Bytes → KvPair → Chain → Chain
replace k p [] = []
replace k p (e ∷ c) = if eqb k e.key then p ∷ c else e ∷ replace k p c

-- The first node whose key is `k` is unlinked.
unfoldable pub erase : Bytes → Chain → Chain
erase k [] = []
erase k (e ∷ c) = if eqb k e.key then c else e ∷ erase k c

-- cur->val, if a node was found.
abbrev pub value : Option KvPair → Option Bytes
value none = none
value (some e) = some e.val

abbrev pub to_nat : Bool → ℕ
to_nat true = 1
to_nat false = 0

-- How many nodes have the key `q`.
unfoldable pub copies : Bytes → Chain → ℕ
copies q [] = 0
copies q (node ∷ nodes) = to_nat (eqb q node.key) + copies q nodes

pub eqb_congr : (a b c : Bytes) → eqb a b ≡ true → eqb a c ≡ eqb b c
eqb_congr a b c h = rw (eqb→eq a b h)

pub eqb_congr_right : (a b c : Bytes) → eqb a b ≡ true → eqb c a ≡ eqb c b
eqb_congr_right a b c h = rw (eqb→eq a b h)

pub eqb_symm : (a b : Bytes) → eqb a b ≡ true → eqb b a ≡ true
eqb_symm a b h = rw (eqb→eq a b h) (eqb_refl b)

pub find-eq-none : (q : Bytes) (nodes : Chain) → copies q nodes ≡ 0 → find q nodes ≡ none
unfolding copies find
find-eq-none q [] h = refl
find-eq-none q (node ∷ nodes) h = ground (arith, find-eq-none q nodes)

pub copies-eq-zero : (q : Bytes) (nodes : Chain) → find q nodes ≡ none → copies q nodes ≡ 0
unfolding copies find
copies-eq-zero q [] h = refl
copies-eq-zero q (node ∷ nodes) h = ground (arith, copies-eq-zero q nodes)

pub find-key :
    (k : Bytes) (nodes : Chain) (node : KvPair) → find k nodes ≡ some node → eqb k node.key ≡ true
unfolding find
find-key k [] node h = cc
find-key k (x ∷ nodes) node h = ground (arith, find-key k nodes node)

pub find-append :
    (q : Bytes) (front back : Chain) → find q (front ++ back) ≡ or_else (find q front) (find q back)
unfolding find or_else
find-append q [] back = refl
find-append q (node ∷ front) back = rw (find-append q front back) (ground arith)

pub copies-append :
    (q : Bytes) (front back : Chain) → copies q (front ++ back) ≡ copies q front + copies q back
unfolding copies
copies-append q [] back = omega arith
copies-append q (node ∷ front) back = omega (arith, copies-append q front back)

module _ (k q : Bytes) (p : KvPair) (named : p.key ≡ k) where
  pub find-replace :
      (nodes : Chain) (old : KvPair)
      → find k nodes ≡ some old
      → find q (replace k p nodes) ≡ (if eqb q k then some p else find q nodes)
  unfolding find replace
  find-replace [] old h = cc
  find-replace (node ∷ nodes) old h = rw named (
      ground (
        arith,
        named,
        find-replace nodes old,
        eqb_congr q k node.key,
        eqb_congr_right k node.key q,
      ))

  pub copies-replace : (nodes : Chain) → copies q (replace k p nodes) ≡ copies q nodes
  unfolding copies replace
  copies-replace [] = refl
  copies-replace (node ∷ nodes) =
      ground (arith, named, copies-replace nodes, eqb_congr_right k node.key q)

module _ (k q : Bytes) where
  pub find-erase :
      (nodes : Chain)
      → copies q nodes ≤ 1
      → find q (erase k nodes) ≡ (if eqb q k then none else find q nodes)
  unfolding find erase copies
  find-erase [] h = ground arith
  find-erase (node ∷ nodes) h = ground (
    arith,
    find-erase nodes,
    find-eq-none q nodes,
    eqb_congr q k node.key,
    eqb_congr_right k node.key q,
  )

  pub copies-erase-le : (nodes : Chain) → copies q (erase k nodes) ≤ copies q nodes
  unfolding copies erase
  copies-erase-le [] = omega arith
  copies-erase-le (node ∷ nodes) = ground (arith, copies-erase-le nodes)

pub length-replace :
    (k : Bytes) (p : KvPair) (nodes : Chain) → length (replace k p nodes) ≡ length nodes
unfolding replace
length-replace k p [] = refl
length-replace k p (node ∷ nodes) = ground (arith, length-replace k p nodes)

pub length-erase :
    (k : Bytes) (nodes : Chain) (old : KvPair)
    → find k nodes ≡ some old
    → length (erase k nodes) + 1 ≡ length nodes
unfolding erase find
length-erase k [] old h = cc
length-erase k (node ∷ nodes) old h = ground (arith, length-erase k nodes old)

-- A new node at the tail of a chain without its key.
module _ (k q : Bytes) (p : KvPair) (named : p.key ≡ k) (nodes : Chain) where
  pub copies-append_new : copies q (nodes ++ p ∷ []) ≡ copies q nodes + to_nat (eqb q k)
  unfolding copies
  copies-append_new = rw (copies-append q nodes (p ∷ []), named) (omega arith)

  pub find-append_new :
      find k nodes ≡ none → find q (nodes ++ p ∷ []) ≡ (if eqb q k then some p else find q nodes)
  unfolding find or_else
  find-append_new gone = rw (find-append q nodes (p ∷ []), named) (ground (arith, eqb→eq q k, gone))
