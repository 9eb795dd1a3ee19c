-- ===== src/Novoht/Resize.antt =====
-- NoVoHT::resize (novoht.cpp) keeps every entry and every lookup.
use fusionfs_cache.Prelude.{
  ℕ, ◌≤◌, ◌<◌, ◌≡◌, refl, sym, ◌∙◌, Option, none, some, List, [], ◌∷◌, ◌++◌, flatten, or_else,
  arith, Bytes, eqb, eqb_refl, eqb→eq, get_or, set, replicate, length-replicate, get_or-replicate,
  if◌then◌else◌,
}
use fusionfs_cache.Novoht.Chain.{KvPair, Chain, find, copies, find-eq-none, copies-eq-zero}
use fusionfs_cache.Novoht.Placed.{
  home, home-lt, IsPlaced, view, set-IsPlaced, view-set, flatten_lem,
}
use fusionfs_cache.Novoht.Table.{relink, relink_chain, relink_all}

-- An array of empty buckets.
pub replicate-IsPlaced : (n : ℕ) → IsPlaced n (replicate n [])
unfolding copies
replicate-IsPlaced n = record {
  width = length-replicate n [];
  apart = λ q i. rw (get_or-replicate {A = Chain} n i []) (omega arith);
}

pub view-replicate : (n : ℕ) (q : Bytes) → view n (replicate n []) q ≡ none
unfolding view find
view-replicate n q = rw (get_or-replicate {A = Chain} n (home q n) [])

or_else-none : (o : Option KvPair) → or_else o none ≡ o
unfolding or_else
or_else-none none = refl
or_else-none (some e) = refl

module _ (n : ℕ) (positive : 0 < n) where
  relink-home :
      (e : KvPair) {bs : List Chain}
      → IsPlaced n bs
      → relink e bs ≡ set bs (home e.key n) (e ∷ get_or bs (home e.key n) [])
  unfolding relink home
  relink-home e p = rw p.width

  relink-IsPlaced :
      (e : KvPair) {bs : List Chain}
      → IsPlaced n bs
      → view n bs e.key ≡ none
      → IsPlaced n (relink e bs)
  unfolding view copies
  relink-IsPlaced e {bs} p gone = rw (relink-home e p) (
      set-IsPlaced p (home e.key n) (home-lt e.key n positive) _ (λ q.
        ground (arith, eqb→eq q e.key, p.apart q (home e.key n), copies-eq-zero e.key _ gone)))

  view-relink :
      (e : KvPair) {bs : List Chain}
      → IsPlaced n bs
      → (q : Bytes) → view n (relink e bs) q ≡ (if eqb q e.key then some e else view n bs q)
  unfolding view find
  view-relink e {bs} p q =
      rw (relink-home e p, view-set p (home e.key n) (home-lt e.key n positive) _ q)
        (ground (arith, eqb→eq q e.key))

  -- The nodes of `es` move to an array that has none of their keys.
  relink_chain_lem :
      (es : Chain) (bs : List Chain)
      → IsPlaced n bs
      → ((q : Bytes) → copies q es ≤ 1)
      → ((q : Bytes) → 0 < copies q es → view n bs q ≡ none)
      → IsPlaced n (relink_chain es bs)
        × ((q : Bytes) → view n (relink_chain es bs) q ≡ or_else (find q es) (view n bs q))
  unfolding relink_chain find copies or_else
  relink_chain_lem [] bs p once apart = (p, λ q. refl)
  relink_chain_lem (e ∷ es) bs p once apart =
      let gone = apart e.key (rw (eqb_refl e.key) (omega arith)) in
      let step = view-relink e p in
      let (placed, reads) =
        relink_chain_lem es (relink e bs) (relink-IsPlaced e p gone) (λ q. omega (arith, once q))
          (λ q h. ground (arith, step q, once q, apart q)) in
      (placed, λ q. ground (arith, reads q, step q, once q, find-eq-none q es))

  relink_chain-append :
      (a b : Chain) (bs : List Chain)
      → relink_chain (a ++ b) bs ≡ relink_chain b (relink_chain a bs)
  unfolding relink_chain
  relink_chain-append [] b bs = refl
  relink_chain-append (e ∷ a) b bs = relink_chain-append a b (relink e bs)

  -- The two nested loops are one loop over all the nodes.
  relink_all-flatten : (cs bs : List Chain) → relink_all cs bs ≡ relink_chain (flatten cs) bs
  unfolding relink_all relink_chain flatten
  relink_all-flatten [] bs = refl
  relink_all-flatten (c ∷ cs) bs =
      relink_all-flatten cs (relink_chain c bs) ∙ sym (relink_chain-append c (flatten cs) bs)

-- From `old` buckets with every node in its place to `n`, which is not 0: every node is placed, and
-- every key has the node that it had.
pub relink_all_lem :
    (old n : ℕ) {cs : List Chain}
    → 0 < n
    → IsPlaced old cs
    → IsPlaced n (relink_all cs (replicate n []))
      × ((q : Bytes) → view n (relink_all cs (replicate n [])) q ≡ view old cs q)
unfolding view
relink_all_lem old n {cs} positive p =
    let whole = λ (q : Bytes). flatten_lem cs q (home q old) (p.apart q) in
    let (placed, reads) =
      relink_chain_lem n positive (flatten cs) (replicate n []) (replicate-IsPlaced n)
        (λ q. (whole q).1) (λ q _. view-replicate n q) in
    rw (relink_all-flatten n positive cs (replicate n []))
      (placed, λ q. rw (reads q, view-replicate n q, (whole q).0) (or_else-none _))
