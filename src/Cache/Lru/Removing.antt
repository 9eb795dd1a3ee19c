-- ===== src/Cache/Lru/Removing.antt =====
-- On `remque_lru` and `rmelem_lru` (src/util.c).
use fusionfs_cache.Cache.Heap.{Ptr, null, File, INode, Heap, load, free, remque}
use fusionfs_cache.Cache.Lru.{Lru, lru, findelem_lru, remque_lru, rmelem_lru}
use fusionfs_cache.Cache.Names.{
  count, find, At-cases, Unique, erase, erase-absent, erase-only, count-erase, find-absent,
  find-only, apart_from_name,
}
use fusionfs_cache.Cache.Ring.{
  Cells, first, last, has, Ring, Ring-rotate, append_nil, last-append, has-append, SameOutside,
}
use fusionfs_cache.Cache.Ring.Outside.{unqueue}
use fusionfs_cache.Cache.Ring.Steps.{load-first, last-other}
use fusionfs_cache.Cache.Walk.{find-ring}
use fusionfs_cache.Prelude.{
  ℕ, ◌≤◌, ◌≡◌, refl, sym, ap, ◌∙◌, true, false, some, [], ◌∷◌, ◌++◌, arith, ◌==◌, if◌then◌else◌,
  inl, inr, Bytes, Bool-cases, subst, length,
}

-- What the ends of the queue mean: `xs` from the head to the tail.
pub record IsLru (h : Heap) (c : Lru) (xs : Cells) : Type 0 where
  pub ring : Ring h xs
  pub head : c.lru_head ≡ first xs null
  pub tail : c.lru_tail ≡ last xs null
  pub unique : Unique xs

-- The queue without its node `x`, which stood between `cs` and `bs`.
module _ (h : Heap) (c : Lru) (k : ℕ) (n : Bytes) (x : Ptr × File) where
  abbrev Removed : Cells → Cells → Type 0
  Removed cs bs =
      (g : Heap) × (d : Lru) × (rmelem_lru k c n h ≡ some (d, g))
      × Ring g (cs ++ bs)
      × (d.lru_head ≡ first (cs ++ bs) null)
      × (d.lru_tail ≡ last (cs ++ bs) null)
      × SameOutside (cs ++ x ∷ bs) h g

  module _ (search : findelem_lru k c n h ≡ some (x.0, h)) (ne : (x.0 == null) ≡ false)
      (more : (c.lru_head == null) ≡ false) where
    rmelem_lru-first : (x.0 == c.lru_head) ≡ true → rmelem_lru k c n h ≡ remque_lru c h
    unfolding rmelem_lru
    rmelem_lru-first at_head = rw (more, search, ne, at_head) refl

    rmelem_lru-later :
        (f : INode) (g1 g2 : Heap)
        → (x.0 == c.lru_head) ≡ false
        → load x.0 h ≡ some (f, h)
        → remque x.0 h ≡ some (tt, g1)
        → free x.0 g1 ≡ some (tt, g2)
        → rmelem_lru k c n h
          ≡ some (lru c.lru_head (if x.0 == c.lru_tail then f.prev else c.lru_tail), g2)
    unfolding rmelem_lru
    rmelem_lru-later f g1 g2 not_head loads run1 run2 =
        rw (more, search, ne, not_head, loads, run1, run2) refl

-- The oldest file leaves.
pub remque_lru-head :
    (h : Heap) (c : Lru) (x : Ptr × File) (xs : Cells)
    → Ring h (x ∷ xs)
    → c.lru_head ≡ x.0
    → c.lru_tail ≡ last xs x.0
    → (g : Heap) × (d : Lru) × (remque_lru c h ≡ some (d, g))
      × Ring g xs
      × (d.lru_head ≡ first xs null)
      × (d.lru_tail ≡ last xs null)
      × SameOutside (x ∷ xs) h g
unfolding remque_lru
remque_lru-head h c x [] r at_head at_tail =
    let (k, g, run1, run2, s, same) = unqueue h x [] r in
    let alone : (x.0 == x.0) ≡ true = ground arith in
    (
      g,
      lru null null,
      rw (at_head, load-first h x [] r, alone, run1, run2) refl,
      s,
      refl,
      refl,
      same,
    )
remque_lru-head h c x (y ∷ xs) r at_head at_tail =
    let (k, g, run1, run2, s, same) = unqueue h x (y ∷ xs) r in
    let other : (x.0 == y.0) ≡ false = ground (arith, r.apart.0) in
    (
      g,
      lru y.0 c.lru_tail,
      rw (at_head, load-first h x (y ∷ xs) r, other, run1, run2) refl,
      s,
      refl,
      at_tail,
      same,
    )

-- The tail moves when its node leaves.
tail_moved :
    (a : Ptr × File) (cs : Cells) (x : Ptr × File) (bs : Cells)
    → has x.0 bs ≡ false
    → (if x.0 == last (cs ++ x ∷ bs) a.0 then last (bs ++ a ∷ cs) x.0 else last (cs ++ x ∷ bs) a.0)
      ≡ last (cs ++ bs) a.0
tail_moved a cs x [] out =
    let same : (x.0 == x.0) ≡ true = ground arith in
    rw (last-append cs (x ∷ []) a.0, same, append_nil cs) refl
tail_moved a cs x (b ∷ bs) out =
    rw (last-append cs (x ∷ b ∷ bs) a.0, last-append cs (b ∷ bs) a.0, last-other x.0 b bs out) refl

module _ (h : Heap) (c : Lru) (k : ℕ) (n : Bytes) (x : Ptr × File) where
  rmelem_lru-Removed :
      (cs bs : Cells)
      → Ring h (cs ++ x ∷ bs)
      → c.lru_head ≡ first (cs ++ x ∷ bs) null
      → c.lru_tail ≡ last (cs ++ x ∷ bs) null
      → findelem_lru k c n h ≡ some (x.0, h)
      → Removed h c k n x cs bs
  rmelem_lru-Removed [] bs r at_head at_tail search =
      let (g, d, run, s, e1, e2, same) = remque_lru-head h c x bs r at_head at_tail in
      let ne = r.links.0 in
      let is_head : (x.0 == c.lru_head) ≡ true = rw at_head (ground arith) in
      (g, d, rmelem_lru-first h c k n x search ne (rw at_head ne) is_head ∙ run, s, e1, e2, same)
  rmelem_lru-Removed (a ∷ cs) bs r at_head at_tail search =
      let s = Ring-rotate h (a ∷ cs) (x ∷ bs) r in
      let (k1, g, run1, run2, t, same) = unqueue h x (bs ++ a ∷ cs) s in
      let not_head : (x.0 == c.lru_head) ≡ false =
        rw at_head (ground (arith, s.apart.0, has-append x.0 bs (a ∷ cs))) in
      (
        g,
        _,
        rmelem_lru-later h c k n x search s.links.0 (rw at_head r.links.0) _ k1 g not_head
            (load-first h x (bs ++ a ∷ cs) s) run1 run2,
        Ring-rotate g bs (a ∷ cs) t,
        at_head,
        rw at_tail (tail_moved a cs x bs (ground (arith, s.apart.0, has-append x.0 bs (a ∷ cs)))),
        λ p out. same p (ground (arith, out, has-append p cs (x ∷ bs), has-append p bs (a ∷ cs))),
      )

pub findelem_lru-find :
    (h : Heap) (c : Lru) (k : ℕ) (n : Bytes) (xs : Cells)
    → Ring h xs
    → c.lru_head ≡ first xs null
    → length xs ≤ k
    → findelem_lru k c n h ≡ some (find n xs, h)
unfolding findelem_lru
findelem_lru-find h c k n [] r e enough = rw e refl
findelem_lru-find h c k n (x ∷ xs) r e enough = rw (e, r.links.0) (find-ring h k x xs enough r n)

pub rmelem_lru-absent :
    (h : Heap) (c : Lru) (k : ℕ) (n : Bytes)
    → findelem_lru k c n h ≡ some (null, h)
    → rmelem_lru k c n h ≡ some (c, h)
unfolding rmelem_lru
rmelem_lru-absent h c k n search = elim (Bool-cases (c.lru_head == null)) [
  | inl t ↦ rw t refl
  | inr f ↦ rw (f, search) refl
]

-- On a queue without repeated names, and with fuel for one round, `rmelem_lru` returns, leaves the queue
-- without the name and the others in their order, and changes no node outside the queue.
pub rmelem_lru-IsLru :
    (h : Heap) (c : Lru) (xs : Cells) (k : ℕ) (n : Bytes)
    → IsLru h c xs
    → length xs ≤ k
    → (g : Heap) × (d : Lru) × (rmelem_lru k c n h ≡ some (d, g))
      × IsLru g d (erase n xs)
      × SameOutside xs h g
rmelem_lru-IsLru h c xs k n i enough =
    let search = findelem_lru-find h c k n xs i.ring i.head enough in
    let unique : Unique (erase n xs) = λ m. omega (arith, i.unique m, count-erase n m xs) in
    elim (At-cases n xs) [
      | inl z ↦
          let kept = erase-absent n xs z in
          (
            h,
            c,
            rmelem_lru-absent h c k n (rw (sym (find-absent n xs z)) search),
            subst (IsLru h c) (sym kept) i,
            λ p out. refl,
          )
      | inr a ↦
          let one = subst (λ r. count n r ≤ 1) a.split (i.unique n) in
          let (before, after) = apart_from_name n a.front a.node a.back a.is_named one in
          let gone : erase n xs ≡ a.front ++ a.back =
            ap (erase n) a.split ∙ erase-only n a.front a.node a.back a.is_named before after in
          let found : find n xs ≡ a.node.0 =
            ap (find n) a.split ∙ find-only n a.front a.node a.back a.is_named before in
          let (g, d, run, s, e1, e2, same) =
            rmelem_lru-Removed h c k n a.node a.front a.back (subst (Ring h) a.split i.ring)
              (i.head ∙ ap (λ r. first r null) a.split) (i.tail ∙ ap (λ r. last r null) a.split)
              (search ∙ ap (λ r. some (r, h)) found) in
          (
            g,
            d,
            run,
            record {
              ring = subst (Ring g) (sym gone) s;
              head = e1 ∙ ap (λ r. first r null) (sym gone);
              tail = e2 ∙ ap (λ r. last r null) (sym gone);
              unique = unique;
            },
            λ p out. same p (subst (λ r. has p r ≡ false) a.split out),
          )
    ]

-- On a queue that is not empty, `remque_lru` returns, and the file at the head leaves.
pub remque_lru-IsLru :
    (h : Heap) (c : Lru) (x : Ptr × File) (xs : Cells)
    → IsLru h c (x ∷ xs)
    → (g : Heap) × (d : Lru) × (remque_lru c h ≡ some (d, g)) × IsLru g d xs
remque_lru-IsLru h c x xs i =
    let (g, d, run, s, e1, e2, same) = remque_lru-head h c x xs i.ring i.head i.tail in
    (g, d, run, record { ring = s; head = e1; tail = e2; unique = λ m. omega (arith, i.unique m) })
