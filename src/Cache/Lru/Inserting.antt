-- ===== src/Cache/Lru/Inserting.antt =====
-- On `insque_lru` (src/util.c).
use fusionfs_cache.Cache.Heap.{Ptr, null, File, INode, inode, Heap, continue, write, load, insque}
use fusionfs_cache.Cache.Lru.{Lru, lru, findelem_lru, rmelem_lru, add_lru, insque_lru}
use fusionfs_cache.Cache.Lru.Removing.{
  IsLru, findelem_lru-find, rmelem_lru-absent, rmelem_lru-IsLru,
}
use fusionfs_cache.Cache.Names.{count, count-append, count-erase, find, named, Unique, erase}
use fusionfs_cache.Cache.Ring.{
  Cells, first, last, has, Ring, last-append, write-same, load-some, set_next-write, set_prev-write,
}
use fusionfs_cache.Cache.Ring.Steps.{link, load-last, one_node-Ring}
use fusionfs_cache.Prelude.{
  ℕ, ◌≤◌, ◌≡◌, refl, sym, ap, ◌∙◌, false, some, [], ◌∷◌, ◌++◌, arith, ◌==◌, inl, inr, Bytes, eqb,
  eqb→eq, Bool-cases, length,
}

-- A new node behind the last one.
pub insque-last :
    (h : Heap) (x : Ptr × File) (xs : Cells) (e q p : Ptr) (f : File)
    → Ring h (x ∷ xs)
    → (e == null) ≡ false
    → has e (x ∷ xs) ≡ false
    → h e ≡ some (inode q p f)
    → (g : Heap) × (insque e (last xs x.0) h ≡ some (tt, g)) × Ring g ((x ∷ xs) ++ (e, f) ∷ [])
unfolding insque
insque-last h x xs e q p f r ne out at =
    let (b, d, loads) = load-last h x xs _ _ r.links in
    let (g1, g2, g3, g4, run1, run2, run3, run4, s) = link h x xs r e q p f ne out at in
    (g4, rw (loads, run1, run2, run3, run4) refl, s)

-- A node that is linked to itself stays so.
pub insque-alone :
    (h : Heap) (e : Ptr) (f : File)
    → (e == null) ≡ false
    → h e ≡ some (inode e e f)
    → (g : Heap) × (insque e e h ≡ some (tt, g)) × Ring g ((e, f) ∷ [])
unfolding insque
insque-alone h e f ne at =
    let n = some (inode e e f) in
    let h1 = write h e n in
    let h2 = write h1 e n in
    let h3 = write h2 e n in
    let run1 = set_next-write h e ne at e in
    let run2 = set_next-write h1 e ne (write-same h e n) e in
    let run3 = set_prev-write h2 e ne (write-same h1 e n) e in
    let run4 = set_prev-write h3 e ne (write-same h2 e n) e in
    (
      write h3 e n,
      rw (load-some h e ne at, run1, run2, run3, run4) refl,
      one_node-Ring _ e f ne (write-same h3 e n),
    )

add_lru-Ring :
    (h : Heap) (d : Lru) (xs : Cells) (e q p : Ptr) (f : File)
    → Ring h xs
    → d.lru_head ≡ first xs null
    → d.lru_tail ≡ last xs null
    → (e == null) ≡ false
    → has e xs ≡ false
    → h e ≡ some (inode q p f)
    → (g : Heap) × (t : Lru) × (add_lru d e h ≡ some (t, g))
      × Ring g (xs ++ (e, f) ∷ [])
      × (t.lru_head ≡ first (xs ++ (e, f) ∷ []) null)
      × (t.lru_tail ≡ e)
unfolding add_lru
add_lru-Ring h d [] e q p f r at_head at_tail ne out at =
    let h1 = write h e (some (inode e p f)) in
    let h2 = write h1 e (some (inode e e f)) in
    let run1 = set_next-write h e ne at e in
    let run2 = set_prev-write h1 e ne (write-same h e _) e in
    let (g, run, s) = insque-alone h2 e f ne (write-same h1 e _) in
    (g, lru e e, rw (at_head, run1, run2, run) refl, s, refl, refl)
add_lru-Ring h d (x ∷ xs) e q p f r at_head at_tail ne out at =
    let (g, run, s) = insque-last h x xs e q p f r ne out at in
    (g, lru d.lru_head e, rw (at_head, r.links.0, at_tail, run) refl, s, at_head, refl)

-- The older node of the name, if there is one, is out.
module _ (h : Heap) (c : Lru) (k : ℕ) (e : Ptr) (n : INode) (p : Ptr)
    (loads : load e h ≡ some (n, h)) (search : findelem_lru k c n.file.fname h ≡ some (p, h)) where
  insque_lru-steps :
      (g : Heap) (d : Lru)
      → rmelem_lru k c n.file.fname h ≡ some (d, g)
      → insque_lru k c e h ≡ add_lru d e g
  unfolding insque_lru
  insque_lru-steps g d run = elim (Bool-cases (p == null)) [
    | inr f ↦ rw (loads, search, f, run) refl
    | inl t ↦
        let missing : p ≡ null = ground (arith, t) in
        let kept = rmelem_lru-absent h c k n.file.fname (search ∙ ap (λ r. some (r, h)) missing) in
        rw (loads, search, t) (ap (λ r. continue (λ s. add_lru s e) r) (sym kept ∙ run))
  ]

pub count-erased : (n : Bytes) (xs : Cells) → count n (erase n xs) ≡ 0
count-erased n [] = refl
count-erased n (x ∷ xs) = elim (Bool-cases (named n x)) [
  | inl t ↦ rw t (count-erased n xs)
  | inr f ↦ rw f (rw f (omega (arith, count-erased n xs)))
]

-- A node of a name at the back of the queue without the name.
pub Unique-latest :
    (xs : Cells) (e : Ptr) (f : File) → Unique xs → Unique (erase f.fname xs ++ (e, f) ∷ [])
Unique-latest xs e f one m =
    rw (count-append m (erase f.fname xs) ((e, f) ∷ [])) (elim (Bool-cases (eqb f.fname m)) [
      | inl same ↦
          let names = eqb→eq f.fname m same in
          rw same
            (omega (arith, count-erased f.fname xs, ap (λ r. count r (erase f.fname xs)) names))
      | inr other ↦ rw other (omega (arith, one m, count-erase f.fname m xs))
    ])

pub has-erase : (n : Bytes) (e : Ptr) (xs : Cells) → has e xs ≡ false → has e (erase n xs) ≡ false
has-erase n e [] out = refl
has-erase n e (x ∷ xs) out =
    let rest = has-erase n e xs (ground (arith, out)) in
    elim (Bool-cases (named n x)) [ inl t ↦ rw t rest | inr f ↦ rw f (ground (arith, out, rest)) ]

-- On a queue without repeated names, with fuel for one round, and for a node outside the queue,
-- `insque_lru` returns, the file is the last of the queue, a node of the same name is out, and the others
-- keep their order.
pub insque_lru-IsLru :
    (h : Heap) (c : Lru) (xs : Cells) (k : ℕ) (e q p : Ptr) (f : File)
    → IsLru h c xs
    → length xs ≤ k
    → (e == null) ≡ false
    → has e xs ≡ false
    → h e ≡ some (inode q p f)
    → (g : Heap) × (d : Lru) × (insque_lru k c e h ≡ some (d, g))
      × IsLru g d (erase f.fname xs ++ (e, f) ∷ [])
insque_lru-IsLru h c xs k e q p f i enough ne out at =
    let n = f.fname in
    let loads = load-some h e ne at in
    let search = findelem_lru-find h c k n xs i.ring i.head enough in
    let (g1, d1, run1, j, same) = rmelem_lru-IsLru h c xs k n i enough in
    let (g, t, run, r, head, tail) =
      add_lru-Ring g1 d1 (erase n xs) e q p f j.ring j.head j.tail ne (has-erase n e xs out)
        (same e out ∙ at) in
    (
      g,
      t,
      insque_lru-steps h c k e _ (find n xs) loads search g1 d1 run1 ∙ run,
      record {
        ring = r;
        head = head;
        tail = tail ∙ sym (last-append (erase n xs) ((e, f) ∷ []) null);
        unique = Unique-latest xs e f i.unique;
      },
    )
