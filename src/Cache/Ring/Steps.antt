-- ===== src/Cache/Ring/Steps.antt =====
-- What the writes of an insertion, a removal or a change of a node do to a cyclic list.
use fusionfs_cache.Cache.Heap.{
  Ptr, null, File, INode, inode, Heap, write, load, set_next, set_prev, set_ref_bit, free,
}
use fusionfs_cache.Cache.Ring.{
  Cells, first, last, has, Distinct, Linked, Ring, last-append, Linked-append, Linked-write,
  write-same, load-some, set_next-write, set_prev-write, free-write, set_next-last, set_prev-first,
  Distinct-append,
}
use fusionfs_cache.Prelude.{ℕ, ◌≡◌, refl, ◌∙◌, false, none, some, [], ◌∷◌, ◌++◌, arith, ◌==◌}

-- Links through a list that is not empty, and what one more node holds.
abbrev pub Beside : Heap → Ptr → Ptr × File → Cells → Ptr → Ptr → INode → Type 0
Beside h b x xs a e n = Linked h b (x ∷ xs) a × (h e ≡ some n)

module _ (x : Ptr × File) (xs : Cells) (e : Ptr) (apart : Distinct (x ∷ xs))
    (out : has e (x ∷ xs) ≡ false) (ne : (e == null) ≡ false) (h : Heap) (b a q : Ptr) (n : INode)
    (k : Beside h b x xs a e n) where
  -- The four writes of an insertion or a removal.
  pub next_of_last :
      (g : Heap) × (set_next (last xs x.0) q h ≡ some (tt, g)) × Beside g b x xs q e n
  next_of_last =
      let (g, run, l, same) = set_next-last h x xs b a q apart k.0 in
      (g, run, (l, same e out ∙ k.1))

  pub prev_of_first : (g : Heap) × (set_prev x.0 q h ≡ some (tt, g)) × Beside g q x xs a e n
  prev_of_first =
      let (g, run, l, same) = set_prev-first h x xs b a q apart k.0 in
      (g, run, (l, same e out ∙ k.1))

  pub next_of_node :
      (g : Heap) × (set_next e q h ≡ some (tt, g)) × Beside g b x xs a e (record n { next = q })
  next_of_node = (
    write h e (some (record n { next = q })),
    set_next-write h e ne k.1 q,
    (Linked-write h e _ (x ∷ xs) b a out k.0, write-same h e _),
  )

  pub prev_of_node :
      (g : Heap) × (set_prev e q h ≡ some (tt, g)) × Beside g b x xs a e (record n { prev = q })
  prev_of_node = (
    write h e (some (record n { prev = q })),
    set_prev-write h e ne k.1 q,
    (Linked-write h e _ (x ∷ xs) b a out k.0, write-same h e _),
  )

-- A node behind the last one closes a longer ring.
pub Ring-snoc :
    (h : Heap) (x : Ptr × File) (xs : Cells) (e : Ptr) (f : File)
    → Distinct (x ∷ xs)
    → has e (x ∷ xs) ≡ false
    → (e == null) ≡ false
    → Beside h e x xs e e (inode x.0 (last xs x.0) f)
    → Ring h ((x ∷ xs) ++ (e, f) ∷ [])
Ring-snoc h x xs e f apart out ne (l, at) = record {
  links =
      Linked-append h (x ∷ xs) ((e, f) ∷ []) _ x.0 (rw (last-append xs ((e, f) ∷ []) x.0) l)
        (ne, at, tt);
  apart = Distinct-append (x ∷ xs) ((e, f) ∷ []) apart (refl, tt) (λ p i. ground (arith, i, out));
}

-- The first node of a ring with others.
pub Ring-cons :
    (h : Heap) (e : Ptr) (f : File) (x : Ptr × File) (xs : Cells)
    → Ring h ((e, f) ∷ x ∷ xs)
    → Beside h e x xs e e (inode x.0 (last xs x.0) f)
Ring-cons h e f x xs r = (r.links.2, r.links.1)

-- What the nodes of a ring hold.
module _ (h : Heap) where
  pub load-first :
      (x : Ptr × File) (xs : Cells)
      → Ring h (x ∷ xs)
      → load x.0 h ≡ some (inode (first xs x.0) (last xs x.0) x.1, h)
  load-first x xs r = load-some h x.0 r.links.0 r.links.1

  pub load-last :
      (x : Ptr × File) (xs : Cells) (b a : Ptr)
      → Linked h b (x ∷ xs) a
      → (c : Ptr) × (f : File) × (load (last xs x.0) h ≡ some (inode a c f, h))
  load-last x [] b a (ne, at, l) = (b, x.1, load-some h x.0 ne at)
  load-last x (y ∷ xs) b a (ne, at, l) = load-last y xs x.0 a l

  pub one_node-Ring :
      (e : Ptr) (f : File) → (e == null) ≡ false → h e ≡ some (inode e e f) → Ring h ((e, f) ∷ [])
  one_node-Ring e f ne at = record { links = (ne, at, tt); apart = (refl, tt) }

  -- A change of the file of the first node.
  pub set_ref_bit-first :
      (x : Ptr × File) (xs : Cells) (b : ℕ)
      → Ring h (x ∷ xs)
      → (g : Heap) × (set_ref_bit x.0 b h ≡ some (tt, g))
        × Ring g ((x.0, record x.1 { ref_bit = b }) ∷ xs)
  unfolding set_ref_bit
  set_ref_bit-first x xs b r = (
    write h x.0 (some (inode (first xs x.0) (last xs x.0) (record x.1 { ref_bit = b }))),
    rw (load-first x xs r) refl,
    record {
      links = (r.links.0, write-same h x.0 _, Linked-write h x.0 _ xs x.0 x.0 r.apart.0 r.links.2);
      apart = r.apart;
    },
  )

-- The writes that take the first node out of a ring, and free it.
module _ (h : Heap) (e : Ptr) (f : File) (x : Ptr × File) (xs : Cells)
    (r : Ring h ((e, f) ∷ x ∷ xs)) where
  abbrev pub Unlinked : Type 0
  Unlinked =
      (g1 g2 g3 : Heap) × (set_next (last xs x.0) x.0 h ≡ some (tt, g1))
      × (set_prev x.0 (last xs x.0) g1 ≡ some (tt, g2))
      × (free e g2 ≡ some (tt, g3))
      × Ring g3 (x ∷ xs)

  pub unlink : Unlinked
  unlink =
      let (out, apart) = r.apart in
      let ne = r.links.0 in
      let (g1, run1, k1) = next_of_last x xs e apart out ne h e e x.0 _ (Ring-cons h e f x xs r) in
      let (g2, run2, k2) = prev_of_first x xs e apart out ne g1 e x.0 (last xs x.0) _ k1 in
      (
        g1,
        g2,
        write g2 e none,
        run1,
        run2,
        free-write g2 e ne k2.1,
        record { links = Linked-write g2 e none (x ∷ xs) _ _ out k2.0; apart = apart },
      )

-- The writes that put a node behind the last one of a ring.
module _ (h : Heap) (x : Ptr × File) (xs : Cells) (r : Ring h (x ∷ xs)) (e q p : Ptr) (f : File)
    (ne : (e == null) ≡ false) (out : has e (x ∷ xs) ≡ false) (at : h e ≡ some (inode q p f)) where
  abbrev pub LinkedIn : Type 0
  LinkedIn =
      (g1 g2 g3 g4 : Heap) × (set_next (last xs x.0) e h ≡ some (tt, g1))
      × (set_next e x.0 g1 ≡ some (tt, g2))
      × (set_prev x.0 e g2 ≡ some (tt, g3))
      × (set_prev e (last xs x.0) g3 ≡ some (tt, g4))
      × Ring g4 ((x ∷ xs) ++ (e, f) ∷ [])

  pub link : LinkedIn
  link =
      let (g1, run1, k1) = next_of_last x xs e r.apart out ne h _ x.0 e _ (r.links, at) in
      let (g2, run2, k2) = next_of_node x xs e r.apart out ne g1 _ e x.0 _ k1 in
      let (g3, run3, k3) = prev_of_first x xs e r.apart out ne g2 _ e e _ k2 in
      let (g4, run4, k4) = prev_of_node x xs e r.apart out ne g3 e e (last xs x.0) _ k3 in
      (g1, g2, g3, g4, run1, run2, run3, run4, Ring-snoc g4 x xs e f r.apart out ne k4)

  -- The same in another order.
  abbrev pub LinkedBack : Type 0
  LinkedBack =
      (g1 g2 g3 g4 : Heap) × (set_prev e (last xs x.0) h ≡ some (tt, g1))
      × ((c : Ptr) × (d : File) × (load (last xs x.0) g1 ≡ some (inode x.0 c d, g1)))
      × (set_next e x.0 g1 ≡ some (tt, g2))
      × (set_next (last xs x.0) e g2 ≡ some (tt, g3))
      × (set_prev x.0 e g3 ≡ some (tt, g4))
      × Ring g4 ((x ∷ xs) ++ (e, f) ∷ [])

  pub link_back : LinkedBack
  link_back =
      let (g1, run1, k1) =
        prev_of_node x xs e r.apart out ne h _ x.0 (last xs x.0) _ (r.links, at) in
      let (g2, run2, k2) = next_of_node x xs e r.apart out ne g1 _ x.0 x.0 _ k1 in
      let (g3, run3, k3) = next_of_last x xs e r.apart out ne g2 _ x.0 e _ k2 in
      let (g4, run4, k4) = prev_of_first x xs e r.apart out ne g3 _ e e _ k3 in
      (
        g1,
        g2,
        g3,
        g4,
        run1,
        load-last g1 x xs _ x.0 k1.0,
        run2,
        run3,
        run4,
        Ring-snoc g4 x xs e f r.apart out ne k4,
      )

-- The last node is not one that the list lacks.
pub last-other :
    (p : Ptr) (x : Ptr × File) (xs : Cells) → has p (x ∷ xs) ≡ false → (p == last xs x.0) ≡ false
last-other p x [] out = ground (arith, out)
last-other p x (y ∷ xs) out = last-other p y xs (ground (arith, out))
