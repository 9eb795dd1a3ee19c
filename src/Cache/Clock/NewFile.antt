-- ===== src/Cache/Clock/NewFile.antt =====
-- On the part of `insque_clock` (src/clock.c) for a file that is not in the queue.
use fusionfs_cache.Cache.Clock.{Clock, clock, ins_Q, insert_file, name_max}
use fusionfs_cache.Cache.Clock.Invariant.{Turned, Queue}
use fusionfs_cache.Cache.Clock.Inserting.{insert_cell}
use fusionfs_cache.Cache.Heap.{Ptr, null, Heap, inode, INode, alloc, write}
use fusionfs_cache.Cache.Request.{new_file}
use fusionfs_cache.Cache.Ring.{
  Cells, first, has, Linked, Linked-write, Ring, write-same, set_next-write, set_prev-write,
}
use fusionfs_cache.Cache.Ring.Steps.{one_node-Ring}
use fusionfs_cache.Prelude.{
  ◌≤◌, ◌<◌, ◌≡◌, refl, sym, ap, ◌∙◌, true, false, Option, none, some, Bytes, [], ◌∷◌, ◌++◌, arith,
  ◌==◌, Bool-cases, inl, inr, length, length-append, leb,
}

none_is_not : {n : INode} → ◌≡◌ {A = Option INode} none (some n) → ⊥
none_is_not e = cc

-- A new address holds no node of the queue.
pub new_address :
    (h : Heap) (e : Ptr) (xs : Cells) (b a : Ptr) → Linked h b xs a → h e ≡ none → has e xs ≡ false
new_address h e [] b a l new = refl
new_address h e (x ∷ xs) b a (ne, at, l) new =
    let rest = new_address h e xs x.0 a l new in
    elim (Bool-cases (e == x.0)) [
      | inl t ↦
          let same : e ≡ x.0 = ground (arith, t) in
          let both : ◌≡◌ {A = Option INode} none (some (inode (first xs a) b x.1)) =
            sym new ∙ (ap h same ∙ at) in
          elim (none_is_not both) [ ]
      | inr f ↦ ground (arith, f, rest)
    ]

-- What malloc leaves.
abbrev pub made : Heap → Ptr → Bytes → Heap
made h e n = write h e (some (inode null null (new_file n)))

module _ (h : Heap) (c : Clock) (e : Ptr) (n : Bytes) (ne : (e == null) ≡ false)
    (short : length n < name_max) where
  insert_file-more : (c.clock_head == null) ≡ false → insert_file c e n h ≡ ins_Q c e (made h e n)
  unfolding insert_file alloc
  insert_file-more more =
      let fits : leb name_max (length n) ≡ false = ground (arith, short) in rw (fits, more) refl

  insert_file-first :
      (c.clock_head == null) ≡ true
      → (g : Heap) × (insert_file c e n h ≡ some (clock e e c.victim, g))
        × Ring g ((e, new_file n) ∷ [])
  unfolding insert_file alloc
  insert_file-first empty =
      let fits : leb name_max (length n) ≡ false = ground (arith, short) in
      let f = new_file n in
      let h1 = made h e n in
      let h2 = write h1 e (some (inode e null f)) in
      let run1 = set_next-write h1 e ne (write-same h e _) e in
      let run2 = set_prev-write h2 e ne (write-same h1 e _) e in
      (
        write h2 e (some (inode e e f)),
        rw (fits, empty, run1, run2) refl,
        one_node-Ring _ e f ne (write-same h2 e _),
      )

made-Turned :
    (h : Heap) (c : Clock) (zs ys : Cells) (e : Ptr) (n : Bytes)
    → Turned h c zs ys
    → has e (zs ++ ys) ≡ false
    → Turned (made h e n) c zs ys
made-Turned h c zs ys e n t out = record {
  ring = record {
    links = Linked-write h e _ (zs ++ ys) _ _ out t.ring.links;
    apart = t.ring.apart;
  };
  ends = t.ends;
  hand = t.hand;
}

pub head_is_some :
    (h : Heap) (c : Clock) (ws : Cells)
    → Ring h ws
    → c.clock_head ≡ first ws null
    → 1 ≤ length ws
    → (c.clock_head == null) ≡ false
head_is_some h c [] r e more = ground (arith, more)
head_is_some h c (w ∷ ws) r e more = rw e r.links.0

-- The new file is the last that the hand meets.
abbrev pub FileInserted : Heap → Clock → Cells → Cells → Ptr → Bytes → Type 0
FileInserted h c zs ys e n =
    (g : Heap) × (d : Clock) × (insert_file c e n h ≡ some (d, g))
    × Queue g d ((ys ++ zs) ++ (e, new_file n) ∷ [])

insert_file-nonempty :
    (h : Heap) (c : Clock) (zs ys : Cells) (e : Ptr) (n : Bytes)
    → Turned h c zs ys
    → (e == null) ≡ false
    → h e ≡ none
    → length n < name_max
    → 1 ≤ length (zs ++ ys)
    → 1 ≤ length (ys ++ zs)
    → FileInserted h c zs ys e n
insert_file-nonempty h c zs ys e n t ne new short more more' =
    let out = new_address h e (zs ++ ys) _ _ t.ring.links new in
    let (g, d, run, q) =
      insert_cell (made h e n) c e (new_file n) ne (write-same h e _) zs ys
        (made-Turned h c zs ys e n t out) more' out in
    (
      g,
      d,
      insert_file-more h c e n ne short (head_is_some h c (zs ++ ys) t.ring t.ends.0 more) ∙ run,
      q,
    )

pub insert_file-Queue :
    (h : Heap) (c : Clock) (zs ys : Cells) (e : Ptr) (n : Bytes)
    → Turned h c zs ys
    → (e == null) ≡ false
    → h e ≡ none
    → length n < name_max
    → FileInserted h c zs ys e n
insert_file-Queue h c [] [] e n t ne new short =
    let (g, run, r) = insert_file-first h c e n ne short (rw t.ends.0 refl) in
    (
      g,
      _,
      run,
      record {
        behind = [];
        ahead = (e, new_file n) ∷ [];
        order = refl;
        turned = record { ring = r; ends = (refl, refl); hand = inr (t.hand.0, refl) };
      },
    )
insert_file-Queue h c zs (y ∷ ys) e n t ne new short =
    insert_file-nonempty h c zs (y ∷ ys) e n t ne new short
      (omega (arith, length-append zs (y ∷ ys))) (omega arith)
insert_file-Queue h c (z ∷ zs) [] e n t ne new short =
    insert_file-nonempty h c (z ∷ zs) [] e n t ne new short (omega arith) (omega arith)
