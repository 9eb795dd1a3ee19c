-- ===== src/Cache/Lfu/Inserting.antt =====
-- On `get_pos_lfu` and the end of `insque_lfu` (src/util.c).
use fusionfs_cache.Cache.Heap.{Ptr, null, File, INode, inode, Heap, write, load, insque}
use fusionfs_cache.Cache.Lfu.{Lfu, pos_from, pos_prev, get_pos_lfu, add_lfu}
use fusionfs_cache.Cache.Lfu.Position.{lower, upper, lower-upper, insert_by_freq, pos_from-upper}
use fusionfs_cache.Cache.Lru.{lru}
use fusionfs_cache.Cache.Lru.Inserting.{insque-last, insque-alone}
use fusionfs_cache.Cache.Ring.{
  Cells, first, last, has, has-append, Distinct, Distinct-split, Linked, Linked-split, Ring,
  Ring-rotate, append_nil, last-append, write-same, load-some, set_next-write, set_prev-write,
}
use fusionfs_cache.Cache.Ring.Steps.{load-first, last-other}
use fusionfs_cache.Prelude.{
  ℕ, ◌≤◌, ◌≡◌, refl, sym, ap, ◌∙◌, true, false, leb, some, [], ◌∷◌, ◌++◌, arith, ◌==◌,
  if◌then◌else◌, subst, length, append_assoc,
}

-- A new node between two parts of a ring, behind the node `last cs`.
insque-between :
    (h : Heap) (a : Ptr × File) (cs bs : Cells) (e q p : Ptr) (f : File)
    → Ring h ((a ∷ cs) ++ bs)
    → (e == null) ≡ false
    → has e ((a ∷ cs) ++ bs) ≡ false
    → h e ≡ some (inode q p f)
    → (g : Heap) × (insque e (last cs a.0) h ≡ some (tt, g)) × Ring g ((a ∷ cs) ++ (e, f) ∷ bs)
insque-between h a cs [] e q p f r ne out at =
    insque-last h a cs e q p f (rw (append_nil (a ∷ cs)) at r) ne
      (subst (λ r. has e r ≡ false) (append_nil (a ∷ cs)) out) at
insque-between h a cs (b ∷ bs) e q p f r ne out at =
    let s = Ring-rotate h (a ∷ cs) (b ∷ bs) r in
    let out' : has e ((b ∷ bs) ++ a ∷ cs) ≡ false =
      ground (arith, out, has-append e cs (b ∷ bs), has-append e bs (a ∷ cs)) in
    let (g, run, t) = insque-last h b (bs ++ a ∷ cs) e q p f s ne out' at in
    (
      g,
      rw (last-append bs (a ∷ cs) b.0) at run,
      subst (Ring g) (append_assoc (a ∷ cs) ((e, f) ∷ []) (b ∷ bs)) (
          Ring-rotate g (b ∷ bs) ((a ∷ cs) ++ (e, f) ∷ [])
            (subst (Ring g) (append_assoc (b ∷ bs) (a ∷ cs) ((e, f) ∷ [])) t)),
    )

pos_prev-last :
    (h : Heap) (c : Lfu) (ls us : Cells)
    → Ring h (ls ++ us)
    → c.lru_head ≡ first (ls ++ us) null
    → c.lru_tail ≡ last (ls ++ us) null
    → 1 ≤ length (ls ++ us)
    → pos_prev c (first us c.lru_head, leb 1 (length us)) h ≡ some (last ls null, h)
unfolding pos_prev
pos_prev-last h c [] [] r at_head at_tail more = ground (arith, more)
pos_prev-last h c [] (u ∷ us) r at_head at_tail more =
    let same : (c.lru_head == u.0) ≡ true = rw at_head (ground arith) in
    let some_left : leb 1 (length (u ∷ us)) ≡ true = ground arith in rw (same, some_left) refl
pos_prev-last h c (l ∷ ls) [] r at_head at_tail more =
    let same : (c.lru_head == c.lru_head) ≡ true = ground arith in
    rw (same, at_tail, append_nil ls) refl
pos_prev-last h c (l ∷ ls) (u ∷ us) r at_head at_tail more =
    let s = Ring-rotate h (l ∷ ls) (u ∷ us) r in
    let other : (c.lru_head == u.0) ≡ false =
      rw at_head (ground (arith, s.apart.0, has-append u.0 us (l ∷ ls))) in
    rw (other, load-first h u (us ++ l ∷ ls) s, last-append us (l ∷ ls) u.0) refl

-- The node behind which a new one belongs, NULL when it belongs at the head.
get_pos_lfu-last :
    (h : Heap) (c : Lfu) (k : ℕ) (e : Ptr) (n : INode) (x : Ptr × File) (xs : Cells)
    → Ring h (x ∷ xs)
    → c.lru_head ≡ x.0
    → c.lru_tail ≡ last xs x.0
    → load e h ≡ some (n, h)
    → length (x ∷ xs) ≤ k
    → get_pos_lfu k c e h ≡ some (last (lower n.file.freq (x ∷ xs)) null, h)
unfolding get_pos_lfu
get_pos_lfu-last h c k e n x xs r at_head at_tail loads enough =
    let f = n.file.freq in
    let whole = lower-upper f (x ∷ xs) in
    let pos : pos_from k f c.lru_head c.lru_head h
        ≡ some ((first (upper f (x ∷ xs)) c.lru_head, leb 1 (length (upper f (x ∷ xs)))), h) =
      rw at_head (pos_from-upper h x.0 k f x xs _ enough r.apart.0 r.links) in
    let stops =
      pos_prev-last h c (lower f (x ∷ xs)) (upper f (x ∷ xs)) (subst (Ring h) (sym whole) r)
        (at_head ∙ ap (λ r. first r null) (sym whole)) (at_tail ∙ ap (λ r. last r null) (sym whole))
        (subst (λ r. 1 ≤ length r) (sym whole) (omega arith)) in
    rw (loads, pos) stops

-- The last node of a part.
has-last : (x : Ptr × File) (xs : Cells) → has (last xs x.0) (x ∷ xs) ≡ true
has-last x [] = ground arith
has-last x (y ∷ xs) = ground (arith, has-last y xs)

last_is_some :
    (h : Heap) (x : Ptr × File) (xs : Cells) (b a : Ptr)
    → Linked h b (x ∷ xs) a
    → (last xs x.0 == null) ≡ false
last_is_some h x [] b a l = l.0
last_is_some h x (y ∷ xs) b a l = last_is_some h y xs x.0 a l.2

-- The tail moves when the new node is the last.
tail_after :
    (l : Ptr × File) (ls us : Cells) (e : Ptr) (f : File)
    → Distinct ((l ∷ ls) ++ us)
    → (if last (ls ++ us) l.0 == last ls l.0 then e else last (ls ++ us) l.0)
      ≡ last (ls ++ (e, f) ∷ us) l.0
tail_after l ls [] e f d =
    let same : (last ls l.0 == last ls l.0) ≡ true = ground arith in
    rw (append_nil ls, same, last-append ls ((e, f) ∷ []) l.0) refl
tail_after l ls (u ∷ us) e f d =
    let (dl, du, apart) = Distinct-split (l ∷ ls) (u ∷ us) d in
    let out = last-other (last ls l.0) u us (apart (last ls l.0) (has-last l ls)) in
    let other : (last us u.0 == last ls l.0) ≡ false = ground (arith, out) in
    rw (last-append ls (u ∷ us) l.0, last-append ls ((e, f) ∷ u ∷ us) l.0, other) refl

-- The two ways in which a node is added to a queue that is not empty.
module _ (h g : Heap) (c : Lfu) (k : ℕ) (e prev : Ptr) (more : (c.lru_head == null) ≡ false)
    (pos : get_pos_lfu k c e h ≡ some (prev, h)) where
  add_lfu-front :
      (prev == null) ≡ true
      → insque e c.lru_tail h ≡ some (tt, g)
      → add_lfu k c e h ≡ some (lru e c.lru_tail, g)
  unfolding add_lfu
  add_lfu-front at_front run = rw (more, pos, at_front, run) refl

  add_lfu-behind :
      (prev == null) ≡ false
      → insque e prev h ≡ some (tt, g)
      → add_lfu k c e h ≡ some (lru c.lru_head (if c.lru_tail == prev then e else c.lru_tail), g)
  unfolding add_lfu
  add_lfu-behind behind run = rw (more, pos, behind, run) refl

-- What an insertion leaves: the queue with the node where its frequency belongs.
abbrev pub AddedLfu : ℕ → Heap → Lfu → Ptr → Cells → Type 0
AddedLfu k h c e ys =
    (g : Heap) × (d : Lfu) × (add_lfu k c e h ≡ some (d, g))
    × Ring g ys
    × (d.lru_head ≡ first ys null)
    × (d.lru_tail ≡ last ys null)

module _ (h : Heap) (c : Lfu) (k : ℕ) (e q p : Ptr) (f : File) (ne : (e == null) ≡ false)
    (at : h e ≡ some (inode q p f)) where
  -- The parts before and behind the place.
  add_lfu-parts :
      (ls us : Cells)
      → Ring h (ls ++ us)
      → c.lru_head ≡ first (ls ++ us) null
      → c.lru_tail ≡ last (ls ++ us) null
      → has e (ls ++ us) ≡ false
      → 1 ≤ length (ls ++ us)
      → get_pos_lfu k c e h ≡ some (last ls null, h)
      → AddedLfu k h c e (ls ++ (e, f) ∷ us)
  add_lfu-parts [] [] r at_head at_tail out more pos = ground (arith, more)
  add_lfu-parts [] (u ∷ us) r at_head at_tail out more pos =
      let (g, run, s) = insque-last h u us e q p f r ne out at in
      (
        g,
        lru e c.lru_tail,
        add_lfu-front h g c k e null (rw at_head r.links.0) pos refl (rw at_tail run),
        Ring-rotate g (u ∷ us) ((e, f) ∷ []) s,
        refl,
        at_tail,
      )
  add_lfu-parts (l ∷ ls) us r at_head at_tail out more pos =
      let (g, run, s) = insque-between h l ls us e q p f r ne out at in
      let placed = last_is_some h l ls _ _ (Linked-split h (l ∷ ls) us _ _ r.links).0 in
      (
        g,
        lru c.lru_head (if c.lru_tail == last ls l.0 then e else c.lru_tail),
        add_lfu-behind h g c k e (last ls l.0) (rw at_head r.links.0) pos placed run,
        s,
        at_head,
        rw at_tail (tail_after l ls us e f r.apart),
      )

  -- Anywhere, and into the empty queue.
  pub add_lfu-Ring :
      (xs : Cells)
      → Ring h xs
      → c.lru_head ≡ first xs null
      → c.lru_tail ≡ last xs null
      → has e xs ≡ false
      → length xs ≤ k
      → AddedLfu k h c e (insert_by_freq (e, f) xs)
  unfolding add_lfu
  add_lfu-Ring [] r at_head at_tail out enough =
      let h1 = write h e (some (inode e p f)) in
      let h2 = write h1 e (some (inode e e f)) in
      let run1 = set_next-write h e ne at e in
      let run2 = set_prev-write h1 e ne (write-same h e _) e in
      let (g, run, s) = insque-alone h2 e f ne (write-same h1 e _) in
      (g, lru e e, rw (at_head, run1, run2, run) refl, s, refl, refl)
  add_lfu-Ring (x ∷ xs) r at_head at_tail out enough =
      let whole = sym (lower-upper f.freq (x ∷ xs)) in
      add_lfu-parts (lower f.freq (x ∷ xs)) (upper f.freq (x ∷ xs)) (subst (Ring h) whole r)
        (at_head ∙ ap (λ r. first r null) whole) (at_tail ∙ ap (λ r. last r null) whole)
        (subst (λ r. has e r ≡ false) whole out) (subst (λ r. 1 ≤ length r) whole (omega arith))
        (get_pos_lfu-last h c k e _ x xs r at_head at_tail (load-some h e ne at) enough)
