-- ===== src/Cache/Lfu/Counting.antt =====
-- On `insque_lfu` (src/util.c).
use fusionfs_cache.Cache.Heap.{Ptr, null, File, INode, inode, Heap, write, load, set_freq}
use fusionfs_cache.Cache.Lfu.{Lfu, findelem_lfu, rmelem_lfu, add_lfu, replace_lfu, insque_lfu}
use fusionfs_cache.Cache.Lfu.Inserting.{add_lfu-Ring}
use fusionfs_cache.Cache.Lfu.Position.{
  insert_by_freq, Sorted, insert_by_freq-Sorted, Sorted-erase, count-insert_by_freq, freq_of,
  freq_of-only,
}
use fusionfs_cache.Cache.Lru.Inserting.{Unique-latest, has-erase}
use fusionfs_cache.Cache.Lru.Removing.{IsLru, findelem_lru-find, rmelem_lru-IsLru}
use fusionfs_cache.Cache.Names.{
  At, At-cases, apart_from_name, count, count-append, find, find-absent, find-only, named, Unique,
  erase, erase-absent,
}
use fusionfs_cache.Cache.Ring.{
  Cells, first, last, has, Linked-split, Linked-write, Ring, write-same, load-some,
}
use fusionfs_cache.Prelude.{
  ℕ, ◌+◌, ◌≤◌, ◌≡◌, refl, sym, ap, ◌∙◌, true, false, Option, some, [], ◌∷◌, ◌++◌, arith, ◌==◌,
  if◌then◌else◌, inl, inr, Bytes, eqb→eq, Bool-cases, subst, length,
}

-- A file of the queue is used once more; a new file keeps the frequency that it comes with.
abbrev pub counted : File → Cells → File
counted f xs = if count f.fname xs == 0 then f else record f { freq = freq_of f.fname xs + 1 }

-- What the queue stands for, and that it is sorted.
pub record IsLfu (h : Heap) (c : Lfu) (xs : Cells) : Type 0 where
  pub queue : IsLru h c xs
  pub sorted : Sorted xs

-- The runs of a hit and of a miss.
module _ (h : Heap) (c : Lfu) (k : ℕ) (e : Ptr) (n : INode) (p : Ptr)
    (loads : load e h ≡ some (n, h)) (search : findelem_lfu k c n.file.fname h ≡ some (p, h)) where
  insque_lfu-miss : (p == null) ≡ true → insque_lfu k c e h ≡ add_lfu k c e h
  unfolding insque_lfu
  insque_lfu-miss t = rw (loads, search, t) refl

  insque_lfu-hit :
      (m : INode) (g1 g2 : Heap) (d : Lfu)
      → (p == null) ≡ false
      → load p h ≡ some (m, h)
      → set_freq e (m.file.freq + 1) h ≡ some (tt, g1)
      → rmelem_lfu k c m.file.fname g1 ≡ some (d, g2)
      → insque_lfu k c e h ≡ add_lfu k d e g2
  unfolding insque_lfu replace_lfu
  insque_lfu-hit m g1 g2 d f loads' run1 run2 = rw (loads, search, f, loads', run1, run2) refl

set_freq-write :
    (h : Heap) (e q p : Ptr) (f : File) (b : ℕ)
    → (e == null) ≡ false
    → h e ≡ some (inode q p f)
    → set_freq e b h ≡ some (tt, write h e (some (inode q p (record f { freq = b }))))
unfolding set_freq
set_freq-write h e q p f b ne at = rw (load-some h e ne at) refl

-- A node outside the queue can change.
IsLru-write :
    (h : Heap) (c : Lfu) (xs : Cells) (e : Ptr) (n : Option INode)
    → has e xs ≡ false
    → IsLru h c xs
    → IsLru (write h e n) c xs
IsLru-write h c xs e n out i = record {
  ring = record { links = Linked-write h e n xs _ _ out i.ring.links; apart = i.ring.apart };
  head = i.head;
  tail = i.tail;
  unique = i.unique;
}

-- Insertion into a sorted queue without the name.
add_lfu-IsLfu :
    (h : Heap) (c : Lfu) (xs : Cells) (k : ℕ) (e q p : Ptr) (f : File)
    → IsLru h c (erase f.fname xs)
    → Unique xs
    → Sorted xs
    → length (erase f.fname xs) ≤ k
    → (e == null) ≡ false
    → has e (erase f.fname xs) ≡ false
    → h e ≡ some (inode q p f)
    → (g : Heap) × (d : Lfu) × (add_lfu k c e h ≡ some (d, g))
      × IsLfu g d (insert_by_freq (e, f) (erase f.fname xs))
add_lfu-IsLfu h c xs k e q p f i one s enough ne out at =
    let n = f.fname in
    let (g, d, run, r, head, tail) =
      add_lfu-Ring h c k e q p f ne at (erase n xs) i.ring i.head i.tail out enough in
    (
      g,
      d,
      run,
      record {
        queue = record {
          ring = r;
          head = head;
          tail = tail;
          unique =
              λ m. rw (count-insert_by_freq m (e, f) (erase n xs)) (Unique-latest xs e f one m);
        };
        sorted = insert_by_freq-Sorted (e, f) (erase n xs) (Sorted-erase n xs s);
      },
    )

length-erase : (n : Bytes) (xs : Cells) → length (erase n xs) ≤ length xs
length-erase n [] = omega arith
length-erase n (x ∷ xs) = elim (Bool-cases (named n x)) [
  | inl t ↦ rw t (omega (arith, length-erase n xs))
  | inr f ↦ rw f (omega (arith, length-erase n xs))
]

-- The queue after a use of a file, which the node `e` stands for.
abbrev pub used : Ptr → File → Cells → Cells
used e f xs = insert_by_freq (e, counted f xs) (erase f.fname xs)

abbrev pub Used : ℕ → Heap → Lfu → Ptr → File → Cells → Type 0
Used k h c e f xs =
    (g : Heap) × (d : Lfu) × (insque_lfu k c e h ≡ some (d, g)) × IsLfu g d (used e f xs)

module _ (h : Heap) (c : Lfu) (xs : Cells) (k : ℕ) (e q p : Ptr) (f : File) (i : IsLfu h c xs)
    (enough : length xs ≤ k) (ne : (e == null) ≡ false) (out : has e xs ≡ false)
    (at : h e ≡ some (inode q p f)) where
  searches : findelem_lfu k c f.fname h ≡ some (find f.fname xs, h)
  unfolding findelem_lfu
  searches = findelem_lru-find h c k f.fname xs i.queue.ring i.queue.head enough

  fits : length (erase f.fname xs) ≤ k
  fits = omega (arith, enough, length-erase f.fname xs)

  use_miss : count f.fname xs ≡ 0 → Used k h c e f xs
  use_miss z =
      let n = f.fname in
      let loads = load-some h e ne at in
      let missing : (find n xs == null) ≡ true = rw (find-absent n xs z) (ground arith) in
      let (g, d, run, j) =
        add_lfu-IsLfu h c xs k e q p f (subst (IsLru h c) (sym (erase-absent n xs z)) i.queue)
          i.queue.unique i.sorted fits ne (has-erase n e xs out) at in
      let same : counted f xs ≡ f = rw z refl in
      (
        g,
        d,
        insque_lfu-miss h c k e _ (find n xs) loads searches missing ∙ run,
        subst (λ r. IsLfu g d (insert_by_freq (e, r) (erase n xs))) (sym same) j,
      )

  use_hit : At f.fname xs → Used k h c e f xs
  unfolding rmelem_lfu
  use_hit a =
      let n = f.fname in
      let x = a.node in
      let b = x.1.freq + 1 in
      let f' : File = record f { freq = b } in
      let one = subst (λ r. count n r ≤ 1) a.split (i.queue.unique n) in
      let (before, after) = apart_from_name n a.front x a.back a.is_named one in
      let found : find n xs ≡ x.0 =
        ap (find n) a.split ∙ find-only n a.front x a.back a.is_named before in
      let name : x.1.fname ≡ n = eqb→eq x.1.fname n a.is_named in
      let ring = subst (Ring h) a.split i.queue.ring in
      let (x_ne, x_at, x_links) = (Linked-split h a.front (x ∷ a.back) _ _ ring.links).1 in
      let m : INode =
        inode (first a.back (first (a.front ++ x ∷ a.back) null))
          (last a.front (last (a.front ++ x ∷ a.back) null)) x.1 in
      let h1 = write h e (some (inode q p f')) in
      let (g1, d1, run1, j, same) =
        rmelem_lru-IsLru h1 c xs k x.1.fname (IsLru-write h c xs e _ out i.queue) enough in
      let (g, d, run, l) =
        add_lfu-IsLfu g1 d1 xs k e q p f' (subst (λ r. IsLru g1 d1 (erase r xs)) name j)
          i.queue.unique i.sorted fits ne (has-erase n e xs out) (same e out ∙ write-same h e _) in
      let freq : freq_of n xs ≡ x.1.freq =
        ap (freq_of n) a.split ∙ freq_of-only n a.front x a.back a.is_named before in
      let present : (count n xs == 0) ≡ false =
        rw (a.split, count-append n a.front (x ∷ a.back), a.is_named) (ground arith) in
      let file : counted f xs ≡ f' = rw (present, freq) refl in
      (
        g,
        d,
        insque_lfu-hit h c k e _ (find n xs) (load-some h e ne at) searches m h1 g1 d1
              (rw found x_ne) (rw found (load-some h x.0 x_ne x_at))
              (set_freq-write h e q p f b ne at) run1
            ∙ run,
        subst (λ r. IsLfu g d (insert_by_freq (e, r) (erase n xs))) (sym file) l,
      )

-- On a sorted queue without repeated names, with fuel for one round, and for a node outside the queue,
-- `insque_lfu` returns, and the queue is the one where the file has one more use than before, an older
-- node of its name is out, and it stands where its frequency belongs, behind its equals.
pub insque_lfu-IsLfu :
    (h : Heap) (c : Lfu) (xs : Cells) (k : ℕ) (e q p : Ptr) (f : File)
    → IsLfu h c xs
    → length xs ≤ k
    → (e == null) ≡ false
    → has e xs ≡ false
    → h e ≡ some (inode q p f)
    → Used k h c e f xs
insque_lfu-IsLfu h c xs k e q p f i enough ne out at = elim (At-cases f.fname xs) [
  | inl z ↦ use_miss h c xs k e q p f i enough ne out at z
  | inr a ↦ use_hit h c xs k e q p f i enough ne out at a
]
