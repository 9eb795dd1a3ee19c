-- ===== src/Cache/Ring.antt =====
-- Cyclic doubly linked lists of nodes, as clock.c and util.c keep them.
pub mod Steps
pub mod Outside
use fusionfs_cache.Cache.Heap.{
  Ptr, null, File, INode, inode, Heap, write, load, set_next, set_prev, free,
}
use fusionfs_cache.Prelude.{
  ℕ, ◌≡◌, refl, sym, ap, ◌∙◌, Bool, true, false, ◌||◌, Option, none, some, List, [], ◌∷◌, ◌++◌,
  arith, ◌==◌, if◌then◌else◌,
}

-- What a queue stands for: the address and the file of each node, in order.
abbrev pub Cells : Type 0
Cells = List (Ptr × File)

abbrev pub first : Cells → Ptr → Ptr
first [] a = a
first (x ∷ xs) a = x.0

abbrev pub last : Cells → Ptr → Ptr
last [] b = b
last (x ∷ xs) b = last xs x.0

abbrev pub has : Ptr → Cells → Bool
has a [] = false
has a (x ∷ xs) = (a == x.0) || has a xs

abbrev pub Distinct : Cells → Type 0
Distinct [] = Unit
Distinct (x ∷ xs) = (has x.0 xs ≡ false) × Distinct xs

-- The pointers lead through `xs`, from `before` to `after`, and back.
abbrev pub Linked : Heap → Ptr → Cells → Ptr → Type 0
Linked h before [] after = Unit
Linked h before (x ∷ xs) after =
    ((x.0 == null) ≡ false)
    × (h x.0 ≡ some (inode (first xs after) before x.1))
    × Linked h x.0 xs after

pub record Ring (h : Heap) (xs : Cells) : Type 0 where
  pub links : Linked h (last xs null) xs (first xs null)
  pub apart : Distinct xs

pub append_nil : (xs : Cells) → xs ++ [] ≡ xs
append_nil [] = refl
append_nil (x ∷ xs) = ap (λ r. x ∷ r) (append_nil xs)

pub first-append : (xs ys : Cells) (a : Ptr) → first (xs ++ ys) a ≡ first xs (first ys a)
first-append [] ys a = refl
first-append (x ∷ xs) ys a = refl

pub last-append : (xs ys : Cells) (b : Ptr) → last (xs ++ ys) b ≡ last ys (last xs b)
last-append [] ys b = refl
last-append (x ∷ xs) ys b = last-append xs ys x.0

pub has-append : (a : Ptr) (xs ys : Cells) → has a (xs ++ ys) ≡ (has a xs || has a ys)
has-append a [] ys = refl
has-append a (x ∷ xs) ys = ground (arith, has-append a xs ys)

module _ (h : Heap) where
  pub Linked-append :
      (xs ys : Cells) (b a : Ptr)
      → Linked h b xs (first ys a)
      → Linked h (last xs b) ys a
      → Linked h b (xs ++ ys) a
  Linked-append [] ys b a l r = r
  Linked-append (x ∷ xs) ys b a (ne, at, l) r =
      (ne, rw (first-append xs ys a) at, Linked-append xs ys x.0 a l r)

  pub Linked-split :
      (xs ys : Cells) (b a : Ptr)
      → Linked h b (xs ++ ys) a
      → Linked h b xs (first ys a) × Linked h (last xs b) ys a
  Linked-split [] ys b a r = (tt, r)
  Linked-split (x ∷ xs) ys b a (ne, at, r) =
      let (l, t) = Linked-split xs ys x.0 a r in ((ne, rw (sym (first-append xs ys a)) at, l), t)

  -- Links survive a change of other nodes.
  pub Linked-frame :
      (g : Heap) (xs : Cells) (b a : Ptr)
      → ((p : Ptr) → has p xs ≡ true → g p ≡ h p)
      → Linked h b xs a
      → Linked g b xs a
  Linked-frame g [] b a same l = tt
  Linked-frame g (x ∷ xs) b a same (ne, at, l) =
      (ne, same x.0 (ground arith) ∙ at, Linked-frame g xs x.0 a (λ p i. ground (arith, same p)) l)

  pub Linked-write :
      (p : Ptr) (n : Option INode) (xs : Cells) (b a : Ptr)
      → has p xs ≡ false
      → Linked h b xs a
      → Linked (write h p n) b xs a
  unfolding write
  Linked-write p n xs b a out = Linked-frame (write h p n) xs b a (λ q i. ground (arith, out, i))

pub write-same : (h : Heap) (p : Ptr) (n : Option INode) → write h p n p ≡ n
unfolding write
write-same h p n = ground arith

pub write-other : (h : Heap) (p q : Ptr) (n : Option INode) → (q == p) ≡ false → write h p n q ≡ h q
unfolding write
write-other h p q n e = rw e refl

-- What a command leaves alone.
abbrev pub SameOutside : Cells → Heap → Heap → Type 0
SameOutside xs h g = (p : Ptr) → has p xs ≡ false → g p ≡ h p

module _ (h : Heap) (p : Ptr) {n : INode} (ne : (p == null) ≡ false) (at : h p ≡ some n) where
  pub load-some : load p h ≡ some (n, h)
  unfolding load
  load-some = rw (ne, at) refl

  pub set_next-write :
      (q : Ptr) → set_next p q h ≡ some (tt, write h p (some (record n { next = q })))
  unfolding set_next
  set_next-write q = rw (load-some) refl

  pub set_prev-write :
      (q : Ptr) → set_prev p q h ≡ some (tt, write h p (some (record n { prev = q })))
  unfolding set_prev
  set_prev-write q = rw load-some refl

  pub free-write : free p h ≡ some (tt, write h p none)
  unfolding free
  free-write = rw load-some refl

-- Redirecting the end of a segment that is not empty, and its start.
pub set_next-last :
    (h : Heap) (x : Ptr × File) (xs : Cells) (b a q : Ptr)
    → Distinct (x ∷ xs)
    → Linked h b (x ∷ xs) a
    → (g : Heap) × (set_next (last xs x.0) q h ≡ some (tt, g))
      × Linked g b (x ∷ xs) q
      × SameOutside (x ∷ xs) h g
set_next-last h x [] b a q apart (ne, at, l) = (
  write h x.0 (some (inode q b x.1)),
  set_next-write h x.0 ne at q,
  (ne, write-same h x.0 _, tt),
  λ p o. write-other h x.0 p _ (ground (arith, o)),
)
set_next-last h x (y ∷ xs) b a q (out, apart) (ne, at, l) =
    let (g, run, l', same) = set_next-last h y xs x.0 a q apart l in
    (g, run, (ne, same x.0 out ∙ at, l'), λ p o. same p (ground arith))

pub set_prev-first :
    (h : Heap) (x : Ptr × File) (xs : Cells) (b a q : Ptr)
    → Distinct (x ∷ xs)
    → Linked h b (x ∷ xs) a
    → (g : Heap) × (set_prev x.0 q h ≡ some (tt, g))
      × Linked g q (x ∷ xs) a
      × SameOutside (x ∷ xs) h g
set_prev-first h x xs b a q (out, apart) (ne, at, l) = (
  write h x.0 (some (inode (first xs a) q x.1)),
  set_prev-write h x.0 ne at q,
  (ne, write-same h x.0 _, Linked-write h x.0 _ xs x.0 a out l),
  λ p o. write-other h x.0 p _ (ground (arith, o)),
)

-- Lists whose addresses differ.
abbrev pub Disjoint : Cells → Cells → Type 0
Disjoint xs ys = (p : Ptr) → has p xs ≡ true → has p ys ≡ false

pub Distinct-append :
    (xs ys : Cells) → Distinct xs → Distinct ys → Disjoint xs ys → Distinct (xs ++ ys)
Distinct-append [] ys dx dy apart = dy
Distinct-append (x ∷ xs) ys (out, dx) dy apart = (
  rw (has-append x.0 xs ys, out) (apart x.0 (ground arith)),
  Distinct-append xs ys dx dy (λ p i. apart p (ground (arith, i))),
)

pub Distinct-split :
    (xs ys : Cells) → Distinct (xs ++ ys) → Distinct xs × Distinct ys × Disjoint xs ys
Distinct-split [] ys d = (tt, d, λ p i. cc)
Distinct-split (x ∷ xs) ys (out, d) =
    let (dx, dy, apart) = Distinct-split xs ys d in
    (
      (ground (arith, out, has-append x.0 xs ys), dx),
      dy,
      λ p i. ground (arith, i, out, has-append x.0 xs ys, apart p),
    )

pub Disjoint-sym : (xs ys : Cells) → Disjoint xs ys → Disjoint ys xs
Disjoint-sym xs ys apart p i = ground (arith, apart p, i)

-- A ring can be read from any of its nodes.
pub Ring-rotate : (h : Heap) (xs ys : Cells) → Ring h (xs ++ ys) → Ring h (ys ++ xs)
Ring-rotate h [] ys r = rw (append_nil ys) r
Ring-rotate h (x ∷ xs) [] r = rw (append_nil xs) at r
Ring-rotate h (x ∷ xs) (y ∷ ys) r =
    let (dx, dy, apart) = Distinct-split (x ∷ xs) (y ∷ ys) r.apart in
    let (front, back) = Linked-split h (x ∷ xs) (y ∷ ys) _ x.0 r.links in
    record {
      links =
          Linked-append h (y ∷ ys) (x ∷ xs) _ y.0 (rw (last-append ys (x ∷ xs) y.0) back)
            (rw (last-append xs (y ∷ ys) x.0) at front);
      apart = Distinct-append (y ∷ ys) (x ∷ xs) dy dx (Disjoint-sym (x ∷ xs) (y ∷ ys) apart);
    }
