-- ===== src/Cache/Walk.antt =====
-- The two loops over a cyclic list that clock.c and util.c have: the search for a name, and the walk
-- that prints the names.
use fusionfs_cache.Cache.Heap.{Ptr, null, File, Cmd, pure, crash, ◌>>=◌, Heap, load}
use fusionfs_cache.Cache.Names.{find, named}
use fusionfs_cache.Cache.Ring.{Cells, has, Linked, Ring, load-some}
use fusionfs_cache.Prelude.{
  ℕ, zero, suc, ◌≤◌, ◌≡◌, refl, false, some, Bytes, eqb, [], ◌∷◌, arith, if◌then◌else◌, length,
  Bool-cases, inl, inr, ◌==◌,
}

-- do { if (strcmp(curr->fname, fname) == 0) return curr; curr = curr->next; } while (curr != head);
unfoldable pub find_from : ℕ → Bytes → Ptr → Ptr → Cmd Ptr
unfolding load eqb
find_from zero fname q curr = crash
find_from (suc k) fname q curr = do
  c ← load curr
  let rest = find_from k fname q c.next
  if eqb c.file.fname fname then pure curr else (if c.next == q then pure null else rest)

-- The walk from the head that prints the names.
unfoldable pub walk : ℕ → Ptr → Ptr → Cmd (Unit {0})
unfolding load
walk zero q pt = crash
walk (suc k) q pt = do
  p ← load pt
  let rest = walk k q p.next
  if p.next == q then pure tt else rest

module _ (h : Heap) (q : Ptr) where
  pub find_from-find :
      (k : ℕ) (n : Bytes) (x : Ptr × File) (xs : Cells) (b : Ptr)
      → length (x ∷ xs) ≤ k
      → has q xs ≡ false
      → Linked h b (x ∷ xs) q
      → find_from k n q x.0 h ≡ some (find n (x ∷ xs), h)
  unfolding find_from
  find_from-find zero n x xs b enough out l = ground (arith, enough)
  find_from-find (suc k) n x [] b enough out (ne, at, l) = elim (Bool-cases (named n x)) [
    | inl t ↦ rw (load-some h x.0 ne at, t) refl
    | inr f ↦ rw (load-some h x.0 ne at, f) (ground arith)
  ]
  find_from-find (suc k) n x (y ∷ xs) b enough out (ne, at, l) =
      let rest = find_from-find k n y xs x.0 (omega (arith, enough)) (ground (arith, out)) l in
      let out_first : (y.0 == q) ≡ false = ground (arith, out) in
      elim (Bool-cases (named n x)) [
        | inl t ↦ rw (load-some h x.0 ne at, t) refl
        | inr f ↦ rw (load-some h x.0 ne at, f, out_first) rest
      ]

  pub walk-ends :
      (k : ℕ) (x : Ptr × File) (xs : Cells) (b : Ptr)
      → length (x ∷ xs) ≤ k
      → has q xs ≡ false
      → Linked h b (x ∷ xs) q
      → walk k q x.0 h ≡ some (tt, h)
  unfolding walk
  walk-ends zero x xs b enough out l = ground (arith, enough)
  walk-ends (suc k) x [] b enough out (ne, at, l) = rw (load-some h x.0 ne at) (ground arith)
  walk-ends (suc k) x (y ∷ xs) b enough out (ne, at, l) =
      let rest = walk-ends k y xs x.0 (omega (arith, enough)) (ground (arith, out)) l in
      let out_first : (y.0 == q) ≡ false = ground (arith, out) in
      rw (load-some h x.0 ne at, out_first) rest

-- From the head of a ring.
module _ (h : Heap) (k : ℕ) (x : Ptr × File) (xs : Cells) (enough : length (x ∷ xs) ≤ k)
    (r : Ring h (x ∷ xs)) where
  pub find-ring : (n : Bytes) → find_from k n x.0 x.0 h ≡ some (find n (x ∷ xs), h)
  find-ring n = find_from-find h x.0 k n x xs _ enough r.apart.0 r.links

  pub walk-ring : walk k x.0 x.0 h ≡ some (tt, h)
  walk-ring = walk-ends h x.0 k x xs _ enough r.apart.0 r.links
