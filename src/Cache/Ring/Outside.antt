-- ===== src/Cache/Ring/Outside.antt =====
-- What a removal leaves alone: the nodes that are not in the ring.
use fusionfs_cache.Cache.Heap.{
  Ptr, null, File, INode, inode, Heap, continue, write, load, set_next, set_prev, free, remque,
}
use fusionfs_cache.Cache.Ring.{
  Cells, last, has, Ring, write-same, write-other, SameOutside, set_next-write, set_prev-write,
  free-write,
}
use fusionfs_cache.Cache.Ring.Steps.{unlink, load-first, last-other}
use fusionfs_cache.Prelude.{
  ◌≡◌, refl, sym, ap, ◌∙◌, false, Option, none, some, [], ◌∷◌, arith, ◌==◌, inl, inr, Bool-cases,
  Option-cases,
}

-- A change of one node leaves other nodes alone.
abbrev pub Touches : Ptr → (Heap → Option (Unit {0} × Heap)) → Type 0
Touches p m = (h g : Heap) (r : Ptr) → (r == p) ≡ false → m h ≡ some (tt, g) → g r ≡ h r

no_result : {g : Heap} → ◌≡◌ {A = Option (Unit {0} × Heap)} none (some (tt, g)) → ⊥
no_result e = cc

abbrev heap_at : Ptr → Option (Unit {0} × Heap) → Option INode
heap_at r none = none
heap_at r (some (u, k)) = k r

module _ (p : Ptr) where
  change-Touches :
      (f : INode → Option INode)
      → Touches p (λ h. continue (λ n k. some (tt, write k p (f n))) (load p h))
  unfolding load
  change-Touches f h g r other run = elim (Bool-cases (p == null)) [
    | inl z ↦ elim (no_result (rw z at run)) [ ]
    | inr ne ↦ elim (Option-cases (h p)) [
      | inl z ↦ elim (no_result (rw (ne, z) at run)) [ ]
      | inr (n, at) ↦ ap (heap_at r) (sym (rw (ne, at) at run)) ∙ write-other h p r _ other
    ]
  ]

  set_next-Touches : (q : Ptr) → Touches p (set_next p q)
  unfolding set_next
  set_next-Touches q = change-Touches (λ n. some (record n { next = q }))

  set_prev-Touches : (q : Ptr) → Touches p (set_prev p q)
  unfolding set_prev
  set_prev-Touches q = change-Touches (λ n. some (record n { prev = q }))

  free-Touches : Touches p (free p)
  unfolding free
  free-Touches = change-Touches (λ n. none)

-- `remque` and `free` of the first node of a ring.
abbrev pub Unqueued : Heap → Ptr × File → Cells → Type 0
Unqueued h x xs =
    (k g : Heap) × (remque x.0 h ≡ some (tt, k))
    × (free x.0 k ≡ some (tt, g))
    × Ring g xs
    × SameOutside (x ∷ xs) h g

pub unqueue : (h : Heap) (x : Ptr × File) (xs : Cells) → Ring h (x ∷ xs) → Unqueued h x xs
unfolding remque
unqueue h x [] r =
    let ne = r.links.0 in
    let h1 = write h x.0 (some (inode x.0 x.0 x.1)) in
    let h2 = write h1 x.0 (some (inode x.0 x.0 x.1)) in
    let run1 = set_next-write h x.0 ne r.links.1 x.0 in
    let run2 = set_prev-write h1 x.0 ne (write-same h x.0 _) x.0 in
    let run3 = free-write h2 x.0 ne (write-same h1 x.0 _) in
    (
      h2,
      write h2 x.0 none,
      rw (load-first h x [] r, run1, run2) refl,
      run3,
      record { links = tt; apart = tt },
      λ p out.
          let other : (p == x.0) ≡ false = ground (arith, out) in
          write-other h2 x.0 p none other
          ∙ (write-other h1 x.0 p _ other ∙ write-other h x.0 p _ other),
    )
unqueue h x (y ∷ xs) r =
    let (g1, g2, g3, run1, run2, run3, s) = unlink h x.0 x.1 y xs r in
    (
      g2,
      g3,
      rw (load-first h x (y ∷ xs) r, run1, run2) refl,
      run3,
      s,
      λ p out.
          let out' : has p (y ∷ xs) ≡ false = ground (arith, out) in
          free-Touches x.0 g2 g3 p (ground (arith, out)) run3
          ∙ (set_prev-Touches y.0 (last xs y.0) g1 g2 p (ground (arith, out)) run2
              ∙ set_next-Touches (last xs y.0) y.0 h g1 p (last-other p y xs out') run1),
    )
