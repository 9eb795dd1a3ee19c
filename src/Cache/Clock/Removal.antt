-- ===== src/Cache/Clock/Removal.antt =====
-- On `rem_Q` (src/clock.c): the pointers around the node that it takes out.
use fusionfs_cache.Cache.Clock.{Clock, clock, rem_Q}
use fusionfs_cache.Cache.Clock.Invariant.{Ends}
use fusionfs_cache.Cache.Heap.{Ptr, null, File, Heap, write}
use fusionfs_cache.Cache.Ring.{
  Cells, first, last, Ring, append_nil, last-append, has-append, Ring-rotate, free-write,
}
use fusionfs_cache.Cache.Ring.Steps.{unlink, load-first, last-other}
use fusionfs_cache.Prelude.{
  ◌≡◌, refl, sym, ◌∙◌, true, false, none, some, [], ◌∷◌, ◌++◌, arith, ◌==◌, if◌then◌else◌, ◌⊎◌, inl,
  inr,
}

pub rem_Q-alone :
    (h : Heap) (c : Clock) (x : Ptr × File)
    → Ring h (x ∷ [])
    → rem_Q c x.0 h ≡ some (clock null null null, write h x.0 none)
unfolding rem_Q
rem_Q-alone h c x r =
    let same : (x.0 == x.0) ≡ true = ground arith in
    rw (load-first h x [] r, same, free-write h x.0 r.links.0 r.links.1) refl

rem_Q-first :
    (h : Heap) (c : Clock) (x y : Ptr × File) (xs : Cells)
    → Ring h (x ∷ y ∷ xs)
    → (g : Heap) × (rem_Q c x.0 h
        ≡ some (
          clock
              (if x.0 == c.clock_head then y.0 else c.clock_head)
              (if x.0 == c.clock_head
                then c.clock_tail
                else if x.0 == c.clock_tail
                then last xs y.0
                else c.clock_tail)
              (if c.victim == x.0 then y.0 else c.victim),
          g,
        ))
      × Ring g (y ∷ xs)
unfolding rem_Q
rem_Q-first h c x y xs r =
    let (g1, g2, g3, run1, run2, run3, s) = unlink h x.0 x.1 y xs r in
    let other : (x.0 == y.0) ≡ false = ground (arith, r.apart.0) in
    (g3, rw (load-first h x (y ∷ xs) r, other, run1, run2, run3) refl, s)

-- The nodes around one node of a ring, from the next one on.
abbrev pub around : Cells → Cells → Cells
around cs bs = bs ++ cs

-- Removal of a node that is not alone.
module _ (h : Heap) (c : Clock) (x : Ptr × File) where
  abbrev pub Removed : Cells → Cells → Type 0
  Removed cs bs =
      (g : Heap) × (d : Clock) × (rem_Q c x.0 h ≡ some (d, g))
      × Ring g (cs ++ bs)
      × Ends d (cs ++ bs)
      × (d.victim ≡ (if c.victim == x.0 then first (around cs bs) null else c.victim))

  rem_Q-front :
      (b : Ptr × File) (bs : Cells)
      → Ring h (x ∷ b ∷ bs)
      → Ends c (x ∷ b ∷ bs)
      → Removed [] (b ∷ bs)
  rem_Q-front b bs r (at_head, at_tail) =
      let (g, run, s) = rem_Q-first h c x b bs r in
      let is_head : (x.0 == c.clock_head) ≡ true = ground (arith, at_head) in
      (g, _, rw is_head at run, s, (refl, at_tail), refl)

  rem_Q-back :
      (a : Ptr × File) (cs : Cells)
      → Ring h ((a ∷ cs) ++ x ∷ [])
      → Ends c ((a ∷ cs) ++ x ∷ [])
      → Removed (a ∷ cs) []
  rem_Q-back a cs r (at_head, at_tail) =
      let s = Ring-rotate h (a ∷ cs) (x ∷ []) r in
      let (g, run, t) = rem_Q-first h c x a cs s in
      let not_head : (x.0 == c.clock_head) ≡ false = rw at_head (ground (arith, s.apart.0)) in
      let is_tail : (x.0 == c.clock_tail) ≡ true =
        rw (at_tail, last-append cs (x ∷ []) a.0) (ground arith) in
      (
        g,
        _,
        rw (not_head, is_tail) at run,
        rw (append_nil cs) t,
        rw (append_nil cs) (at_head, refl),
        refl,
      )

  rem_Q-middle :
      (a : Ptr × File) (cs : Cells) (b : Ptr × File) (bs : Cells)
      → Ring h ((a ∷ cs) ++ x ∷ b ∷ bs)
      → Ends c ((a ∷ cs) ++ x ∷ b ∷ bs)
      → Removed (a ∷ cs) (b ∷ bs)
  rem_Q-middle a cs b bs r (at_head, at_tail) =
      let s = Ring-rotate h (a ∷ cs) (x ∷ b ∷ bs) r in
      let (g, run, t) = rem_Q-first h c x b (bs ++ a ∷ cs) s in
      let parts = has-append x.0 bs (a ∷ cs) in
      let not_head : (x.0 == c.clock_head) ≡ false =
        rw at_head (ground (arith, s.apart.0, parts)) in
      let not_tail : (x.0 == c.clock_tail) ≡ false =
        rw (at_tail, last-append cs (x ∷ b ∷ bs) a.0)
          (last-other x.0 b bs (ground (arith, s.apart.0, parts))) in
      (
        g,
        _,
        rw (not_head, not_tail) at run,
        Ring-rotate g (b ∷ bs) (a ∷ cs) t,
        (at_head, at_tail ∙ (last-append cs (x ∷ b ∷ bs) a.0 ∙ sym (last-append cs (b ∷ bs) a.0))),
        refl,
      )

  pub rem_Q-many :
      (cs bs : Cells)
      → Ring h (cs ++ x ∷ bs)
      → Ends c (cs ++ x ∷ bs)
      → ((cs ≡ []) × (bs ≡ [])) ⊎ Removed cs bs
  rem_Q-many [] [] r e = inl (refl, refl)
  rem_Q-many [] (b ∷ bs) r e = inr (rem_Q-front b bs r e)
  rem_Q-many (a ∷ cs) [] r e = inr (rem_Q-back a cs r e)
  rem_Q-many (a ∷ cs) (b ∷ bs) r e = inr (rem_Q-middle a cs b bs r e)
