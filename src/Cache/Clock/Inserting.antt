-- ===== src/Cache/Clock/Inserting.antt =====
-- On `ins_Q` (src/clock.c).
use fusionfs_cache.Cache.Clock.{Clock, clock, ins_Q}
use fusionfs_cache.Cache.Clock.Invariant.{Ends, Turned, Queue}
use fusionfs_cache.Cache.Heap.{Ptr, null, File, Heap, inode}
use fusionfs_cache.Cache.Ring.{Cells, has, Ring, Ring-rotate, append_nil, last-append, has-append}
use fusionfs_cache.Cache.Ring.Steps.{link, link_back, load-first}
use fusionfs_cache.Prelude.{
  ◌≤◌, ◌≡◌, refl, sym, ap, ◌∙◌, true, false, some, [], ◌∷◌, ◌++◌, arith, ◌==◌, if◌then◌else◌, inl,
  inr, append_assoc, subst, length,
}

-- Insertion leaves a queue.
abbrev pub Inserted : Heap → Clock → Ptr → Cells → Type 0
Inserted h c e xs = (g : Heap) × (d : Clock) × (ins_Q c e h ≡ some (d, g)) × Queue g d xs

module _ (h : Heap) (c : Clock) (e : Ptr) (f : File) (ne : (e == null) ≡ false)
    (at : h e ≡ some (inode null null f)) where
  -- The run when the hand has been used, and when it has not.
  ins_Q-used :
      (y : Ptr × File) (ys : Cells) (r : Ring h (y ∷ ys)) (out : has e (y ∷ ys) ≡ false)
      → c.victim ≡ y.0
      → (g : Heap) × (ins_Q c e h
          ≡ some (clock (if y.0 == c.clock_head then e else c.clock_head) c.clock_tail c.victim, g))
        × Ring g ((y ∷ ys) ++ (e, f) ∷ [])
  unfolding ins_Q
  ins_Q-used y ys r out v =
      let (g1, g2, g3, g4, run1, run2, run3, run4, s) = link h y ys r e null null f ne out at in
      (g4, rw (v, r.links.0, load-first h y ys r, run1, run2, run3, run4) refl, s)

  ins_Q-unused :
      (y : Ptr × File) (ys : Cells) (r : Ring h (y ∷ ys)) (out : has e (y ∷ ys) ≡ false)
      → c.victim ≡ null
      → Ends c (y ∷ ys)
      → (g : Heap) × (ins_Q c e h ≡ some (clock c.clock_head e c.victim, g))
        × Ring g ((y ∷ ys) ++ (e, f) ∷ [])
  unfolding ins_Q
  ins_Q-unused y ys r out v ends =
      let (g1, g2, g3, g4, run1, tail, run2, run3, run4, s) =
        link_back h y ys r e null null f ne out at in
      (g4, rw (v, ends.0, ends.1, run1, tail.2, run2, run3, run4) refl, s)

  insert_used :
      (zs : Cells) (y : Ptr × File) (ys : Cells)
      → Turned h c zs (y ∷ ys)
      → c.victim ≡ y.0
      → has e (zs ++ y ∷ ys) ≡ false
      → Inserted h c e (((y ∷ ys) ++ zs) ++ (e, f) ∷ [])
  insert_used [] y ys t v out =
      let (g, run, r) = ins_Q-used y ys t.ring out v in
      let is_head : (y.0 == c.clock_head) ≡ true = rw (t.ends.0) (ground arith) in
      (
        g,
        _,
        rw is_head at run,
        record {
          behind = (e, f) ∷ [];
          ahead = y ∷ ys;
          order = ap (λ r. r ++ (e, f) ∷ []) (append_nil (y ∷ ys));
          turned = record {
            ring = Ring-rotate g (y ∷ ys) ((e, f) ∷ []) r;
            ends = (refl, t.ends.1);
            hand = inl v;
          };
        },
      )
  insert_used (z ∷ zs) y ys t v out =
      let r0 = Ring-rotate h (z ∷ zs) (y ∷ ys) t.ring in
      let out' : has e ((y ∷ ys) ++ z ∷ zs) ≡ false =
        ground (arith, out, has-append e zs (y ∷ ys), has-append e ys (z ∷ zs)) in
      let (g, run, r) = ins_Q-used y (ys ++ z ∷ zs) r0 out' v in
      let not_head : (y.0 == c.clock_head) ≡ false =
        rw t.ends.0 (ground (arith, r0.apart.0, has-append y.0 ys (z ∷ zs))) in
      let order = append_assoc (y ∷ ys) (z ∷ zs) ((e, f) ∷ []) in
      (
        g,
        _,
        rw not_head at run,
        record {
          behind = (z ∷ zs) ++ (e, f) ∷ [];
          ahead = y ∷ ys;
          order = order;
          turned = record {
            ring = Ring-rotate g (y ∷ ys) ((z ∷ zs) ++ (e, f) ∷ []) (rw order at r);
            ends = (
              t.ends.0,
              t.ends.1
                  ∙ (last-append zs (y ∷ ys) z.0
                      ∙ sym (last-append (zs ++ (e, f) ∷ []) (y ∷ ys) z.0)),
            );
            hand = inl v;
          };
        },
      )

  insert_unused :
      (y : Ptr × File) (ys : Cells)
      → Turned h c [] (y ∷ ys)
      → c.victim ≡ null
      → has e (y ∷ ys) ≡ false
      → Inserted h c e (((y ∷ ys) ++ []) ++ (e, f) ∷ [])
  insert_unused y ys t v out =
      let (g, run, r) = ins_Q-unused y ys t.ring out v t.ends in
      (
        g,
        _,
        run,
        record {
          behind = [];
          ahead = (y ∷ ys) ++ (e, f) ∷ [];
          order =
              append_assoc (y ∷ ys) [] ((e, f) ∷ []) ∙ sym (append_nil ((y ∷ ys) ++ (e, f) ∷ []));
          turned = record {
            ring = r;
            ends = (t.ends.0, sym (last-append ys ((e, f) ∷ []) y.0));
            hand = inr (v, refl);
          };
        },
      )

  -- Into a queue that is not empty.
  pub insert_cell :
      (zs ys : Cells)
      → Turned h c zs ys
      → 1 ≤ length (ys ++ zs)
      → has e (zs ++ ys) ≡ false
      → Inserted h c e ((ys ++ zs) ++ (e, f) ∷ [])
  insert_cell zs [] t more out = ground (arith, more, ap length t.hand.1)
  insert_cell zs (y ∷ ys) t more out = elim t.hand [
    | inl v ↦ insert_used zs y ys t v out
    | inr (v, none_behind) ↦
        subst (λ r. Inserted h c e (((y ∷ ys) ++ r) ++ (e, f) ∷ [])) (sym none_behind)
          (insert_unused y ys (subst (λ r. Turned h c r (y ∷ ys)) none_behind t) v
            (subst (λ r. has e (r ++ y ∷ ys) ≡ false) none_behind out))
  ]
