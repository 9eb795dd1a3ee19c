-- ===== src/Cache/Clock/Places.antt =====
-- On `rem_Q` (src/clock.c) in the queue: for a node behind the hand, at it, and further on.
use fusionfs_cache.Cache.Clock.{Clock, clock, rem_Q}
use fusionfs_cache.Cache.Clock.Invariant.{Ends, Turned, Queue}
use fusionfs_cache.Cache.Clock.Removal.{rem_Q-many, rem_Q-alone}
use fusionfs_cache.Cache.Heap.{Ptr, null, File, Heap, write}
use fusionfs_cache.Cache.Ring.{Cells, Ring, append_nil, has-append, Distinct-split}
use fusionfs_cache.Prelude.{
  ◌≡◌, refl, sym, ◌∙◌, true, false, none, some, [], ◌∷◌, ◌++◌, arith, ◌==◌, append_assoc, inl, inr,
}

not_nil : (cs : Cells) (x : Ptr × File) (bs : Cells) → cs ++ x ∷ bs ≡ [] → ⊥
not_nil [] x bs e = cc
not_nil (c ∷ cs) x bs e = cc

-- Removal leaves a queue.
abbrev pub Leaves : Heap → Clock → Ptr → Cells → Type 0
Leaves h c p xs = (g : Heap) × (d : Clock) × (rem_Q c p h ≡ some (d, g)) × Queue g d xs

module _ (h : Heap) (c : Clock) (x : Ptr × File) where
  pub rem_Q-behind :
      (cs bs ys : Cells) → Turned h c (cs ++ x ∷ bs) ys → Leaves h c x.0 (ys ++ (cs ++ bs))
  rem_Q-behind cs bs [] t = elim (not_nil cs x bs t.hand.1) [ ]
  rem_Q-behind cs bs (y ∷ ys) t = elim t.hand [
    | inr e ↦ elim (not_nil cs x bs e.1) [ ]
    | inl v ↦
        let ring : Ring h (cs ++ x ∷ (bs ++ y ∷ ys)) =
          rw (append_assoc cs (x ∷ bs) (y ∷ ys)) at t.ring in
        let ends : Ends c (cs ++ x ∷ (bs ++ y ∷ ys)) =
          rw (append_assoc cs (x ∷ bs) (y ∷ ys)) at t.ends in
        elim (rem_Q-many h c x cs (bs ++ y ∷ ys) ring ends) [
          | inl e ↦ elim (not_nil bs y ys e.1) [ ]
          | inr (g, d, run, s, e, hand) ↦
              let (front, back, apart) = Distinct-split cs (x ∷ (bs ++ y ∷ ys)) ring.apart in
              let elsewhere : (c.victim == x.0) ≡ false =
                rw v (ground (arith, back.0, has-append x.0 bs (y ∷ ys))) in
              (
                g,
                d,
                run,
                record {
                  behind = cs ++ bs;
                  ahead = y ∷ ys;
                  order = refl;
                  turned = record {
                    ring = rw (append_assoc cs bs (y ∷ ys)) s;
                    ends = rw (append_assoc cs bs (y ∷ ys)) e;
                    hand = inl ((rw elsewhere at hand) ∙ v);
                  };
                },
              )
        ]
  ]

  -- From the hand on, and not at the hand.
  pub rem_Q-later :
      (zs : Cells) (y : Ptr × File) (cs bs : Cells)
      → (x.0 == null) ≡ false
      → Turned h c zs (y ∷ cs ++ x ∷ bs)
      → Leaves h c x.0 (y ∷ (cs ++ bs) ++ zs)
  rem_Q-later zs y cs bs ne t =
      let ring : Ring h ((zs ++ y ∷ cs) ++ x ∷ bs) =
        rw (append_assoc zs (y ∷ cs) (x ∷ bs)) t.ring in
      let ends : Ends c ((zs ++ y ∷ cs) ++ x ∷ bs) =
        rw (append_assoc zs (y ∷ cs) (x ∷ bs)) t.ends in
      elim (rem_Q-many h c x (zs ++ y ∷ cs) bs ring ends) [
        | inl e ↦ elim (not_nil zs y cs e.0) [ ]
        | inr (g, d, run, s, e, hand) ↦
            let (front, back, apart) = Distinct-split (zs ++ y ∷ cs) (x ∷ bs) ring.apart in
            let other = apart y.0 (rw (has-append y.0 zs (y ∷ cs)) (ground arith)) in
            let elsewhere : (c.victim == x.0) ≡ false = elim t.hand [
              | inl v ↦ rw v (ground (arith, other))
              | inr v ↦ rw v.0 (ground (arith, ne))
            ] in
            (
              g,
              d,
              run,
              record {
                behind = zs;
                ahead = y ∷ (cs ++ bs);
                order = refl;
                turned = record {
                  ring = rw (append_assoc zs (y ∷ cs) bs) at s;
                  ends = rw (append_assoc zs (y ∷ cs) bs) at e;
                  hand = elim t.hand [
                    | inl v ↦ inl ((rw elsewhere at hand) ∙ v)
                    | inr v ↦ inr ((rw elsewhere at hand) ∙ v.0, v.1)
                  ];
                };
              },
            )
      ]

  -- At the hand.
  pub rem_Q-here :
      (zs bs : Cells) → (x.0 == null) ≡ false → Turned h c zs (x ∷ bs) → Leaves h c x.0 (bs ++ zs)
  rem_Q-here [] [] ne t = (
    write h x.0 none,
    clock null null null,
    rem_Q-alone h c x t.ring,
    record {
      behind = [];
      ahead = [];
      order = refl;
      turned = record {
        ring = record { links = tt; apart = tt };
        ends = (refl, refl);
        hand = (refl, refl);
      };
    },
  )
  rem_Q-here (z ∷ zs) [] ne t = elim t.hand [
    | inr v ↦ elim (not_nil [] z zs v.1) [ ]
    | inl v ↦ elim (rem_Q-many h c x (z ∷ zs) [] t.ring t.ends) [
      | inl e ↦ elim (not_nil [] z zs e.0) [ ]
      | inr (g, d, run, s, e, hand) ↦
          let at_hand : (c.victim == x.0) ≡ true = rw v (ground arith) in
          (
            g,
            d,
            run,
            record {
              behind = [];
              ahead = z ∷ zs;
              order = sym (append_nil (z ∷ zs));
              turned = record {
                ring = rw (append_nil (z ∷ zs)) at s;
                ends = rw (append_nil (z ∷ zs)) at e;
                hand = inl (rw at_hand at hand);
              };
            },
          )
    ]
  ]
  rem_Q-here zs (b ∷ bs) ne t = elim (rem_Q-many h c x zs (b ∷ bs) t.ring t.ends) [
    | inl e ↦ elim (not_nil [] b bs e.1) [ ]
    | inr (g, d, run, s, e, hand) ↦ (
      g,
      d,
      run,
      record {
        behind = zs;
        ahead = b ∷ bs;
        order = refl;
        turned = record {
          ring = s;
          ends = e;
          hand = elim t.hand [
            | inl v ↦
                let at_hand : (c.victim == x.0) ≡ true = rw v (ground arith) in
                inl (rw at_hand at hand)
            | inr v ↦
                let elsewhere : (c.victim == x.0) ≡ false = rw v.0 (ground (arith, ne)) in
                inr ((rw elsewhere at hand) ∙ v.0, v.1)
          ];
        };
      },
    )
  ]
