-- ===== src/Cache/Clock/Turning.antt =====
-- On the loop of `remque_clock` (src/clock.c), against the second-chance rule.
use fusionfs_cache.Cache.Chance.{turn}
use fusionfs_cache.Cache.Clock.{Clock, clock, rem_Q, find_victim}
use fusionfs_cache.Cache.Clock.Invariant.{Hand, Turned, Queue}
use fusionfs_cache.Cache.Clock.Places.{rem_Q-here}
use fusionfs_cache.Cache.Clock.Removing.{node_is_some}
use fusionfs_cache.Cache.Heap.{Ptr, null, File, Heap, inode, INode, load, set_ref_bit}
use fusionfs_cache.Cache.Marks.{set_bit, set_ref_bit-node}
use fusionfs_cache.Cache.Ring.{
  Cells, first, last, Linked, Ring, Ring-rotate, append_nil, first-append, last-append,
}
use fusionfs_cache.Cache.Ring.Steps.{load-first}
use fusionfs_cache.Prelude.{
  ℕ, zero, suc, ◌≡◌, refl, sym, ap, ◌∙◌, true, false, Option, some, Bytes, [], ◌∷◌, ◌++◌, arith,
  ◌==◌, Bool-cases, inl, inr, append_assoc, subst,
}

-- The ends of a list do not hang on a file.
first-mid :
    (xs : Cells) (x y : Ptr × File) (ys : Cells)
    → x.0 ≡ y.0
    → first (xs ++ x ∷ ys) null ≡ first (xs ++ y ∷ ys) null
first-mid xs x y ys e =
    rw (first-append xs (x ∷ ys) null, first-append xs (y ∷ ys) null) (ap (first xs) e)

last-mid :
    (xs : Cells) (x y : Ptr × File) (ys : Cells)
    → x.0 ≡ y.0
    → last (xs ++ x ∷ ys) null ≡ last (xs ++ y ∷ ys) null
last-mid xs x y ys e =
    rw (last-append xs (x ∷ ys) null, last-append xs (y ∷ ys) null) (ap (last ys) e)

Hand-turned : (zs : Cells) (x : Ptr × File) → Hand (first zs x.0) [] (zs ++ x ∷ [])
Hand-turned [] x = inl refl
Hand-turned (z ∷ zs) x = inl refl

first_is_some :
    (h : Heap) (xs : Cells) {x : Ptr × File} (b : Ptr)
    → Linked h b (x ∷ xs) x.0
    → (first xs x.0 == null) ≡ false
first_is_some h [] b l = l.0
first_is_some h (y ∷ xs) b l = l.2.0

module _ (h : Heap) (c : Clock) (zs : Cells) (x : Ptr × File) where
  next_is_some : (ys : Cells) → Ring h (zs ++ x ∷ ys) → (first (ys ++ zs) x.0 == null) ≡ false
  next_is_some ys r = first_is_some h (ys ++ zs) _ (Ring-rotate h zs (x ∷ ys) r).links

  pub load_hand :
      (ys : Cells)
      → Ring h (zs ++ x ∷ ys)
      → load x.0 h ≡ some (inode (first (ys ++ zs) x.0) (last (ys ++ zs) x.0) x.1, h)
  load_hand ys r = load-first h x (ys ++ zs) (Ring-rotate h zs (x ∷ ys) r)

  -- The hand clears the bit of its file and goes on to the next.
  spare :
      (ys : Cells)
      → Turned h c zs (x ∷ ys)
      → (g : Heap) × (set_ref_bit x.0 0 h ≡ some (tt, g))
        × Queue g
            (clock c.clock_head c.clock_tail (first (ys ++ zs) x.0))
            ((ys ++ zs) ++ set_bit 0 x ∷ [])
  spare [] t =
      let (g, run, r) = set_ref_bit-node h x 0 zs [] t.ring in
      (
        g,
        run,
        record {
          behind = [];
          ahead = zs ++ set_bit 0 x ∷ [];
          order = sym (append_nil (zs ++ set_bit 0 x ∷ []));
          turned = record {
            ring = r;
            ends = (
              t.ends.0 ∙ first-mid zs x (set_bit 0 x) [] refl,
              t.ends.1 ∙ last-mid zs x (set_bit 0 x) [] refl,
            );
            hand = Hand-turned zs (set_bit 0 x);
          };
        },
      )
  spare (y ∷ ys) t =
      let (g, run, r) = set_ref_bit-node h x 0 zs (y ∷ ys) t.ring in
      (
        g,
        run,
        record {
          behind = zs ++ set_bit 0 x ∷ [];
          ahead = y ∷ ys;
          order = append_assoc (y ∷ ys) zs (set_bit 0 x ∷ []);
          turned = record {
            ring = rw (append_assoc zs (set_bit 0 x ∷ []) (y ∷ ys)) r;
            ends = rw (append_assoc zs (set_bit 0 x ∷ []) (y ∷ ys)) (
              t.ends.0 ∙ first-mid zs x (set_bit 0 x) (y ∷ ys) refl,
              t.ends.1 ∙ last-mid zs x (set_bit 0 x) (y ∷ ys) refl,
            );
            hand = inl refl;
          };
        },
      )

-- One step of the loop.
module _ (h : Heap) (c : Clock) (k : ℕ) {v : INode} (loads : load c.victim h ≡ some (v, h)) where
  find_victim-clear :
      (g : Heap) (d : Clock)
      → (v.file.ref_bit == 0) ≡ true
      → rem_Q c c.victim h ≡ some (d, g)
      → find_victim (suc k) c h ≡ some ((v.file.fname, d), g)
  unfolding find_victim
  find_victim-clear g d z run = rw (loads, z, run) refl

  find_victim-set :
      (g : Heap)
      → (v.file.ref_bit == 0) ≡ false
      → set_ref_bit c.victim 0 h ≡ some (tt, g)
      → find_victim (suc k) c h ≡ find_victim k (clock c.clock_head c.clock_tail v.next) g
  unfolding find_victim
  find_victim-set g z run = rw (loads, z, run) refl

-- What the loop does, when the rule chooses a file.
abbrev pub Chooses : ℕ → Heap → Clock → Bytes → Cells → Type 0
Chooses k h c name rest =
    (g : Heap) × (d : Clock) × (find_victim k c h ≡ some ((name, d), g)) × Queue g d rest

pub find_victim-turn :
    (k : ℕ) (h : Heap) (c : Clock) (zs ys : Cells) (name : Bytes) (rest : Cells)
    → Turned h c zs ys
    → (c.victim == null) ≡ false
    → turn k (ys ++ zs) ≡ some (name, rest)
    → Chooses k h c name rest
unfolding find_victim
find_victim-turn zero h c zs [] name rest t ne e = cc
find_victim-turn zero h c zs (x ∷ ys) name rest t ne e = cc
find_victim-turn (suc k) h c zs [] name rest t ne e = ground (arith, t.hand.0, ne)
find_victim-turn (suc k) h c zs (x ∷ ys) name rest t ne e =
    let at_hand : c.victim ≡ x.0 = elim t.hand [ inl v ↦ v | inr v ↦ ground (arith, v.0, ne) ] in
    let here : load c.victim h ≡ some (inode (first (ys ++ zs) x.0) (last (ys ++ zs) x.0) x.1, h) =
      rw at_hand (load_hand h c zs x ys t.ring) in
    elim (Bool-cases (x.1.ref_bit == 0)) [
      | inl z ↦
          let chosen : ◌≡◌ {A = Option (Bytes × Cells)} (some (x.1.fname, ys ++ zs))
              (some (name, rest)) =
            rw z at e in
          let (g, d, run, q) = rem_Q-here h c x zs ys (node_is_some h zs x ys t.ring) t in
          let same_name : x.1.fname ≡ name = cc in
          let same_rest : ys ++ zs ≡ rest = cc in
          let run' = subst (λ p. rem_Q c p h ≡ some (d, g)) (sym at_hand) run in
          (
            g,
            d,
            subst (λ n. find_victim (suc k) c h ≡ some ((n, d), g)) same_name
                (find_victim-clear h c k here g d z run'),
            subst (λ r. Queue g d r) same_rest q,
          )
      | inr z ↦
          let (g, run, q) = spare h c zs x ys t in
          let run' = subst (λ p. set_ref_bit p 0 h ≡ some (tt, g)) (sym at_hand) run in
          let (g', d, run2, left) =
            find_victim-turn k g _ q.behind q.ahead name rest q.turned
              (next_is_some h c zs x ys t.ring) (rw q.order at (rw z at e)) in
          (g', d, find_victim-set h c k here g z run' ∙ run2, left)
    ]
