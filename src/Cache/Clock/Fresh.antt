-- ===== src/Cache/Clock/Fresh.antt =====
-- On `remque_clock` and `rmelem_clock` (src/clock.c): they allocate nothing.
use fusionfs_cache.Cache.Clock.{Clock, clock, rem_Q, find_victim, remque_clock}
use fusionfs_cache.Cache.Heap.{
  Ptr, null, INode, Heap, write, Cmd, pure, crash, ◌>>=◌, load, set_next, set_prev, set_ref_bit,
  free,
}
use fusionfs_cache.Cache.Walk.{walk}
use fusionfs_cache.Prelude.{
  ℕ, zero, suc, ◌≡◌, refl, sym, ◌∙◌, Bool, true, false, ◌==◌, if◌then◌else◌, Option, none, some,
  arith, Bool-cases, Option-cases, ◌⊎◌, inl, inr, subst,
}

-- An address that was free stays so.
abbrev pub AllocatesNone : {A : Type 0} → Cmd A → Type 0
AllocatesNone {A} m =
    (h : Heap) (a : A) (g : Heap) → m h ≡ some (a, g) → (p : Ptr) → h p ≡ none → g p ≡ none

no_run : {A : Type 0} {r : A × Heap} → ◌≡◌ {A = Option (A × Heap)} none (some r) → ⊥
no_run e = cc

no_node : {n : INode} → ◌≡◌ {A = Option INode} none (some n) → ⊥
no_node e = cc

heap_of :
    {A : Type 0} {a b : A} {g h : Heap}
    → ◌≡◌ {A = Option (A × Heap)} (some (a, g)) (some (b, h))
    → g ≡ h
heap_of e = cc

module _ {A : Type 0} where
  pure_none : (a : A) → AllocatesNone (pure a)
  pure_none a h b g e p z = subst (λ k. k p ≡ none) (heap_of {a = a} {b = b} e) z

  crash_none : AllocatesNone (crash {A = A})
  crash_none h b g e p z = elim (no_run e) [ ]

  if_none :
      (b : Bool) (m n : Cmd A)
      → AllocatesNone m
      → AllocatesNone n
      → AllocatesNone (if b then m else n)
  if_none true m n x y = x
  if_none false m n x y = y

module _ {A B : Type 0} where
  bind_none :
      (m : Cmd A) (f : A → Cmd B)
      → AllocatesNone m
      → ((a : A) → AllocatesNone (f a))
      → AllocatesNone (m >>= f)
  bind_none m f x y h b g e p z = elim (Option-cases (m h)) [
    | inl r ↦ elim (no_run (rw r at e)) [ ]
    | inr ((a, k), r) ↦ y a k b g (rw r at e) p (x h a k r p z)
  ]

-- What `load` does.
abbrev Loads : Ptr → Heap → Type 0
Loads q h = (load q h ≡ none) ⊎ ((n : INode) × (load q h ≡ some (n, h)) × (h q ≡ some n))

load-Loads : (q : Ptr) (h : Heap) → Loads q h
unfolding load
load-Loads q h = elim (Bool-cases (q == null)) [
  | inl t ↦ inl (rw t refl)
  | inr f ↦ elim (Option-cases (h q)) [
    | inl r ↦ inl (rw (f, r) refl)
    | inr (n, r) ↦ inr (n, rw (f, r) refl, r)
  ]
]

load_none : (q : Ptr) → AllocatesNone (load q)
load_none q h n g e p z = elim (load-Loads q h) [
  | inl r ↦ elim (no_run (sym r ∙ e)) [ ]
  | inr (m, r, at) ↦ subst (λ k. k p ≡ none) (heap_of {a = m} {b = n} (sym r ∙ e)) z
]

-- A write at an address that is in use.
in_use :
    (h : Heap) (q p : Ptr) (n : INode) (v : Option INode)
    → h q ≡ some n
    → h p ≡ none
    → write h q v p ≡ none
unfolding write
in_use h q p n v at z = elim (Bool-cases (p == q)) [
  | inl t ↦
      let same : p ≡ q = ground (arith, t) in
      let used : h p ≡ some n = rw same at in elim (no_node (sym z ∙ used)) [ ]
  | inr f ↦ rw f z
]

abbrev put : Ptr → (INode → Option INode) → Cmd (Unit {0})
put q f = load q >>= λ n h. some (tt, write h q (f n))

put_none : (q : Ptr) (f : INode → Option INode) → AllocatesNone (put q f)
put_none q f h a g e p z = elim (load-Loads q h) [
  | inl r ↦ elim (no_run (rw r at e)) [ ]
  | inr (m, r, at) ↦
      let done : ◌≡◌ {A = Option (Unit {0} × Heap)} (some (tt, write h q (f m))) (some (a, g)) =
        rw r at e in
      subst (λ k. k p ≡ none) (heap_of {a = tt} {b = a} done) (in_use h q p m (f m) at z)
]

set_next_none : (q r : Ptr) → AllocatesNone (set_next q r)
unfolding set_next
set_next_none q r = put_none q (λ n. some (record n { next = r }))

set_prev_none : (q r : Ptr) → AllocatesNone (set_prev q r)
unfolding set_prev
set_prev_none q r = put_none q (λ n. some (record n { prev = r }))

set_ref_bit_none : (q : Ptr) (b : ℕ) → AllocatesNone (set_ref_bit q b)
unfolding set_ref_bit
set_ref_bit_none q b = put_none q (λ n. some (record n { file = record n.file { ref_bit = b } }))

free_none : (q : Ptr) → AllocatesNone (free q)
unfolding free
free_none q = put_none q (λ n. none)

rem_Q_none : (c : Clock) (q : Ptr) → AllocatesNone (rem_Q c q)
unfolding rem_Q
rem_Q_none c q = bind_none (load q) _ (load_none q) λ n.
    if_none (q == n.next) _ _
      (bind_none (free q) _ (free_none q) λ u. pure_none (clock null null null))
      (bind_none (set_next n.prev n.next) _ (set_next_none n.prev n.next) λ u.
        bind_none (set_prev n.next n.prev) _ (set_prev_none n.next n.prev)
          λ v. bind_none (free q) _ (free_none q) λ w. pure_none _)

walk_none : (k : ℕ) (q p : Ptr) → AllocatesNone (walk k q p)
unfolding walk
walk_none zero q p = crash_none
walk_none (suc k) q p =
    bind_none (load p) _ (load_none p)
      λ n. if_none (n.next == q) _ _ (pure_none tt) (walk_none k q n.next)

find_victim_none : (k : ℕ) (c : Clock) → AllocatesNone (find_victim k c)
unfolding find_victim
find_victim_none zero c = crash_none
find_victim_none (suc k) c = bind_none (load c.victim) _ (load_none c.victim) λ n.
    if_none (n.file.ref_bit == 0) _ _
      (bind_none (rem_Q c c.victim) _ (rem_Q_none c c.victim) λ d. pure_none (n.file.fname, d))
      (bind_none (set_ref_bit c.victim 0) _ (set_ref_bit_none c.victim 0)
        λ u. find_victim_none k (clock c.clock_head c.clock_tail n.next))

pub remque_clock-AllocatesNone : (k : ℕ) (c : Clock) → AllocatesNone (remque_clock k c)
unfolding remque_clock
remque_clock-AllocatesNone k c =
    let d = clock c.clock_head c.clock_tail (if c.victim == null then c.clock_head else c.victim) in
    bind_none (load d.victim) _ (load_none d.victim) λ n.
      if_none (d.victim == n.next) _ _
        (bind_none (rem_Q d d.victim) _ (rem_Q_none d d.victim) λ r. pure_none (n.file.fname, r))
        (bind_none (find_victim k d) _ (find_victim_none k d) λ r.
          bind_none (walk k r.1.clock_head r.1.clock_head) _
            (walk_none k r.1.clock_head r.1.clock_head) λ u. pure_none r)
