-- ===== src/Io/Runs.antt =====
-- A claim about every run of a program that ends without a fault, by the program's structure.
use fusionfs_cache.Io.{Io, Call, Reply, done, fault, call, ◌>>=◌, run, result, trace}
use fusionfs_cache.Prelude.{
  ℕ, suc, ◌≡◌, Bool, true, false, if◌then◌else◌, subst, some, List, [], ◌∷◌, ◌++◌, arith,
}

-- Whatever the replies, a run that ends with `a` after the calls `t` satisfies `P t a`.
abbrev pub Every : {A : Type 0} → (List Call → A → Type 0) → Io A → Type 0
Every P (done a) = P [] a
Every P fault = Unit
Every P (call c k) = (r : Reply) → Every (λ t a. P (c ∷ t) a) (k r)

pub Every-weaken :
    {A : Type 0} (P Q : List Call → A → Type 0) (m : Io A)
    → ((t : List Call) (a : A) → P t a → Q t a)
    → Every P m
    → Every Q m
Every-weaken P Q (done a) h e = h [] a e
Every-weaken P Q fault h e = tt
Every-weaken P Q (call c k) h e =
    λ r. Every-weaken (λ t a. P (c ∷ t) a) (λ t a. Q (c ∷ t) a) (k r) (λ t a. h (c ∷ t) a) (e r)

pub Every-if :
    {A : Type 0} (P : List Call → A → Type 0) (b : Bool) (m n : Io A)
    → Every P m
    → Every P n
    → Every P (if b then m else n)
Every-if P true m n x y = x
Every-if P false m n x y = y

pub Every-bind :
    {A B : Type 0} (P : List Call → B → Type 0) (m : Io A) (f : A → Io B)
    → Every (λ t a. Every (λ t' b. P (t ++ t') b) (f a)) m
    → Every P (m >>= f)
Every-bind P (done a) f e = e
Every-bind P fault f e = tt
Every-bind P (call c k) f e = λ r. Every-bind (λ t b. P (c ∷ t) b) (k r) f (e r)

-- The claim at one run.
Every-at :
    {A : Type 0} (P : List Call → A → Type 0) (m : Io A)
    → Every P m
    → (o : ℕ → Reply) (i : ℕ) (a : A) → (run o i m).0 ≡ some a
    → P (run o i m).1 a
Every-at P (done b) e o i a h = subst (P []) (ground arith) e
Every-at P fault e o i a h = cc
Every-at P (call c k) e o i a h = Every-at (λ t b. P (c ∷ t) b) (k (o i)) (e (o i)) o (suc i) a h

pub Every-run :
    {A : Type 0} (P : List Call → A → Type 0) (m : Io A) (o : ℕ → Reply) (a : A)
    → Every P m
    → result o m ≡ some a
    → P (trace o m) a
Every-run P m o a e h = Every-at P m e o 0 a h

-- A result that is passed on through a function.
pub result-map :
    {A B : Type 0} (f : A → B) (m : Io A) (o : ℕ → Reply) (i : ℕ) (a : A)
    → (run o i m).0 ≡ some a
    → (run o i (m >>= λ x. done (f x))).0 ≡ some (f a)
result-map f (done b) o i a h = cc
result-map f fault o i a h = cc
result-map f (call c k) o i a h = result-map f (k (o i)) o (suc i) a h
