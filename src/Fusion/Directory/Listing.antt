-- ===== src/Fusion/Directory/Listing.antt =====
-- The text of a directory against the list of its names.
use fusionfs_cache.Fusion.Directory.{is_prefix, shift, strstr, search_text, cut, strtok_all}
use fusionfs_cache.Prelude.{
  ℕ, ◌≡◌, refl, sym, ap, ◌∙◌, Bool, true, false, ◌==◌, if◌then◌else◌, Option, none, some, Bytes,
  eqb, eqb→eq, List, [], ◌∷◌, ◌++◌, length, drop, arith, Bool-cases, inl, inr, append_assoc,
}

-- A name: not empty, and without a space.
abbrev pub no_space : Bytes → Bool
no_space [] = true
no_space (c ∷ n) = if c == 32 then false else no_space n

abbrev pub is_name : Bytes → Bool
is_name [] = false
is_name (c ∷ n) = no_space (c ∷ n)

abbrev pub AreNames : List Bytes → Type 0
AreNames [] = Unit
AreNames (n ∷ ns) = (is_name n ≡ true) × AreNames ns

-- The text of a directory: " a b c ".
abbrev pub listing : List Bytes → Bytes
listing [] = 32 ∷ []
listing (n ∷ ns) = 32 ∷ (n ++ listing ns)

-- The names without the first one that is `n`; `none` when it is not there.
abbrev pub cons? : Bytes → Option (List Bytes) → Option (List Bytes)
cons? m none = none
cons? m (some ms) = some (m ∷ ms)

abbrev pub without : Bytes → List Bytes → Option (List Bytes)
without n [] = none
without n (m ∷ ms) = if eqb m n then some ms else cons? m (without n ms)

abbrev pub map_listing : Option (List Bytes) → Option Bytes
map_listing none = none
map_listing (some ns) = some (listing ns)

is_name-no_space : (n : Bytes) → is_name n ≡ true → no_space n ≡ true
is_name-no_space [] v = cc
is_name-no_space (c ∷ n) v = v

pub listing-append :
    (ns : List Bytes) (n : Bytes) → listing (ns ++ n ∷ []) ≡ (listing ns ++ n) ++ 32 ∷ []
listing-append [] n = refl
listing-append (m ∷ ns) n =
    ap (λ r. 32 ∷ r)
      (ap (λ r. m ++ r) (listing-append ns n)
        ∙ (sym (append_assoc m (listing ns ++ n) (32 ∷ []))
            ∙ ap (λ r. r ++ 32 ∷ []) (sym (append_assoc m (listing ns) n))))

-- A name is compared as a whole, since a space follows both.
is_prefix-listing :
    (ns : List Bytes) (n m : Bytes)
    → no_space n ≡ true
    → no_space m ≡ true
    → is_prefix (n ++ 32 ∷ []) (m ++ listing ns) ≡ eqb m n
unfolding is_prefix eqb
is_prefix-listing [] [] [] u v = refl
is_prefix-listing (x ∷ ns) [] [] u v = refl
is_prefix-listing ns [] (c ∷ m) u v = ground (arith, v)
is_prefix-listing [] (c ∷ n) [] u v = ground (arith, u)
is_prefix-listing (x ∷ ns) (c ∷ n) [] u v = ground (arith, u)
is_prefix-listing ns (c ∷ n) (d ∷ m) u v = ground (arith, u, v, is_prefix-listing ns n m)

-- The search passes over a name that it does not match, since a match begins with a space.
shift_all : Bytes → Option (Bytes × Bytes) → Option (Bytes × Bytes)
shift_all [] r = r
shift_all (c ∷ m) r = shift c (shift_all m r)

strstr-word :
    (m s n : Bytes) → no_space m ≡ true → strstr (m ++ s) (32 ∷ n) ≡ shift_all m (strstr s (32 ∷ n))
unfolding strstr is_prefix shift_all
strstr-word [] s n u = refl
strstr-word (c ∷ m) s n u =
    let not_here : (32 == c) ≡ false = ground (arith, u) in
    rw (not_here, strstr-word m s n (ground (arith, u))) refl

shift_all-some :
    (m before from : Bytes) → shift_all m (some (before, from)) ≡ some (m ++ before, from)
unfolding shift_all
shift_all-some [] before from = refl
shift_all-some (c ∷ m) before from = rw (shift_all-some m before from) refl

shift_all-none : (m : Bytes) → shift_all m none ≡ none
unfolding shift_all
shift_all-none [] = refl
shift_all-none (c ∷ m) = rw (shift_all-none m) refl

-- The part of the text behind a match, in front of which a space was: it goes on with the next name.
abbrev pub tail : List Bytes → Bytes
tail [] = []
tail (n ∷ ns) = n ++ listing ns

pub listing-tail : (ns : List Bytes) → listing ns ≡ 32 ∷ tail ns
listing-tail [] = refl
listing-tail (n ∷ ns) = refl

drop_all : (n s : Bytes) → drop (length n) (n ++ s) ≡ s
drop_all [] s = refl
drop_all (c ∷ n) s = drop_all n s

strstr-space :
    (s n : Bytes)
    → strstr (32 ∷ s) (32 ∷ n)
      ≡ (if is_prefix n s then some ([], 32 ∷ s) else shift 32 (strstr s (32 ∷ n)))
unfolding strstr is_prefix
strstr-space s n = refl

-- An entry in front of a text.
abbrev entry : Bytes → Option Bytes → Option Bytes
entry m none = none
entry m (some s) = some (32 ∷ (m ++ s))

cut-entry :
    (search m : Bytes) (r : Option (Bytes × Bytes))
    → cut search (shift 32 (shift_all m r)) ≡ entry m (cut search r)
cut-entry search m none = rw (shift_all-none m) refl
cut-entry search m (some (before, from)) =
    rw (shift_all-some m before from) (ap (λ r. some (32 ∷ r)) (append_assoc m before _))

entry-listing :
    (m : Bytes) (r : Option (List Bytes)) → entry m (map_listing r) ≡ map_listing (cons? m r)
entry-listing m none = refl
entry-listing m (some ns) = refl

-- The match at the first entry.
cut-first :
    (n : Bytes) (ns : List Bytes)
    → 32 ∷ drop (length (search_text n)) (32 ∷ (n ++ listing ns)) ≡ listing ns
cut-first n ns =
    let behind : n ++ listing ns ≡ (n ++ 32 ∷ []) ++ tail ns =
      ap (λ r. n ++ r) (listing-tail ns) ∙ sym (append_assoc n (32 ∷ []) (tail ns)) in
    ap (λ r. 32 ∷ drop (length (n ++ 32 ∷ [])) r) behind
    ∙ (ap (λ r. 32 ∷ r) (drop_all (n ++ 32 ∷ []) (tail ns)) ∙ sym (listing-tail ns))

-- What is cut out of the text is the first entry of the name.
pub cut-listing :
    (n : Bytes) (ns : List Bytes)
    → is_name n ≡ true
    → AreNames ns
    → cut (search_text n) (strstr (listing ns) (search_text n)) ≡ map_listing (without n ns)
unfolding strstr is_prefix
cut-listing [] [] v vs = cc
cut-listing (c ∷ n) [] v vs = refl
cut-listing n (m ∷ ns) v (u, us) =
    let matches = is_prefix-listing ns n m (is_name-no_space n v) (is_name-no_space m u) in
    let step = strstr-space (m ++ listing ns) (n ++ 32 ∷ []) in
    elim (Bool-cases (eqb m n)) [
      | inl t ↦
          let same = eqb→eq m n t in
          let here : strstr (listing (m ∷ ns)) (search_text n) ≡ some ([], 32 ∷ (m ++ listing ns)) =
            step ∙ rw (matches, t) refl in
          let left : some (listing ns) ≡ map_listing (without n (m ∷ ns)) = rw t refl in
          ap (cut (search_text n)) here
          ∙ (ap some (
                ap (λ r. 32 ∷ drop (length (search_text n)) (32 ∷ (r ++ listing ns))) same
                ∙ cut-first n ns)
              ∙ left)
      | inr f ↦
          let on : strstr (listing (m ∷ ns)) (search_text n)
              ≡ shift 32 (shift_all m (strstr (listing ns) (search_text n))) =
            step
            ∙ (rw (matches, f)
                (ap (shift 32)
                  (strstr-word m (listing ns) (n ++ 32 ∷ []) (is_name-no_space m u)))) in
          ap (cut (search_text n)) on
          ∙ (cut-entry (search_text n) m (strstr (listing ns) (search_text n))
              ∙ (ap (entry m) (cut-listing n ns v us)
                  ∙ (entry-listing m (without n ns) ∙ rw f refl)))
    ]

append_empty : (w : Bytes) → w ++ [] ≡ w
append_empty [] = refl
append_empty (c ∷ w) = ap (λ r. c ∷ r) (append_empty w)

-- The words that strtok gives are the names.
strtok_all-word :
    (w n s : Bytes) (c : ℕ)
    → no_space n ≡ true
    → strtok_all (c ∷ w) (n ++ 32 ∷ s) ≡ (c ∷ (w ++ n)) ∷ strtok_all [] s
unfolding strtok_all
strtok_all-word w [] s c u = ap (λ r. (c ∷ r) ∷ strtok_all [] s) (sym (append_empty w))
strtok_all-word w (d ∷ n) s c u =
    let word : (d == 32) ≡ false = ground (arith, u) in
    rw word (
      strtok_all-word (w ++ d ∷ []) n s c (ground (arith, u))
      ∙ ap (λ r. (c ∷ r) ∷ strtok_all [] s) (append_assoc w (d ∷ []) n))

strtok_all-tail : (ns : List Bytes) → AreNames ns → strtok_all [] (tail ns) ≡ ns
unfolding strtok_all
strtok_all-tail [] v = refl
strtok_all-tail ([] ∷ ns) (u, v) = cc
strtok_all-tail ((c ∷ n) ∷ ns) (u, v) =
    let word : (c == 32) ≡ false = ground (arith, u) in
    rw (word, listing-tail ns)
      (strtok_all-word [] n (tail ns) c (ground (arith, u))
        ∙ ap (λ r. (c ∷ n) ∷ r) (strtok_all-tail ns v))

pub strtok_all-listing : (ns : List Bytes) → AreNames ns → strtok_all [] (listing ns) ≡ ns
unfolding strtok_all
strtok_all-listing ns v = ap (strtok_all []) (listing-tail ns) ∙ strtok_all-tail ns v
