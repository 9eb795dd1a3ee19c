-- ===== src/Fusion/Paths/Disks.antt =====
-- On `get_hdd_path` and `get_ssd_path` (src/util.c).
use fusionfs_cache.Fusion.Directory.{is_prefix, shift, strstr}
use fusionfs_cache.Fusion.Paths.{default_ssd, default_hdd, get_hdd_path, get_ssd_path}
use fusionfs_cache.Prelude.{
  ℕ, ◌≡◌, refl, sym, ap, ◌∙◌, true, false, Option, none, some, Bytes, [], ◌∷◌, ◌++◌, append_assoc,
  subst, arith, length, drop, Bool-cases, Option-cases, inl, inr,
}

-- "/hdd" has one slash, its first byte: where the two texts differ, no occurrence of it starts earlier.
no_match : {r : Bytes × Bytes} → ◌≡◌ {A = Option (Bytes × Bytes)} (some r) none → ⊥
no_match e = cc

hdd-before :
    (c : ℕ) (before rest : Bytes)
    → is_prefix default_hdd ((c ∷ before) ++ default_hdd ++ rest) ≡ true
    → is_prefix default_hdd ((c ∷ before) ++ default_ssd ++ rest) ≡ true
unfolding is_prefix
hdd-before c [] rest p = ground (arith, p)
hdd-before c (d ∷ []) rest p = ground (arith, p)
hdd-before c (d ∷ e ∷ []) rest p = ground (arith, p)
hdd-before c (d ∷ e ∷ f ∷ before) rest p = ground (arith, p)

shift-none : (c : ℕ) (r : Option (Bytes × Bytes)) → shift c r ≡ none → r ≡ none
shift-none c none e = refl
shift-none c (some (b, f)) e = cc

strstr-none :
    (n : Bytes) (c : ℕ) (s : Bytes)
    → strstr (c ∷ s) n ≡ none
    → (is_prefix n (c ∷ s) ≡ false) × (strstr s n ≡ none)
unfolding strstr
strstr-none n c s e = elim (Bool-cases (is_prefix n (c ∷ s))) [
  | inl t ↦ elim (no_match (rw t at e)) [ ]
  | inr f ↦ (f, shift-none c (strstr s n) (rw f at e))
]

-- The first "/hdd" of a text that had none before "/ssd" was replaced.
strstr-replaced :
    (before rest : Bytes)
    → strstr ((before ++ default_ssd) ++ rest) default_hdd ≡ none
    → strstr ((before ++ default_hdd) ++ rest) default_hdd ≡ some (before, default_hdd ++ rest)
unfolding strstr is_prefix
strstr-replaced [] rest e = refl
strstr-replaced (c ∷ before) rest e =
    let (here, later) = strstr-none default_hdd c ((before ++ default_ssd) ++ rest) e in
    let not_here : is_prefix default_hdd (c ∷ ((before ++ default_hdd) ++ rest)) ≡ false =
      elim (Bool-cases (is_prefix default_hdd (c ∷ ((before ++ default_hdd) ++ rest)))) [
        | inl t ↦ ground (arith, hdd-before c before rest t, here)
        | inr f ↦ f
      ] in
    rw (not_here, strstr-replaced before rest later) refl

-- Where a match was found.
record Found (n s before from : Bytes) : Type 0 where
  whole : s ≡ before ++ from
  match : is_prefix n from ≡ true

at_here :
    (n s before from : Bytes)
    → is_prefix n s ≡ true
    → ◌≡◌ {A = Option (Bytes × Bytes)} (some ([], s)) (some (before, from))
    → Found n s before from
at_here n s before from t e =
    let nil : [] ≡ before = cc in
    let all : s ≡ from = cc in
    record { whole = rw (← nil) all; match = subst (λ r. is_prefix n r ≡ true) all t }

strstr-Found : (n s before from : Bytes) → strstr s n ≡ some (before, from) → Found n s before from
unfolding strstr
strstr-Found n [] before from e = elim (Bool-cases (is_prefix n [])) [
  | inl t ↦ at_here n [] before from t (rw t at e)
  | inr f ↦ elim (no_match (sym (rw f at e))) [ ]
]
strstr-Found n (c ∷ s) before from e = elim (Bool-cases (is_prefix n (c ∷ s))) [
  | inl t ↦ at_here n (c ∷ s) before from t (rw t at e)
  | inr f ↦ elim (Option-cases (strstr s n)) [
    | inl z ↦ elim (no_match (sym (rw (f, z) at e))) [ ]
    | inr ((b, r), z) ↦
        let later = strstr-Found n s b r z in
        let both : ◌≡◌ {A = Option (Bytes × Bytes)} (some (c ∷ b, r)) (some (before, from)) =
          rw (f, z) at e in
        let front : c ∷ b ≡ before = cc in
        let all : r ≡ from = cc in
        record {
          whole = rw (← front, ← all) (ap (λ t. c ∷ t) later.whole);
          match = subst (λ t. is_prefix n t ≡ true) all later.match;
        }
  ]
]

no_text : {s : Bytes} → ◌≡◌ {A = Option Bytes} none (some s) → ⊥
no_text e = cc

same_text : {s t : Bytes} → ◌≡◌ {A = Option Bytes} (some s) (some t) → s ≡ t
same_text e = cc

-- What follows a match of a prefix.
match-drop : (n s : Bytes) → is_prefix n s ≡ true → s ≡ n ++ drop (length n) s
unfolding is_prefix
match-drop [] s t = refl
match-drop (c ∷ n) [] t = cc
match-drop (c ∷ n) (d ∷ s) t = ground (arith, match-drop n s)

-- For a path without "/hdd", the SSD counterpart of its HDD counterpart is the path.
pub get_ssd_path-get_hdd_path :
    (p q : Bytes) → strstr p default_hdd ≡ none → get_hdd_path p ≡ some q → get_ssd_path q ≡ some p
unfolding get_hdd_path get_ssd_path
get_ssd_path-get_hdd_path p q clean e = elim (Option-cases (strstr p default_ssd)) [
  | inl z ↦ elim (no_text (rw z at e)) [ ]
  | inr ((b, r), z) ↦
      let f = strstr-Found default_ssd p b r z in
      let tail : r ≡ default_ssd ++ drop 4 r = match-drop default_ssd r f.match in
      let path : p ≡ (b ++ default_ssd) ++ drop 4 r =
        f.whole ∙ (ap (λ t. b ++ t) tail ∙ sym (append_assoc b default_ssd (drop 4 r))) in
      let new : (b ++ default_hdd) ++ drop 4 r ≡ q = same_text (rw z at e) in
      let free : strstr ((b ++ default_ssd) ++ drop 4 r) default_hdd ≡ none = rw path at clean in
      rw (← new, path, strstr-replaced b (drop 4 r) free) refl
]
