-- ===== src/Zht/Members/Cut.antt =====
-- On `getMembership` (src/zht/src/common/zht_util.cpp) at a file whose last line has no newline.
use fusionfs_cache.Io.{Reply, run, result}
use fusionfs_cache.Io.Runs.{result-map}
use fusionfs_cache.Prelude.{
  ℕ, zero, suc, ◌+◌, ◌≤◌, ◌≡◌, refl, ◌∙◌, Bool, true, false, some, List, [], ◌∷◌, ◌++◌, arith,
  Bytes, eqb, length, length-append, take, is_nat,
}
use fusionfs_cache.Zht.Members.{
  Stream, skip_spaces, span, is_empty, decimal, sentry, read_port, read_members, get_membership,
}
use fusionfs_cache.Zht.Members.Listed.{
  Line, all, is_digit, IsLine, AllLines, servers_of, server_of, good, skip_spaces-word,
  digits_not_space, no_sign, read_port-digits, run-read_entry,
}

-- The text of a file in which every line but the last ends in a newline.
abbrev pub file_cut : List Line → Line → Bytes
file_cut [] l = l.name ++ 32 ∷ l.digits
file_cut (k ∷ ks) l = k.name ++ 32 ∷ (k.digits ++ 10 ∷ file_cut ks l)

append_nil : (s : Bytes) → s ++ [] ≡ s
append_nil [] = refl
append_nil (c ∷ s) = rw (append_nil s) refl

span-whole : (test : ℕ → Bool) (w : Bytes) → all test w ≡ true → span test w ≡ (w, [])
unfolding span
span-whole test [] h = refl
span-whole test (c ∷ w) h =
    let first : test c ≡ true = ground (arith, h) in
    let others : all test w ≡ true = ground (arith, h) in rw (first, span-whole test w others) refl

-- The stream behind the last number.
abbrev ended : Stream
ended = record { rest = []; eof = true; fail = false }

read_port-end :
    (l : Line) (ok : IsLine l) (port : ℕ)
    → read_port port (good (32 ∷ l.digits)) ≡ some (decimal 0 l.digits, ended)
unfolding read_port sentry skip_spaces
read_port-end l ok port =
    let (minus, plus) = no_sign l.digits [] ok.number ok.shown in
    let skipped = skip_spaces-word l.digits [] (digits_not_space l.digits ok.number) ok.shown in
    let alone : skip_spaces l.digits ≡ l.digits = rw (append_nil l.digits) at skipped in
    let no_minus : eqb (take 1 l.digits) (b'-' ∷ []) ≡ false = rw (append_nil l.digits) at minus in
    let no_plus : eqb (take 1 l.digits) (b'+' ∷ []) ≡ false = rw (append_nil l.digits) at plus in
    rw
      (
        alone,
        ok.shown,
        span-whole is_digit l.digits ok.number,
        no_minus,
        no_plus,
        ok.shown,
        ok.small,
      )
      (unfold is_empty in refl)

length-file_cut : (ks : List Line) (l : Line) → length ks + 1 ≤ length (file_cut ks l)
length-file_cut [] l = omega (arith, length-append l.name (32 ∷ l.digits))
length-file_cut (k ∷ ks) l = omega (
  arith,
  length-append k.name (32 ∷ (k.digits ++ 10 ∷ file_cut ks l)),
  length-append k.digits (10 ∷ file_cut ks l),
  length-file_cut ks l,
)

module _ (o : ℕ → Reply) (known : (i : ℕ) → is_nat (o i).ret 0 ≡ false) (l : Line)
    (last : IsLine l) where
  read_members-file_cut :
      (ks : List Line) (ok : AllLines ks) (fuel i : ℕ) (host : Bytes) (port : ℕ)
      → length ks + 2 ≤ fuel
      → (run o i (read_members fuel host port (good (10 ∷ file_cut ks l)))).0
        ≡ some (server_of host port ∷ servers_of ks)
  unfolding read_members
  read_members-file_cut ks ok zero i host port enough = absurd (omega (arith, enough))
  read_members-file_cut ks ok (suc zero) i host port enough = absurd (omega (arith, enough))
  read_members-file_cut [] ok (suc (suc fuel)) i host port enough =
      run-read_entry o known i l last l.digits host (10 ∷ file_cut [] l) port ended _
        (unfold skip_spaces in refl) (read_port-end l last port)
  read_members-file_cut (k ∷ ks) ok (suc (suc fuel)) i host port enough =
      run-read_entry o known i k ok.0 (k.digits ++ 10 ∷ file_cut ks l) host
        (10 ∷ file_cut (k ∷ ks) l) port (good (10 ∷ file_cut ks l)) _ (unfold skip_spaces in refl)
        (read_port-digits k ok.0 (file_cut ks l) port)
      ∙ result-map (λ others. server_of host port ∷ others)
          (read_members (suc fuel) k.name (decimal 0 k.digits) (good (10 ∷ file_cut ks l))) o
          (suc i) (servers_of (k ∷ ks))
          (read_members-file_cut ks ok.1 (suc fuel) (suc i) k.name (decimal 0 k.digits)
            (omega (arith, enough)))

  read_members-ended :
      (fuel i : ℕ) (host : Bytes) (port : ℕ)
      → 1 ≤ fuel
      → (run o i (read_members fuel host port ended)).0 ≡ some []
  unfolding read_members
  read_members-ended zero i host port enough = absurd (omega (arith, enough))
  read_members-ended (suc fuel) i host port enough = refl

  -- A file whose lines are each a host without spaces, a space and a port that is a number of an `int`,
  -- with a newline behind every line but the last, gives a server for each line but the last, in their
  -- order, if the name service knows every host: the last server is lost.
  pub get_membership-file_cut :
      (ks : List Line)
      → AllLines ks
      → result o (get_membership (some (file_cut ks l))) ≡ some (servers_of ks)
  unfolding get_membership read_members
  get_membership-file_cut [] ok =
      run-read_entry o known 0 l last l.digits [] (file_cut [] l) 0 ended _ refl
        (read_port-end l last 0)
      ∙ read_members-ended (length (file_cut [] l) + 1) 1 l.name (decimal 0 l.digits) (omega arith)
  get_membership-file_cut (k ∷ ks) (first, ok) =
      run-read_entry o known 0 k first (k.digits ++ 10 ∷ file_cut ks l) [] (file_cut (k ∷ ks) l) 0
        (good (10 ∷ file_cut ks l)) _ refl (read_port-digits k first (file_cut ks l) 0)
      ∙ read_members-file_cut ks ok (length (file_cut (k ∷ ks) l) + 1) 1 k.name (decimal 0 k.digits)
          (omega (arith, length-file_cut (k ∷ ks) l))
