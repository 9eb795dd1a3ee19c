-- ===== src/Zht/Members/Listed.antt =====
-- On `getMembership` (src/zht/src/common/zht_util.cpp).
use fusionfs_cache.Io.{Io, Reply, run, result, done, ◌>>=◌, ◌>>◌}
use fusionfs_cache.Io.Runs.{result-map}
use fusionfs_cache.Net.{resolve}
use fusionfs_cache.Prelude.{
  ℕ, zero, suc, ◌+◌, ◌≤◌, ◌≡◌, refl, Bool, true, false, not, ◌&&◌, some, List, [], ◌∷◌, ◌++◌, arith,
  ◌∙◌, Bytes, eqb, length, length-append, take, leb, ltb, negsuc, is_nat,
}
use fusionfs_cache.Zht.Members.{
  HostEntity, Stream, is_space, skip_spaces, span, is_empty, decimal, sentry, read_host, read_port,
  read_entry, read_members, get_membership,
}

-- A line of the file: a host, a space, and a port in decimal digits.
pub record Line : Type 0 where
  pub name : Bytes
  pub digits : Bytes

abbrev pub all : (ℕ → Bool) → Bytes → Bool
all test [] = true
all test (c ∷ s) = test c && all test s

abbrev pub not_space : ℕ → Bool
not_space c = not (is_space c)

abbrev pub is_digit : ℕ → Bool
is_digit c = leb 48 c && leb c 57

-- The host is not empty and has no space; the port has a digit, and is a number of an `int`.
pub record IsLine (l : Line) : Type 0 where
  pub word : all not_space l.name ≡ true
  pub named : is_empty l.name ≡ false
  pub number : all is_digit l.digits ≡ true
  pub shown : is_empty l.digits ≡ false
  pub small : ltb (decimal 0 l.digits) 2147483648 ≡ true

abbrev pub AllLines : List Line → Type 0
AllLines [] = Unit
AllLines (l ∷ ls) = IsLine l × AllLines ls

-- The text of a file, with a newline behind every line.
abbrev pub file_text : List Line → Bytes
file_text [] = []
file_text (l ∷ ls) = l.name ++ 32 ∷ (l.digits ++ 10 ∷ file_text ls)

-- The server that a line stands for.
abbrev pub server_of : Bytes → ℕ → HostEntity
server_of name port = record { host = name; port = port; sock = negsuc 0; valid = true }

abbrev pub servers_of : List Line → List HostEntity
servers_of [] = []
servers_of (l ∷ ls) = server_of l.name (decimal 0 l.digits) ∷ servers_of ls

abbrev pub good : Bytes → Stream
good rest = record { rest = rest; eof = false; fail = false }

pub span-all :
    (test : ℕ → Bool) (w : Bytes) (c : ℕ) (t : Bytes)
    → all test w ≡ true
    → test c ≡ false
    → span test (w ++ c ∷ t) ≡ (w, c ∷ t)
unfolding span
span-all test [] c t h e = rw e refl
span-all test (x ∷ w) c t h e =
    let first : test x ≡ true = ground (arith, h) in
    let others : all test w ≡ true = ground (arith, h) in
    rw (first, span-all test w c t others e) refl

pub skip_spaces-word :
    (w t : Bytes) → all not_space w ≡ true → is_empty w ≡ false → skip_spaces (w ++ t) ≡ w ++ t
unfolding skip_spaces is_empty
skip_spaces-word [] t h e = cc
skip_spaces-word (c ∷ w) t h e = let plain : is_space c ≡ false = ground (arith, h) in rw plain refl

not_empty : (w t : Bytes) → is_empty w ≡ false → is_empty (w ++ t) ≡ false
unfolding is_empty
not_empty [] t e = cc
not_empty (c ∷ w) t e = refl

module _ (l : Line) (ok : IsLine l) (t : Bytes) where
  read_host-word :
      (host rest : Bytes)
      → skip_spaces rest ≡ skip_spaces (l.name ++ 32 ∷ t)
      → read_host host (good rest) ≡ (l.name, good (32 ∷ t))
  unfolding read_host sentry
  read_host-word host rest e =
      rw
        (
          e,
          skip_spaces-word l.name (32 ∷ t) ok.word ok.named,
          not_empty l.name (32 ∷ t) ok.named,
          span-all not_space l.name 32 t ok.word refl,
        )
        refl

pub no_sign :
    (d t : Bytes)
    → all is_digit d ≡ true
    → is_empty d ≡ false
    → (eqb (take 1 (d ++ t)) (b'-' ∷ []) ≡ false) × (eqb (take 1 (d ++ t)) (b'+' ∷ []) ≡ false)
unfolding eqb is_empty
no_sign [] t h e = cc
no_sign (c ∷ d) t h e = (ground (arith, h), ground (arith, h))

pub digits_not_space : (d : Bytes) → all is_digit d ≡ true → all not_space d ≡ true
digits_not_space [] h = refl
digits_not_space (c ∷ d) h =
    let others : all is_digit d ≡ true = ground (arith, h) in
    ground (arith, h, digits_not_space d others)

pub read_port-digits :
    (l : Line) (ok : IsLine l) (t : Bytes) (port : ℕ)
    → read_port port (good (32 ∷ (l.digits ++ 10 ∷ t))) ≡ some (decimal 0 l.digits, good (10 ∷ t))
unfolding read_port sentry skip_spaces
read_port-digits l ok t port =
    let (minus, plus) = no_sign l.digits (10 ∷ t) ok.number ok.shown in
    rw
      (
        skip_spaces-word l.digits (10 ∷ t) (digits_not_space l.digits ok.number) ok.shown,
        not_empty l.digits (10 ∷ t) ok.shown,
        span-all is_digit l.digits 10 t ok.number refl,
        minus,
        plus,
        ok.shown,
        ok.small,
      )
      refl

length-file_text : (ls : List Line) → length ls ≤ length (file_text ls)
length-file_text [] = omega arith
length-file_text (l ∷ ls) = omega (
  arith,
  length-append l.name (32 ∷ (l.digits ++ 10 ∷ file_text ls)),
  length-append l.digits (10 ∷ file_text ls),
  length-file_text ls,
)

module _ (o : ℕ → Reply) (known : (i : ℕ) → is_nat (o i).ret 0 ≡ false) where
  run-resolve :
      {A B : Type 0} (i : ℕ) (host : Bytes) (x : B) (f : B → Io A)
      → (run o i ((resolve host >> done x) >>= f)).0 ≡ (run o (suc i) (f x)).0
  unfolding resolve
  run-resolve i host x f = rw (known i, run) refl

  -- One extraction, and what follows it.
  pub run-read_entry :
      {A : Type 0} (i : ℕ) (l : Line) (ok : IsLine l) (t host rest : Bytes) (port : ℕ)
      (after : Stream) (f : Bytes × ℕ × Stream → Io A)
      → skip_spaces rest ≡ skip_spaces (l.name ++ 32 ∷ t)
      → read_port port (good (32 ∷ t)) ≡ some (decimal 0 l.digits, after)
      → (run o i (read_entry host port (good rest) >>= f)).0
        ≡ (run o (suc i) (f (l.name, decimal 0 l.digits, after))).0
  unfolding read_entry
  run-read_entry i l ok t host rest port after f e number =
      let host_read = read_host-word l ok t host rest e in
      rw (host_read, number, host_read) (run-resolve i l.name _ f)

  -- The last extraction, which finds the end of the file.
  run-read_end :
      {A : Type 0} (i : ℕ) (host : Bytes) (port : ℕ) (f : Bytes × ℕ × Stream → Io A)
      → (run o i (read_entry host port (good (10 ∷ [])) >>= f)).0
        ≡ (run o (suc i) (f (host, port, record { rest = []; eof = true; fail = true }))).0
  unfolding read_entry read_host read_port sentry skip_spaces is_empty
  run-read_end i host port f = run-resolve i host _ f

  read_members-servers_of :
      (ls : List Line) (ok : AllLines ls) (fuel i : ℕ) (host : Bytes) (port : ℕ)
      → length ls + 2 ≤ fuel
      → (run o i (read_members fuel host port (good (10 ∷ file_text ls)))).0
        ≡ some (server_of host port ∷ servers_of ls)
  unfolding read_members
  read_members-servers_of ls ok zero i host port enough = absurd (omega (arith, enough))
  read_members-servers_of ls ok (suc zero) i host port enough = absurd (omega (arith, enough))
  read_members-servers_of [] ok (suc (suc fuel)) i host port enough = run-read_end i host port _
  read_members-servers_of (l ∷ ls) ok (suc (suc fuel)) i host port enough =
      run-read_entry i l ok.0 (l.digits ++ 10 ∷ file_text ls) host (10 ∷ file_text (l ∷ ls)) port
        (good (10 ∷ file_text ls)) _ (unfold skip_spaces in refl)
        (read_port-digits l ok.0 (file_text ls) port)
      ∙ result-map (λ others. server_of host port ∷ others)
          (read_members (suc fuel) l.name (decimal 0 l.digits) (good (10 ∷ file_text ls))) o (suc i)
          (servers_of (l ∷ ls))
          (read_members-servers_of ls ok.1 (suc fuel) (suc i) l.name (decimal 0 l.digits)
            (omega (arith, enough)))

  -- A file in which a newline stands behind every line, and each line is a host without spaces, a space
  -- and a port that is a number of an `int`, gives a server for each line, in their order, without a
  -- socket, if the name service knows every host; the file has at least one line.
  pub get_membership-servers_of :
      (l : Line) (ls : List Line)
      → AllLines (l ∷ ls)
      → result o (get_membership (some (file_text (l ∷ ls)))) ≡ some (servers_of (l ∷ ls))
  unfolding get_membership
  get_membership-servers_of l ls (ok, oks) =
      run-read_entry 0 l ok (l.digits ++ 10 ∷ file_text ls) [] (file_text (l ∷ ls)) 0
        (good (10 ∷ file_text ls)) _ refl (read_port-digits l ok (file_text ls) 0)
      ∙ read_members-servers_of ls oks (length (file_text (l ∷ ls)) + 1) 1 l.name
          (decimal 0 l.digits) (omega (arith, length-file_text (l ∷ ls)))
