-- ===== src/Zht/Config.antt =====
-- The configuration file of ZHT: `setconfigvariables` of src/zht/src/server_general.cpp and
-- src/zht/src/cpp_zhtclient.cpp, and the loop of ZHTClient::initialize. A file is the list of what
-- its calls of `fgets` give. `none` is the call atoi(NULL) on a line with no value.
use fusionfs_cache.Prelude.{
  ℕ, zero, suc, ◌+◌, ◌-◌, ◌*◌, ◌≡◌, refl, ◌&&◌, ◌||◌, Option, none, some, Returns, Option-cases,
  inl, inr, sym, subst, eqb→eq, Bool-cases, List, [], ◌∷◌, Bytes, codes, eqb, leb, ◌==◌,
  if◌then◌else◌, ◌>>=◌, ℤ, pos, negsuc, ◌+ℤ◌,
}

-- The digits at the head of a text.
unfoldable pub digits_from : ℕ → Bytes → ℕ
digits_from n [] = n
digits_from n (c ∷ s) =
    let rest = digits_from (n * 10 + (c - 48)) s in if leb 48 c && leb c 57 then rest else n

abbrev negated : ℕ → ℤ
negated zero = pos 0
negated (suc n) = negsuc n

skip_space : Bytes → Bytes
skip_space [] = []
skip_space (c ∷ s) =
    let rest = skip_space s in if c == 32 || (leb 9 c && leb c 13) then rest else c ∷ s

signed : Bytes → ℤ
unfolding digits_from
signed [] = pos 0
signed (c ∷ s) =
    if c == b'-'
    then negated (digits_from 0 s)
    else if c == b'+'
    then pos (digits_from 0 s)
    else pos (digits_from 0 (c ∷ s))

-- atoi: white space, a sign, digits
unfoldable pub atoi : Bytes → ℤ
unfolding skip_space signed
atoi s = signed (skip_space s)

-- One call of strtok(…, "="): the token and what is left behind it.
token : Bytes → Bytes × Bytes
token [] = ([], [])
token (c ∷ s) = let (t, rest) = token s in if c == b'=' then ([], s) else (c ∷ t, rest)

-- strtok skips the separators in front.
skip : Bytes → Bytes
skip [] = []
skip (c ∷ s) = let rest = skip s in if c == b'=' then rest else c ∷ s

-- key = strtok(line, "="); svalue = strtok(NULL, "="); ivalue = atoi(svalue);
unfoldable pub key_value : Bytes → Option (Bytes × ℤ)
unfolding token skip atoi
key_value line =
    let (key, rest) = token (skip line) in
    elim (skip rest) [ [] ↦ none | c ∷ s ↦ some (key, atoi (token (c ∷ s)).0) ]

pub record Settings : Type 0 where
  pub replication_type : ℤ
  pub num_replicas : ℤ

-- The two tests of the loop's body.
unfoldable pub set_variable : Bytes → ℤ → Settings → Settings
unfolding eqb
set_variable key ivalue s =
    let typed =
      if eqb key (codes "REPLICATION_TYPE") then record s { replication_type = ivalue } else s in
    if eqb key (codes "NUM_REPLICAS") then record typed { num_replicas = ivalue } else typed

unfoldable pub set_variables : List Bytes → Settings → Option Settings
unfolding key_value
set_variables [] s = some s
set_variables (line ∷ lines) s = do
  (key, ivalue) ← key_value line
  set_variables lines (set_variable key ivalue s)

-- setconfigvariables, of the server and of the client library; `none` of the file is a failed
-- fopen, which gives -1
unfoldable pub setconfigvariables : Option (List Bytes) → Settings → Option (Settings × ℤ)
unfolding set_variables
setconfigvariables none s = some (s, negsuc 0)
setconfigvariables (some lines) s = set_variables lines s >>= λ t. some (t, pos 0)

-- The body of the loop of ZHTClient::initialize: one is added to the replicas, and `none`, another
-- key, ends the loop with -2.
unfoldable pub client_variable : Bytes → ℤ → Settings → Option Settings
unfolding eqb ◌+ℤ◌
client_variable key ivalue s =
    if eqb key (codes "REPLICATION_TYPE")
    then some (record s { replication_type = ivalue })
    else if eqb key (codes "NUM_REPLICAS")
    then some (record s { num_replicas = ivalue +ℤ pos 1 })
    else none

-- return -2, or the next line
abbrev accept :
    Settings → (Settings → Option (Settings × ℤ)) → Option Settings → Option (Settings × ℤ)
accept s next none = some (s, negsuc 1)
accept s next (some t) = next t

unfoldable pub client_variables : List Bytes → Settings → Option (Settings × ℤ)
unfolding key_value
client_variables [] s = some (s, pos 0)
client_variables (line ∷ lines) s = do
  (key, ivalue) ← key_value line
  accept s (client_variables lines) (client_variable key ivalue s)

-- The client's settings against the server's: one more replica.
pub record OneMore (client server : Settings) : Type 0 where
  pub types : client.replication_type ≡ server.replication_type
  pub replicas : client.num_replicas ≡ server.num_replicas +ℤ pos 1

none≢some : {A : Type 0} {a : A} → none ≡ some a → ⊥
none≢some h = cc

accepted-injective :
    (c c' : Settings)
    → ◌≡◌ {A = Option (Settings × ℤ)} (some (c, pos 0)) (some (c', pos 0))
    → c ≡ c'
accepted-injective c c' h = cc

some-injective : (c c' : Settings) → some c ≡ some c' → c ≡ c'
some-injective c c' h = cc

types-OneMore :
    (v : ℤ) (c s c' : Settings)
    → OneMore c s
    → some (record c { replication_type = v }) ≡ some c'
    → OneMore c' (record s { replication_type = v })
types-OneMore v c s c' r h =
    subst (λ d. OneMore d (record s { replication_type = v })) (some-injective _ c' h)
      (record { types = refl; replicas = r.replicas })

replicas-OneMore :
    (v : ℤ) (c s c' : Settings)
    → OneMore c s
    → some (record c { num_replicas = v +ℤ pos 1 }) ≡ some c'
    → OneMore c' (record s { num_replicas = v })
replicas-OneMore v c s c' r h =
    subst (λ d. OneMore d (record s { num_replicas = v })) (some-injective _ c' h)
      (record { types = r.types; replicas = refl })

variable-OneMore :
    (key : Bytes) (v : ℤ) (c s c' : Settings)
    → OneMore c s
    → client_variable key v c ≡ some c'
    → OneMore c' (set_variable key v s)
unfolding client_variable set_variable eqb
variable-OneMore key v c s c' r h = elim (Bool-cases (eqb key (codes "REPLICATION_TYPE"))) [
  | inl typed ↦
      rw (eqb→eq key (codes "REPLICATION_TYPE") typed) (types-OneMore v c s c' r (rw typed at h))
  | inr other ↦ elim (Bool-cases (eqb key (codes "NUM_REPLICAS"))) [
    | inl counted ↦ rw (other, counted) (replicas-OneMore v c s c' r (rw (other, counted) at h))
    | inr unknown ↦ absurd (none≢some (rw (other, unknown) at h))
  ]
]

refused :
    (s c' : Settings) → ◌≡◌ {A = Option (Settings × ℤ)} (some (s, negsuc 1)) (some (c', pos 0)) → ⊥
refused s c' h = cc

rest-OneMore :
    (lines : List Bytes) (c s c' : Settings)
    → OneMore c s
    → client_variables lines c ≡ some (c', pos 0)
    → Returns (set_variables lines s) (OneMore c')
unfolding client_variables set_variables
rest-OneMore [] c s c' r h = (s, refl, rw (sym (accepted-injective c c' h)) r)
rest-OneMore (line ∷ lines) c s c' r h = elim (Option-cases (key_value line)) [
  | inl bad ↦ absurd (none≢some (rw bad at h))
  | inr ((key, v), parsed) ↦ elim (Option-cases (client_variable key v c)) [
    | inl unknown ↦ absurd (refused c c' (rw (parsed, unknown) at h))
    | inr (t, known) ↦
        let (s', run, more) =
          rest-OneMore lines t (set_variable key v s) c' (variable-OneMore key v c s t r known)
            (rw (parsed, known) at h) in
        (s', rw parsed run, more)
  ]
]

-- Where the client accepts a file whose first two lines set the replication type and the number of
-- replicas, as a configuration of ZHT does, the server accepts it too, and the client has the
-- server's replication type and one replica more than the server, whatever both had before.
pub client-OneMore :
    (typed counted : Bytes) (lines : List Bytes) (t n : ℤ) (c s c' : Settings)
    → key_value typed ≡ some (codes "REPLICATION_TYPE", t)
    → key_value counted ≡ some (codes "NUM_REPLICAS", n)
    → client_variables (typed ∷ counted ∷ lines) c ≡ some (c', pos 0)
    → Returns (set_variables (typed ∷ counted ∷ lines) s) (OneMore c')
unfolding client_variables set_variables client_variable set_variable eqb
client-OneMore typed counted lines t n c s c' first second h =
    let later =
      rest-OneMore lines (record { replication_type = t; num_replicas = n +ℤ pos 1 })
        (record { replication_type = t; num_replicas = n }) c'
        (record { types = refl; replicas = refl }) (rw (first, second) at h) in
    (later.0, rw (first, second) later.1, later.2)
