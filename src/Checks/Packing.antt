-- ===== src/Checks/Packing.antt =====
-- An encoding of packages for the tests: the one of Protocol Buffers is a parameter of the
-- development (src/zht/src/misc/meta.proto). No byte of it is zero unless a text has one.
use fusionfs_cache.Prelude.{
  ℕ, zero, suc, ◌≡◌, refl, ◌∙◌, Bool, true, false, List, [], ◌∷◌, ◌++◌, Bytes, length, ℤ, pos,
  negsuc,
}
use fusionfs_cache.Zht.Package.{Package, Codec}

-- A number stands one higher.
put_bytes : Bytes → Bytes → Bytes
put_bytes b rest = suc (length b) ∷ (b ++ rest)

put_int : ℤ → Bytes → Bytes
put_int (pos n) rest = 1 ∷ suc n ∷ rest
put_int (negsuc n) rest = 2 ∷ suc n ∷ rest

put_bool : Bool → Bytes → Bytes
put_bool true rest = 1 ∷ rest
put_bool false rest = 2 ∷ rest

put_each : List Bytes → Bytes → Bytes
put_each [] rest = rest
put_each (b ∷ l) rest = put_bytes b (put_each l rest)

put_list : List Bytes → Bytes → Bytes
put_list l rest = suc (length l) ∷ put_each l rest

module _ {R : Type 0} where
  -- Readers that pass on what they read, and the rest.
  read_count : ℕ → Bytes → (Bytes → Bytes → R) → R
  read_count zero s k = k [] s
  read_count (suc n) [] k = k [] []
  read_count (suc n) (c ∷ s) k = read_count n s (λ b rest. k (c ∷ b) rest)

  read_bytes : Bytes → (Bytes → Bytes → R) → R
  read_bytes [] k = k [] []
  read_bytes (zero ∷ s) k = k [] s
  read_bytes (suc n ∷ s) k = read_count n s k

  read_int : Bytes → (ℤ → Bytes → R) → R
  read_int (suc zero ∷ suc n ∷ s) k = k (pos n) s
  read_int (suc (suc m) ∷ suc n ∷ s) k = k (negsuc n) s
  read_int s k = k (pos 0) s

  read_bool : Bytes → (Bool → Bytes → R) → R
  read_bool (suc zero ∷ s) k = k true s
  read_bool (c ∷ s) k = k false s
  read_bool [] k = k false []

  read_each : ℕ → Bytes → (List Bytes → Bytes → R) → R
  read_each zero s k = k [] s
  read_each (suc n) s k = read_bytes s (λ b rest. read_each n rest (λ l more. k (b ∷ l) more))

  read_list : Bytes → (List Bytes → Bytes → R) → R
  read_list [] k = k [] []
  read_list (zero ∷ s) k = k [] s
  read_list (suc n ∷ s) k = read_each n s k

  read_count_lem :
      (b rest : Bytes) (k : Bytes → Bytes → R) → read_count (length b) (b ++ rest) k ≡ k b rest
  unfolding read_count
  read_count_lem [] rest k = refl
  read_count_lem (c ∷ b) rest k = read_count_lem b rest (λ b' rest'. k (c ∷ b') rest')

  read_bytes_lem :
      (b rest : Bytes) (k : Bytes → Bytes → R) → read_bytes (put_bytes b rest) k ≡ k b rest
  unfolding read_bytes put_bytes
  read_bytes_lem b rest k = read_count_lem b rest k

  read_int_lem : (n : ℤ) (rest : Bytes) (k : ℤ → Bytes → R) → read_int (put_int n rest) k ≡ k n rest
  unfolding read_int put_int
  read_int_lem (pos n) rest k = refl
  read_int_lem (negsuc n) rest k = refl

  read_bool_lem :
      (b : Bool) (rest : Bytes) (k : Bool → Bytes → R) → read_bool (put_bool b rest) k ≡ k b rest
  unfolding read_bool put_bool
  read_bool_lem true rest k = refl
  read_bool_lem false rest k = refl

  read_each_lem :
      (l : List Bytes) (rest : Bytes) (k : List Bytes → Bytes → R)
      → read_each (length l) (put_each l rest) k ≡ k l rest
  unfolding read_each put_each
  read_each_lem [] rest k = refl
  read_each_lem (b ∷ l) rest k =
      read_bytes_lem b (put_each l rest) _ ∙ read_each_lem l rest (λ l' more. k (b ∷ l') more)

  read_list_lem :
      (l : List Bytes) (rest : Bytes) (k : List Bytes → Bytes → R)
      → read_list (put_list l rest) k ≡ k l rest
  unfolding read_list put_list
  read_list_lem l rest k = read_each_lem l rest k

unfoldable pub pack : Package → Bytes
unfolding put_bytes put_int put_bool put_list put_each
pack p = put_bytes p.virtualpath (
    put_int p.num (
      put_bytes p.realfullpath (
        put_bool p.isdir (
          put_list p.list_item (
            put_int p.open_mode (put_int p.mode (put_int p.operation (put_int p.replicano []))))))))

unfoldable pub unpack : Bytes → Package
unfolding read_bytes read_int read_bool read_list read_each read_count
unpack s = read_bytes s λ path s₁. read_int s₁ λ num s₂. read_bytes s₂ λ full s₃.
    read_bool s₃ λ dir s₄. read_list s₄ λ items s₅. read_int s₅ λ open_mode s₆.
      read_int s₆ λ mode s₇. read_int s₇ λ operation s₈. read_int s₈ λ replicano s₉. record {
        virtualpath = path;
        num = num;
        realfullpath = full;
        isdir = dir;
        list_item = items;
        open_mode = open_mode;
        mode = mode;
        operation = operation;
        replicano = replicano;
      }

pub unpack-pack : (p : Package) → unpack (pack p) ≡ p
unfolding unpack pack
unpack-pack p =
    read_bytes_lem p.virtualpath _ _
    ∙ read_int_lem p.num _ _
    ∙ read_bytes_lem p.realfullpath _ _
    ∙ read_bool_lem p.isdir _ _
    ∙ read_list_lem p.list_item _ _
    ∙ read_int_lem p.open_mode _ _
    ∙ read_int_lem p.mode _ _
    ∙ read_int_lem p.operation _ _
    ∙ read_int_lem p.replicano _ _

abbrev pub packing : Codec
packing = record { serialize = pack; parse = unpack; parse-serialize = unpack-pack }
