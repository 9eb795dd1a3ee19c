-- ===== src/Zht/Interface/Reading.antt =====
-- On `c_zht_lookup2` (src/zht/src/c_zhtclient.cpp over cpp_zhtclient.cpp).
use fusionfs_cache.Io.{Reply, result}
use fusionfs_cache.Io.Runs.{result-map}
use fusionfs_cache.Prelude.{
  ℕ, ◌≡◌, refl, ap, ◌∙◌, false, some, [], ◌++◌, Bytes, codes, eqb, NoNul, length, pos,
}
use fusionfs_cache.Zht.Client.{ConnectionCache, ZhtClient, lookup}
use fusionfs_cache.Zht.Client.Answers.{IsShort, IsConnected, touched, query, lookup-answered}
use fusionfs_cache.Zht.Interface.{insert_package, lookup_package, strncpy, c_zht_lookup2}
use fusionfs_cache.Zht.Package.{Codec}

-- The request that c_zht_lookup2 hands to the client.
abbrev pub asks : Codec → Bytes → Bytes
asks codec key = codec.serialize (lookup_package key)

module _ {State : Type 0} (codec : Codec) (cache : ConnectionCache State) (key value : Bytes)
    (keyed : eqb key [] ≡ false) where
  -- A client that has a connection to the server of the key calls c_zht_lookup2. If its request is sent
  -- whole and what comes back is status 0 and the package that c_zht_insert2 sends for the key and a
  -- value, the call ends with status 0, and the caller's buffer holds this value; the request
  -- decodes as a lookup of the key. The encodings have no zero byte, the package
  -- takes less than 1022 bytes and is not encoded as "Empty", and the key is not empty.
  pub c_zht_lookup2-received :
      (o : ℕ → Reply) (got : ℕ) (c : ZhtClient State)
      (k : IsConnected codec cache (codec.parse (asks codec key)).virtualpath c)
      → IsShort (some (codec.serialize (insert_package key value)))
      → eqb (codec.serialize (insert_package key value)) (codes "Empty") ≡ false
      → NoNul (codec.serialize (query codec cache (asks codec key)))
      → (o 1).ret ≡ pos (length (codec.serialize (query codec cache (asks codec key))))
      → (o 2).ret ≡ pos got
      → (o 2).payload ≡ codes "00" ++ codec.serialize (insert_package key value)
      → (result o (c_zht_lookup2 codec cache key c)
          ≡ some ((some (strncpy value), pos 0), touched codec cache k.dest.host c))
        × ((codec.parse (codec.serialize (query codec cache (asks codec key)))).virtualpath ≡ key)
        × ((codec.parse (codec.serialize (query codec cache (asks codec key)))).operation ≡ pos 1)
  unfolding c_zht_lookup2
  c_zht_lookup2-received o got c k short full whole sent arrived carried =
      let sent_package = codec.serialize (insert_package key value) in
      let (a, b, gives) =
        lookup-answered codec cache (asks codec key) [] c o got k (some sent_package) short whole
          sent arrived (carried ∙ rw full refl) in
      let same : (codec.parse (asks codec key)).virtualpath ≡ key =
        ap (λ p. p.virtualpath) (codec.parse-serialize (lookup_package key)) in
      (
        rw keyed (
            result-map (λ r. ((some (strncpy (codec.parse r.0.0).realfullpath), r.0.1), r.1))
              (lookup codec cache (asks codec key) [] c) o 0
              ((sent_package, pos 0), touched codec cache k.dest.host c) (gives ∙ rw full refl)
            ∙ rw (codec.parse-serialize (insert_package key value)) refl),
        rw (b, same) refl,
        rw b refl,
      )
