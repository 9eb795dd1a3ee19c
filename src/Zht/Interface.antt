-- ===== src/Zht/Interface.antt =====
-- The C interface of the ZHT client: src/zht/src/c_zhtclient.cpp. The static client is passed along.
pub mod Reading
use fusionfs_cache.Io.{Io, done, ◌>>=◌}
use fusionfs_cache.Prelude.{
  Bool, true, false, ◌||◌, ◌==◌, Option, none, some, List, [], ◌∷◌, Bytes, eqb, if◌then◌else◌, ℤ,
  pos, negsuc, is_nat,
}
use fusionfs_cache.Zht.Client
use fusionfs_cache.Zht.Client.{ConnectionCache, ZhtClient, initialize}
use fusionfs_cache.Zht.Package.{Package, empty_package, Codec}

-- The requests that the calls on keys build.
abbrev pub insert_package : Bytes → Bytes → Package
insert_package key value = record empty_package {
  virtualpath = key;
  isdir = true;
  replicano = pos 5;
  operation = pos 3;
  realfullpath = value;
}

abbrev pub lookup_package : Bytes → Package
lookup_package key = record empty_package {
  virtualpath = key;
  isdir = true;
  replicano = pos 5;
  operation = pos 1;
}

abbrev pub remove_package : Bytes → Package
remove_package key = record empty_package { virtualpath = key; operation = pos 2 }

-- strncpy(result, s, s.size()): as many bytes as the string has, zeros from its first zero byte on
strncpy_from : Bool → Bytes → Bytes
strncpy_from ended [] = []
strncpy_from ended (c ∷ s) =
    (if ended || (c == 0) then 0 else c) ∷ strncpy_from (ended || (c == 0)) s

abbrev pub strncpy : Bytes → Bytes
unfolding strncpy_from
strncpy s = strncpy_from false s

module _ {State : Type 0} where
  unfoldable pub c_zht_init :
      Option (List Bytes) → Option Bytes → Bool → ZhtClient State → Io (ZhtClient State × ℤ)
  unfolding initialize
  c_zht_init config members tcp c = do
    (c', ret) ← initialize config members tcp c
    done (c', if is_nat ret 0 then pos 0 else negsuc 0)

  unfoldable pub c_zht_teardown : ZhtClient State → Io ℤ
  c_zht_teardown c = Client.tear_down c

  module _ (codec : Codec) (cache : ConnectionCache State) where
    unfoldable pub c_zht_insert : Bytes → ZhtClient State → Io (ℤ × ZhtClient State)
    c_zht_insert pair c = Client.insert codec cache pair c

    -- An empty value leaves the field unset, which reads as the empty text.
    unfoldable pub c_zht_insert2 : Bytes → Bytes → ZhtClient State → Io (ℤ × ZhtClient State)
    c_zht_insert2 key value c =
        if eqb key []
        then done (negsuc 0, c)
        else Client.insert codec cache (codec.serialize (insert_package key value)) c

    -- The result is stored in the parameter `result` itself: the caller gets the status only.
    unfoldable pub c_zht_lookup : Bytes → ZhtClient State → Io (ℤ × ZhtClient State)
    c_zht_lookup pair c = do
      ((return_str, ret), c') ← Client.lookup codec cache pair [] c
      done (ret, c')

    -- What `strncpy` writes into the caller's buffer comes back, with its length in `*n`: the bytes
    -- of the path, zeros from its first zero byte on. `none` leaves both alone.
    unfoldable pub c_zht_lookup2 :
        Bytes → ZhtClient State → Io ((Option Bytes × ℤ) × ZhtClient State)
    c_zht_lookup2 key c = if eqb key [] then done ((none, negsuc 0), c) else do
      ((return_str, ret), c') ←
          Client.lookup codec cache (codec.serialize (lookup_package key)) [] c
      done ((some (strncpy (codec.parse return_str).realfullpath), ret), c')

    unfoldable pub c_zht_remove : Bytes → ZhtClient State → Io (ℤ × ZhtClient State)
    c_zht_remove pair c = Client.remove codec cache pair c

    unfoldable pub c_zht_remove2 : Bytes → ZhtClient State → Io (ℤ × ZhtClient State)
    c_zht_remove2 key c =
        if eqb key []
        then done (negsuc 0, c)
        else Client.remove codec cache (codec.serialize (remove_package key)) c
