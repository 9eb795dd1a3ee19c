-- ===== src/Zht/Package.antt =====
-- The message `Package` of src/zht/src/misc/meta.proto. Its encoding is generated code over the
-- Protocol Buffers library, so the two directions are a parameter.
use fusionfs_cache.Prelude.{◌≡◌, Bool, false, List, [], Bytes, ℤ, pos}

pub record Package : Type 0 where
  pub virtualpath : Bytes
  pub num : ℤ
  pub realfullpath : Bytes
  pub isdir : Bool
  pub list_item : List Bytes
  pub open_mode : ℤ
  pub mode : ℤ
  pub operation : ℤ
  pub replicano : ℤ

-- A message with no field set reads as the defaults.
abbrev pub empty_package : Package
empty_package = record {
  virtualpath = [];
  num = pos 0;
  realfullpath = [];
  isdir = false;
  list_item = [];
  open_mode = pos 0;
  mode = pos 0;
  operation = pos 0;
  replicano = pos 0;
}

-- SerializeAsString, and ParseFromString or ParseFromArray
pub record Codec : Type 0 where
  pub serialize : Package → Bytes
  pub parse : Bytes → Package
  pub parse-serialize : (p : Package) → parse (serialize p) ≡ p
