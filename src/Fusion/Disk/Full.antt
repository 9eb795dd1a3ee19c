-- ===== src/Fusion/Disk/Full.antt =====
-- On `ssd_is_full`, `get_used_ssd` and `sum_size_ssd` (src/util.c): which use of the SSD they see.
use fusionfs_cache.Fusion.Disk.{
  ssd_tot, int_mod, int_max, over_limit, sum_size_ssd, sum_sizes, get_used_ssd, ssd_is_full,
}
use fusionfs_cache.Fusion.Os.{SysCall, ftw, lstat, Env, Fs, fs}
use fusionfs_cache.Prelude.{
  ℕ, ◌+◌, ◌*◌, ◌%◌, ◌<◌, ◌≡◌, refl, ap, ◌∙◌, Bool, ◌&&◌, ltb, leb, if◌then◌else◌, some, Bytes, eqb,
  List, [], ◌∷◌, arith, Bool-cases, inl, inr,
}

-- lstat answers the same throughout: which names are links, and how long these are.
abbrev pub IsSteady : Env → (Bytes → Bool) → (Bytes → ℕ) → Type 0
IsSteady env links link_size =
    (name : Bytes) (t : List SysCall)
    → ((env.reply (lstat name ∷ t)).is_link ≡ links name)
      × ((env.reply (lstat name ∷ t)).st_size ≡ link_size name)

-- The bytes that the entries below the mount point use: a link counts itself.
abbrev pub size : (Bytes → Bool) → (Bytes → ℕ) → Bytes × ℕ → ℕ
size links link_size e = if links e.0 then link_size e.0 else e.1

abbrev pub total : (Bytes → Bool) → (Bytes → ℕ) → Bytes → List (Bytes × ℕ) → ℕ
total links link_size ssd [] = 0
total links link_size ssd (e ∷ es) =
    let rest = total links link_size ssd es in
    if eqb e.0 ssd then rest else size links link_size e + rest

module _ {S : Type 0} (env : Env) (ssd : Bytes) (links : Bytes → Bool) (link_size : Bytes → ℕ)
    (steady : IsSteady env links link_size) where
  sum_sizes-total :
      (used : ℕ) (es : List (Bytes × ℕ)) (s : Fs S)
      → used < int_mod
      → (t : List SysCall) × (sum_sizes env ssd used es s
          ≡ some ((used + total links link_size ssd es) % int_mod, fs s.dht t s.clock s.heap))
  unfolding sum_sizes sum_size_ssd
  sum_sizes-total used [] s small = (s.calls, ap (λ n. some (n, s)) (omega (arith, small)))
  sum_sizes-total used (e ∷ es) s small = elim (Bool-cases (eqb e.0 ssd)) [
    | inl same ↦ let (t, run) = sum_sizes-total used es s small in (t, rw same run)
    | inr other ↦
        let (link, bytes) = steady e.0 s.calls in
        let more = total links link_size ssd es in
        let next : ℕ = (used + size links link_size e % int_mod) % int_mod in
        let (t, run) =
          sum_sizes-total next es (fs s.dht (lstat e.0 ∷ s.calls) s.clock s.heap) (omega arith) in
        let sum : (next + more) % int_mod ≡ (used + (size links link_size e + more)) % int_mod =
          omega arith in
        (t, rw (other, link, bytes) (run ∙ rw sum refl))
  ]

  -- While lstat answers the same, and the entries that ftw visits use less than 2^32 bytes, `ssd_is_full`
  -- returns, and says whether these are more than four fifths of SSD_TOT: from 2^31 bytes on it says no.
  pub ssd_is_full-total :
      (s : Fs S) (n : ℕ)
      → total links link_size ssd (env.reply (ftw ssd ∷ s.calls)).entries ≡ n
      → n < int_mod
      → (t : List SysCall) × (ssd_is_full env ssd s
          ≡ some (leb n int_max && ltb (4 * ssd_tot) (5 * n), fs s.dht t s.clock s.heap))
  unfolding ssd_is_full get_used_ssd
  ssd_is_full-total s n sum small =
      let asked = fs s.dht (ftw ssd ∷ s.calls) s.clock s.heap in
      let (t, run) =
        sum_sizes-total 0 (env.reply (ftw ssd ∷ s.calls)).entries asked (omega arith) in
      let used : (0 + n) % int_mod ≡ n = omega (arith, small) in
      let limit : over_limit n ≡ (leb n int_max && ltb (4 * ssd_tot) (5 * n)) = ground arith in
      (t, rw (run, sum, used, limit) refl)
