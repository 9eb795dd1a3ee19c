-- ===== src/Fusion/Redirect/Targets.antt =====
-- On the handlers that work on the file behind a link (src/fusion.c).
use fusionfs_cache.Fusion.Disk.Links.{is_on_hdd, asked, is_symlink_ssd-is_on_hdd}
use fusionfs_cache.Fusion.Os.{
  SysCall, lstat, truncate, statvfs, lsetxattr, lgetxattr, llistxattr, lremovexattr, Answer, Env,
  Fs, fs, checked,
}
use fusionfs_cache.Fusion.Paths.{get_hdd_path, fusion_fullpath}
use fusionfs_cache.Fusion.Redirect.{
  at_target, on_xattr, fusion_truncate, fusion_statfs, fusion_listxattr, fusion_removexattr,
  fusion_setxattr, fusion_getxattr,
}
use fusionfs_cache.Prelude.{
  ℕ, ℤ, ◌≡◌, refl, if◌then◌else◌, Option, some, Bytes, List, ◌∷◌, Bool-cases, inl, inr,
}

module _ {S : Type 0} (env : Env) (fpath hdd : Bytes) (s : Fs S) where
  -- The history behind a call that goes to one of the disks.
  abbrev pub one : (Bytes → SysCall) → List SysCall
  one call =
      call (if is_on_hdd env fpath hdd s.calls then hdd else fpath) ∷ asked env fpath hdd s.calls

  -- A handler makes these calls, returns what it makes of the last answer, and changes nothing else.
  abbrev pub Makes : (Answer → ℤ) → List SysCall → Option (ℤ × Fs S) → Type 0
  Makes result t r = r ≡ some (result (env.reply t), fs s.dht t s.clock s.heap)

module _ {S : Type 0} (env : Env) (ssd path fpath hdd : Bytes) (s : Fs S)
    (full : fusion_fullpath ssd path ≡ some fpath) (other : get_hdd_path fpath ≡ some hdd) where
  at_target-one :
      (call : Bytes → SysCall)
      → at_target env ssd call path s
        ≡ some (
          env.reply (one env fpath hdd s call),
          fs s.dht (one env fpath hdd s call) s.clock s.heap,
        )
  at_target-one call = elim (Bool-cases (is_on_hdd env fpath hdd s.calls)) [
    | inl t ↦ rw (full, is_symlink_ssd-is_on_hdd env fpath hdd s other, t, other) refl
    | inr f ↦ rw (full, is_symlink_ssd-is_on_hdd env fpath hdd s other, f) refl
  ]

  on_xattr-one :
      (call : Bytes → SysCall)
      → Makes env fpath hdd s checked (one env fpath hdd s call) (on_xattr env ssd call path s)
  on_xattr-one call = elim (Bool-cases (env.reply (lstat fpath ∷ s.calls)).is_link) [
    | inl t ↦ rw (full, other, t) refl
    | inr f ↦ rw (full, other, f) refl
  ]

  -- `fusion_truncate`, `fusion_statfs` and the four handlers of extended attributes make their call once,
  -- on the HDD exactly when lstat sees a link and access finds its file there, and else on the SSD; a
  -- failed truncate gives -1, any other failed call -errno.
  pub fusion_truncate-one :
      (newsize size flags : ℕ) (name value : Bytes)
      → Makes env fpath hdd s
          (λ r. r.ret)
          (one env fpath hdd s (λ p. truncate p newsize))
          (fusion_truncate env ssd path newsize s)
        × Makes env fpath hdd s checked (one env fpath hdd s statvfs) (fusion_statfs env ssd path s)
        × Makes env fpath hdd s checked
            (one env fpath hdd s (λ p. llistxattr p size))
            (fusion_listxattr env ssd path size s)
        × Makes env fpath hdd s checked
            (one env fpath hdd s (λ p. lremovexattr p name))
            (fusion_removexattr env ssd path name s)
        × Makes env fpath hdd s checked
            (one env fpath hdd s (λ p. lgetxattr p name size))
            (fusion_getxattr env ssd path name size s)
        × Makes env fpath hdd s checked
            (one env fpath hdd s (λ p. lsetxattr p name value flags))
            (fusion_setxattr env ssd path name value flags s)
  unfolding fusion_truncate fusion_statfs fusion_listxattr fusion_removexattr fusion_setxattr
      fusion_getxattr
  fusion_truncate-one newsize size flags name value = (
    rw (at_target-one (λ p. truncate p newsize)) refl,
    rw (at_target-one statvfs) refl,
    rw (at_target-one (λ p. llistxattr p size)) refl,
    rw (at_target-one (λ p. lremovexattr p name)) refl,
    on_xattr-one (λ p. lgetxattr p name size),
    on_xattr-one (λ p. lsetxattr p name value flags),
  )
