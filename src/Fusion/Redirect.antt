-- ===== src/Fusion/Redirect.antt =====
-- The handlers of src/fusion.c that pass an operation on to the SSD or the HDD: the SSD has a symbolic
-- link where the file is on the HDD. The result is what the handler returns.
pub mod Targets
use fusionfs_cache.Fusion.Disk.{f_ok, is_symlink_ssd}
use fusionfs_cache.Fusion.Os.{
  SysCall, access, lstat, link, chmod, chown, utime, truncate, statvfs, fsync, fdatasync, open_file,
  close, lsetxattr, lgetxattr, llistxattr, lremovexattr, Answer, Env, Act, pure, lift, ◌>>=◌, ◌>>◌,
  sys, checked,
}
use fusionfs_cache.Fusion.Paths.{get_hdd_path, fusion_fullpath}
use fusionfs_cache.Prelude.{
  ℕ, ℤ, Bool, true, false, not, ◌&&◌, is_error, if◌then◌else◌, Option, Bytes,
}

-- O_RDONLY
abbrev pub o_rdonly : ℕ
o_rdonly = 0

abbrev pub sync : Bool → ℤ → SysCall
sync datasync fd = if datasync then fdatasync fd else fsync fd

module _ {S : Type 0} (env : Env) (ssd : Bytes) where
  -- A link is followed to the HDD and changed itself, too.
  abbrev pub on_hdd_too : (Bytes → SysCall) → Bytes → Act S (Unit {0})
  on_hdd_too call fpath = do
    l ← is_symlink_ssd env fpath
    if l then (do hdd ← lift (get_hdd_path fpath); sys env (call hdd); pure tt) else pure tt

  abbrev pub on_disks : (Bytes → SysCall) → Bytes → Act S ℤ
  on_disks call path = do
    fpath ← lift (fusion_fullpath ssd path)
    on_hdd_too call fpath
    r ← sys env (call fpath)
    pure (checked r)

  unfoldable pub fusion_chmod : Bytes → ℕ → Act S ℤ
  fusion_chmod path mode = on_disks (λ p. chmod p mode) path

  unfoldable pub fusion_chown : Bytes → ℕ → ℕ → Act S ℤ
  fusion_chown path uid gid = on_disks (λ p. chown p uid gid) path

  unfoldable pub fusion_utime : Bytes → Option (ℕ × ℕ) → Act S ℤ
  fusion_utime path ubuf = on_disks (λ p. utime p ubuf) path

  -- A link stands for the file on the HDD.
  abbrev pub target : Bytes → Act S Bytes
  target fpath = do
    l ← is_symlink_ssd env fpath
    if l then lift (get_hdd_path fpath) else pure fpath

  abbrev pub at_target : (Bytes → SysCall) → Bytes → Act S Answer
  at_target call path = do
    fpath ← lift (fusion_fullpath ssd path)
    p ← target fpath
    sys env (call p)

  -- The result of `fusion_error` is dropped.
  unfoldable pub fusion_truncate : Bytes → ℕ → Act S ℤ
  fusion_truncate path newsize = do r ← at_target (λ p. truncate p newsize) path; pure r.ret

  unfoldable pub fusion_statfs : Bytes → Act S ℤ
  fusion_statfs path = do r ← at_target statvfs path; pure (checked r)

  unfoldable pub fusion_listxattr : Bytes → ℕ → Act S ℤ
  fusion_listxattr path size = do r ← at_target (λ p. llistxattr p size) path; pure (checked r)

  unfoldable pub fusion_removexattr : Bytes → Bytes → Act S ℤ
  fusion_removexattr path name = do r ← at_target (λ p. lremovexattr p name) path; pure (checked r)

  unfoldable pub fusion_link : Bytes → Bytes → Act S ℤ
  fusion_link path newpath = do
    fpath ← lift (fusion_fullpath ssd path)
    fnewpath ← lift (fusion_fullpath ssd newpath)
    p ← target fpath
    r ← sys env (link p fnewpath)
    pure (checked r)

  -- These three write the test of `is_symlink_ssd` out.
  abbrev pub follow : Bytes → Bytes → Act S Bool
  follow fpath hdd = do
    sb ← sys env (lstat fpath)
    if sb.is_link
        then (do a ← sys env (access hdd f_ok); pure (not (is_error a.ret)))
        else pure false

  abbrev pub on_xattr : (Bytes → SysCall) → Bytes → Act S ℤ
  on_xattr call path = do
    fpath ← lift (fusion_fullpath ssd path)
    hdd ← lift (get_hdd_path fpath)
    l ← follow fpath hdd
    r ← sys env (call (if l then hdd else fpath))
    pure (checked r)

  unfoldable pub fusion_setxattr : Bytes → Bytes → Bytes → ℕ → Act S ℤ
  fusion_setxattr path name value flags = on_xattr (λ p. lsetxattr p name value flags) path

  unfoldable pub fusion_getxattr : Bytes → Bytes → ℕ → Act S ℤ
  fusion_getxattr path name size = on_xattr (λ p. lgetxattr p name size) path

  -- The result of `fusion_error` is dropped here, too.
  unfoldable pub fusion_fsync : Bytes → Bool → ℤ → Act S ℤ
  fusion_fsync path datasync fh = do
    fpath ← lift (fusion_fullpath ssd path)
    hdd ← lift (get_hdd_path fpath)
    l ← follow fpath hdd
    if l
        then (do
          fd ← sys env (open_file hdd o_rdonly 0)
          r ← sys env (sync datasync fd.ret)
          sys env (close fd.ret)
          pure r.ret)
        else do r ← sys env (sync datasync fh); pure r.ret
