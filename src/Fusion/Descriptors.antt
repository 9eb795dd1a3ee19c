-- ===== src/Fusion/Descriptors.antt =====
-- The handlers of src/fusion.c that pass an operation on to the SSD, or to an open file.
use fusionfs_cache.Fusion.Directory.{Zht}
use fusionfs_cache.Fusion.Disk.{f_ok}
use fusionfs_cache.Fusion.Os.{
  access, lstat, fstat, mkdir, symlink, readlink, ftruncate, open_file, close, mkfifo, mknod, pread,
  pwrite, opendir, closedir, Answer, Env, Act, pure, lift, ◌>>=◌, ◌>>◌, sys, ask, checked,
  fusion_error,
}
use fusionfs_cache.Fusion.Paths.{get_hdd_path, fusion_fullpath}
use fusionfs_cache.Prelude.{
  ℕ, ◌+◌, ◌-◌, ◌/◌, ◌%◌, ◌^◌, ◌==◌, ℤ, pos, Bool, is_error, is_neg, is_nat, if◌then◌else◌, none,
  some, Bytes,
}

-- O_CREAT | O_EXCL | O_WRONLY
abbrev pub o_create_new : ℕ
o_create_new = 193

-- mode & S_IFMT, in the digits of S_IFREG, S_IFIFO
abbrev pub file_type : ℕ → ℕ
file_type mode = (mode / 4096) % 16

-- if (retstat != 0) retstat = fusion_error(...);
abbrev pub unless_zero : Answer → ℤ
unless_zero r = if is_nat r.ret 0 then r.ret else fusion_error r

-- The attributes of a link to the HDD are those of the file there: `link` is S_ISLNK of what `statbuf`
-- has, and `retstat` what the handler would return.
module _ {S : Type 0} (env : Env) where
  unfoldable pub hdd_attributes : Bytes → Bool → ℤ → Act S ℤ
  hdd_attributes fpath is_link retstat = do
    hdd ← lift (get_hdd_path fpath)
    if is_link
        then (do
          a ← sys env (access hdd f_ok)
          if is_error a.ret then pure retstat else do r ← sys env (lstat hdd); pure (unless_zero r))
        else pure retstat

  unfoldable pub fusion_read : ℤ → ℕ → ℕ → Act S ℤ
  fusion_read fh size offset = do r ← sys env (pread fh size offset); pure (checked r)

  unfoldable pub fusion_write : ℤ → Bytes → ℕ → Act S ℤ
  fusion_write fh buf offset = do r ← sys env (pwrite fh buf offset); pure (checked r)

  unfoldable pub fusion_flush : Act S ℤ
  fusion_flush = pure (pos 0)

  unfoldable pub fusion_ftruncate : ℤ → ℕ → Act S ℤ
  fusion_ftruncate fh offset = do r ← sys env (ftruncate fh offset); pure (checked r)

  unfoldable pub fusion_releasedir : ℤ → Act S ℤ
  fusion_releasedir fh = do sys env (closedir fh); pure (pos 0)

  module _ (ssd : Bytes) where
    unfoldable pub fusion_access : Bytes → ℕ → Act S ℤ
    fusion_access path mask = do
      fpath ← lift (fusion_fullpath ssd path)
      r ← sys env (access fpath mask)
      pure (checked r)

    -- The length that readlink returns is where the zero byte goes.
    unfoldable pub fusion_readlink : Bytes → ℕ → Act S ℤ
    fusion_readlink path size = do
      fpath ← lift (fusion_fullpath ssd path)
      r ← sys env (readlink fpath ((size + (2 ^ 64 - 1)) % 2 ^ 64))
      pure (if is_neg r.ret then fusion_error r else pos 0)

    unfoldable pub fusion_symlink : Bytes → Bytes → Act S ℤ
    fusion_symlink path link = do
      flink ← lift (fusion_fullpath ssd link)
      r ← sys env (symlink path flink)
      pure (checked r)

    unfoldable pub fusion_mknod : Bytes → ℕ → ℕ → Act S ℤ
    fusion_mknod path mode dev = do
      fpath ← lift (fusion_fullpath ssd path)
      if file_type mode == 8
          then (do
            r ← sys env (open_file fpath o_create_new mode)
            if is_neg r.ret
                then pure (fusion_error r)
                else do c ← sys env (close r.ret); pure (checked c))
          else if file_type mode == 1
          then (do r ← sys env (mkfifo fpath mode); pure (checked r))
          else do r ← sys env (mknod fpath mode dev); pure (checked r)

    unfoldable pub fusion_fgetattr : Bytes → ℤ → Act S ℤ
    fusion_fgetattr path fh = do
      r ← sys env (fstat fh)
      fpath ← lift (fusion_fullpath ssd path)
      hdd_attributes fpath r.is_link (checked r)

    -- What the handler returns, and the DIR pointer, as an integer, that it keeps in `fi->fh`.
    unfoldable pub fusion_opendir : Zht S → Bytes → Act S (ℤ × ℤ)
    fusion_opendir zht path = do
      fpath ← lift (fusion_fullpath ssd path)
      v ← ask (zht.lookup path)
      elim v [ none ↦ pure tt | some res ↦ (do sys env (mkdir fpath 509); pure tt) ]
      dp ← sys env (opendir fpath)
      pure (if is_nat dp.ret 0 then fusion_error dp else pos 0, dp.ret)
