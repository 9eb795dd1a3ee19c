-- ===== src/Ffsnet/Sockets.antt =====
-- Which runs of the file transfer (ffsnet.cpp, ffsnetd.cpp) close their connection, and which end
-- without undefined behaviour.
use fusionfs_cache.Ffsnet.Client.{ffs_rmfile}
use fusionfs_cache.Ffsnet.Daemon.{
  in_buffer, transfile, serve, upload, download, remove_file, make_directory,
}
use fusionfs_cache.Io.{Reply, run, trace, result, closes}
use fusionfs_cache.Prelude.{
  ℕ, ◌<◌, ◌≡◌, refl, ◌∙◌, ltb, Bool-cases, inl, inr, true, false, not, ◌&&◌, none, some, arith,
  Bytes, if◌then◌else◌, ℤ, pos, is_neg, is_error, is_nat,
}

-- How often a served request closes the connection: a failed unlink closes once more.
abbrev pub expected_closes : (ℕ → Reply) → ℕ
expected_closes o =
    if is_error (o 0).ret
    then 0
    else if is_nat (o 0).num 2
        && not (is_error (o 1).ret)
        && not (is_error (o 2).ret)
        && is_neg (o 3).ret
    then 2
    else 1

upload-closes :
    (o : ℕ → Reply) (handle : ℤ)
    → (run o 1 (upload handle)).0 ≡ some tt
    → closes (run o 1 (upload handle)).1 ≡ 1
unfolding upload
upload-closes o handle h = ground arith

download-closes :
    (o : ℕ → Reply) (handle : ℤ)
    → (run o 1 (download handle)).0 ≡ some tt
    → closes (run o 1 (download handle)).1 ≡ 1
unfolding download
download-closes o handle h = ground arith

make_directory-closes :
    (o : ℕ → Reply) (handle : ℤ)
    → (run o 1 (make_directory handle)).0 ≡ some tt
    → closes (run o 1 (make_directory handle)).1 ≡ 1
unfolding make_directory
make_directory-closes o handle h = ground arith

remove_file-closes :
    (o : ℕ → Reply) (handle : ℤ)
    → (run o 1 (remove_file handle)).0 ≡ some tt
    → closes (run o 1 (remove_file handle)).1
      ≡ (if not (is_error (o 1).ret) && not (is_error (o 2).ret) && is_neg (o 3).ret then 2 else 1)
unfolding remove_file
remove_file-closes o handle h = ground arith

serve-closes :
    (o : ℕ → Reply) (handle kind : ℤ)
    → (run o 1 (serve handle kind)).0 ≡ some tt
    → closes (run o 1 (serve handle kind)).1 ≡ (
        if is_nat kind 2 && not (is_error (o 1).ret) && not (is_error (o 2).ret) && is_neg (o 3).ret
        then 2
        else 1)
unfolding serve
serve-closes o handle kind h = ground (
  arith,
  upload-closes o handle,
  download-closes o handle,
  make_directory-closes o handle,
  remove_file-closes o handle,
)

-- A request that the daemon serves without undefined behaviour closes its connection once, but
-- twice if the file to remove could not be unlinked, and not at all if its type did not arrive.
pub transfile-closes :
    (o : ℕ → Reply) (handle : ℤ)
    → result o (transfile handle) ≡ some tt
    → closes (trace o (transfile handle)) ≡ expected_closes o
unfolding transfile
transfile-closes o handle h = ground (arith, serve-closes o handle (o 0).num)

-- The daemon meets no undefined behaviour if the announced length of the path fits its buffer.
pub transfile-done :
    (o : ℕ → Reply) (handle : ℤ)
    → in_buffer (o 1).num ≡ true
    → result o (transfile handle) ≡ some tt
unfolding transfile serve upload download remove_file make_directory
transfile-done o handle h = ground arith

in_buffer-pos : (n : ℕ) → in_buffer (pos n) ≡ ltb n 1024
unfolding in_buffer
in_buffer-pos n = refl

-- A request of one of the four types whose path arrives, with `n` as its announced length, is served
-- without undefined behaviour if `n` is less than 1024; from 1024 on the daemon writes past its buffer.
pub transfile-overflow :
    (o : ℕ → Reply) (handle : ℤ) (kind n : ℕ)
    → is_error (o 0).ret ≡ false
    → (o 0).num ≡ pos kind
    → kind < 4
    → is_error (o 1).ret ≡ false
    → is_error (o 2).ret ≡ false
    → (o 1).num ≡ pos n
    → result o (transfile handle) ≡ (if ltb n 1024 then some tt else none)
unfolding transfile serve upload download remove_file make_directory
transfile-overflow o handle kind n h k lt a b e =
    let size : in_buffer (o 1).num ≡ ltb n 1024 = rw e (in_buffer-pos n) in
    elim (Bool-cases (ltb n 1024)) [
      | inl small ↦ rw small (transfile-done o handle (size ∙ small))
      | inr large ↦
          let past : in_buffer (o 1).num ≡ false = size ∙ large in rw large (ground (arith, past))
    ]

-- No run of a remove request closes the connection that it opened.
pub rmfile-never_closes :
    (o : ℕ → Reply) (ip port path : Bytes) → closes (trace o (ffs_rmfile ip port path)) ≡ 0
unfolding ffs_rmfile
rmfile-never_closes o ip port path = ground arith
