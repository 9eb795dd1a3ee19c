-- ===== src/Cache/Lru.antt =====
-- The least-recently-used queue of src/util.c: the oldest file at the head, the latest at the tail. The
-- two ends, fields of `struct fusion_state`, are passed in and returned.
pub mod Removing
pub mod Inserting
use fusionfs_cache.Cache.Heap.{
  Ptr, null, File, Cmd, pure, ◌>>=◌, ◌>>◌, load, set_next, set_prev, free, insque, remque,
}
use fusionfs_cache.Cache.Walk.{find_from}
use fusionfs_cache.Prelude.{ℕ, Bool, true, false, not, ◌==◌, if◌then◌else◌, Bytes}

pub record Lru : Type 0 where
  pub lru_head : Ptr
  pub lru_tail : Ptr

abbrev pub lru : Ptr → Ptr → Lru
lru q t = record { lru_head = q; lru_tail = t }

unfoldable pub findelem_lru : ℕ → Lru → Bytes → Cmd Ptr
findelem_lru k c fname =
    if c.lru_head == null then pure null else find_from k fname c.lru_head c.lru_head

-- An empty queue is reported by `fusion_error`, after which the code goes on.
unfoldable pub remque_lru : Lru → Cmd Lru
remque_lru c = do
  q ← load c.lru_head
  if c.lru_head == q.next
      then (do remque c.lru_head; free c.lru_head; pure (lru null null))
      else do remque c.lru_head; free c.lru_head; pure (lru q.next c.lru_tail)

unfoldable pub rmelem_lru : ℕ → Lru → Bytes → Cmd Lru
rmelem_lru k c fname = if c.lru_head == null then pure c else do
  found ← findelem_lru k c fname
  if found == null
      then pure c
      else (if found == c.lru_head then remque_lru c else do
        f ← load found
        remque found
        free found
        pure (lru c.lru_head (if found == c.lru_tail then f.prev else c.lru_tail)))

-- Add the node to the tail.
unfoldable pub add_lru : Lru → Ptr → Cmd Lru
add_lru d elem =
    if d.lru_head == null
    then (do set_next elem elem; set_prev elem elem; insque elem elem; pure (lru elem elem))
    else do insque elem d.lru_tail; pure (lru d.lru_head elem)

-- The node `elem` is new, and has its file's name.
unfoldable pub insque_lru : ℕ → Lru → Ptr → Cmd Lru
insque_lru k c elem = do
  e ← load elem
  found ← findelem_lru k c e.file.fname
  d ← if not (found == null) then rmelem_lru k c e.file.fname else pure c
  add_lru d elem
