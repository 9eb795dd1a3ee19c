-- ===== src/Cache/Lfu.antt =====
-- The least-frequently-used queue of src/util.c, in the order of the frequencies, the oldest first among
-- equals. Its search and removals are those of the LRU queue, on its own two ends.
pub mod Position
pub mod Inserting
pub mod Counting
use fusionfs_cache.Cache.Heap.{
  Ptr, null, Cmd, pure, crash, ◌>>=◌, ◌>>◌, load, set_next, set_prev, set_freq, insque,
}
use fusionfs_cache.Cache.Lru.{Lru, lru, findelem_lru, remque_lru, rmelem_lru}
use fusionfs_cache.Prelude.{
  ℕ, zero, suc, ◌+◌, Bool, true, false, not, ◌&&◌, ◌==◌, ltb, if◌then◌else◌, Bytes,
}

-- `lfu_head` and `lfu_tail`
abbrev pub Lfu : Type 0
Lfu = Lru

unfoldable pub findelem_lfu : ℕ → Lfu → Bytes → Cmd Ptr
findelem_lfu = findelem_lru

unfoldable pub remque_lfu : Lfu → Cmd Lfu
remque_lfu = remque_lru

unfoldable pub rmelem_lfu : ℕ → Lfu → Bytes → Cmd Lfu
rmelem_lfu = rmelem_lru

-- The loop of `get_pos_lfu`: where it stops, and whether by the break.
unfoldable pub pos_from : ℕ → ℕ → Ptr → Ptr → Cmd (Ptr × Bool)
unfolding load
pos_from zero freq q curr = crash
pos_from (suc k) freq q curr = do
  c ← load curr
  let rest = pos_from k freq q c.next
  if ltb freq c.file.freq
      then pure (curr, true)
      else (if c.next == q then pure (q, false) else rest)

-- The node in front of that place, NULL at the head.
unfoldable pub pos_prev : Lfu → Ptr × Bool → Cmd Ptr
pos_prev c r =
    if c.lru_head == r.0
    then pure (if r.1 then null else c.lru_tail)
    else do stop ← load r.0; pure stop.prev

unfoldable pub get_pos_lfu : ℕ → Lfu → Ptr → Cmd Ptr
get_pos_lfu k c elem = do
  e ← load elem
  r ← pos_from k e.file.freq c.lru_head c.lru_head
  pos_prev c r

-- The part of `insque_lfu` behind the removal of an older node.
unfoldable pub add_lfu : ℕ → Lfu → Ptr → Cmd Lfu
add_lfu k c elem =
    if c.lru_head == null
    then (do set_next elem elem; set_prev elem elem; insque elem elem; pure (lru elem elem))
    else do
      prev ← get_pos_lfu k c elem
      if prev == null then (do insque elem c.lru_tail; pure (lru elem c.lru_tail)) else do
        insque elem prev
        pure (lru c.lru_head (if c.lru_tail == prev then elem else c.lru_tail))

-- The older node of the name: the new one takes its frequency, and one more.
unfoldable pub replace_lfu : ℕ → Lfu → Ptr → Ptr → Cmd Lfu
replace_lfu k c elem found = do
  f ← load found
  set_freq elem (f.file.freq + 1)
  rmelem_lfu k c f.file.fname

-- The node `elem` is new, and has its file's name.
unfoldable pub insque_lfu : ℕ → Lfu → Ptr → Cmd Lfu
insque_lfu k c elem = do
  e ← load elem
  found ← findelem_lfu k c e.file.fname
  d ← if not (found == null) then replace_lfu k c elem found else pure c
  add_lfu k d elem
