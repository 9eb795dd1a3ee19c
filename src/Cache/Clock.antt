-- ===== src/Cache/Clock.antt =====
-- The clock queue of src/clock.c. The hand (`victim`) and the ends of the queue, fields of `struct
-- fusion_state`, are passed in and returned; the loops run on fuel.
pub mod Invariant
pub mod Removal
pub mod Places
pub mod Search
pub mod Removing
pub mod Turning
pub mod Evicting
pub mod Inserting
pub mod NewFile
pub mod Requesting
pub mod Safety
pub mod Fresh
use fusionfs_cache.Cache.Heap.{
  Ptr, null, File, Cmd, pure, crash, ◌>>=◌, ◌>>◌, load, alloc, set_next, set_prev, set_ref_bit,
  free,
}
use fusionfs_cache.Cache.Walk.{find_from, walk}
use fusionfs_cache.Prelude.{
  ℕ, zero, suc, Bool, true, false, not, ◌==◌, leb, if◌then◌else◌, Bytes, eqb, length,
}

pub record Clock : Type 0 where
  pub clock_head : Ptr
  pub clock_tail : Ptr
  pub victim : Ptr

abbrev pub clock : Ptr → Ptr → Ptr → Clock
clock q t v = record { clock_head = q; clock_tail = t; victim = v }

-- sizeof ((inode_t *) 0)->fname
abbrev pub name_max : ℕ
name_max = 255

unfoldable pub findelem_clock : ℕ → Clock → Bytes → Cmd Ptr
unfolding find_from
findelem_clock k c fname =
    if c.clock_head == null then pure null else find_from k fname c.clock_head c.clock_head

unfoldable pub ins_Q : Clock → Ptr → Cmd Clock
unfolding load set_next set_prev
ins_Q c elem =
    if not (c.victim == null)
    then (do
      v ← load c.victim
      set_next v.prev elem
      set_next elem c.victim
      set_prev c.victim elem
      set_prev elem v.prev
      pure (clock (if c.victim == c.clock_head then elem else c.clock_head) c.clock_tail c.victim))
    else do
      set_prev elem c.clock_tail
      t ← load c.clock_tail
      set_next elem t.next
      set_next c.clock_tail elem
      set_prev c.clock_head elem
      pure (clock c.clock_head elem c.victim)

unfoldable pub rem_Q : Clock → Ptr → Cmd Clock
unfolding load set_next set_prev free
rem_Q c elem = do
  e ← load elem
  if elem == e.next then (do free elem; pure (clock null null null)) else do
    set_next e.prev e.next
    set_prev e.next e.prev
    free elem
    pure (
        clock (if elem == c.clock_head then e.next else c.clock_head)
          (if elem == c.clock_head
            then c.clock_tail
            else if elem == c.clock_tail
            then e.prev
            else c.clock_tail)
          (if c.victim == elem then e.next else c.victim))

-- A file that is not in the queue: its node is allocated at `elem`. A name of `NAME_MAX` bytes or more
-- overflows the node's array. The code leaves `freq` as malloc gave it, and the clock queue never reads it.
unfoldable pub insert_file : Clock → Ptr → Bytes → Cmd Clock
insert_file c elem fname = if leb name_max (length fname) then crash else do
  alloc elem (record { fname = fname; freq = 0; ref_bit = 1 })
  if c.clock_head == null
      then (do set_next elem elem; set_prev elem elem; pure (clock elem elem c.victim))
      else ins_Q c elem

unfoldable pub insque_clock : ℕ → Clock → Ptr → Bytes → Cmd Clock
insque_clock k c elem fname = do
  found ← findelem_clock k c fname
  d ← if not (found == null) then (do set_ref_bit found 1; pure c) else insert_file c elem fname
  walk k d.clock_head d.clock_head
  pure d

-- while(1) of `remque_clock`
unfoldable pub find_victim : ℕ → Clock → Cmd (Bytes × Clock)
find_victim zero c = crash
find_victim (suc k) c = do
  v ← load c.victim
  let rest = find_victim k (clock c.clock_head c.clock_tail v.next)
  if v.file.ref_bit == 0
      then (do d ← rem_Q c c.victim; pure (v.file.fname, d))
      else do set_ref_bit c.victim 0; rest

-- An empty queue is reported by `fusion_error`, after which the code goes on. The result's name is what
-- the caller's buffer `fname` receives.
unfoldable pub remque_clock : ℕ → Clock → Cmd (Bytes × Clock)
remque_clock k c = do
  let c1 = clock c.clock_head c.clock_tail (if c.victim == null then c.clock_head else c.victim)
  v ← load c1.victim
  if c1.victim == v.next
      then (do d ← rem_Q c1 c1.victim; pure (v.file.fname, d))
      else do r ← find_victim k c1; walk k r.1.clock_head r.1.clock_head; pure r

unfoldable pub rmelem_clock : ℕ → Clock → Bytes → Cmd Clock
rmelem_clock k c fname =
    if c.clock_head == null
    then pure c
    else do found ← findelem_clock k c fname; if not (found == null) then rem_Q c found else pure c
