-- ===== src/Cache/Heap.antt =====
-- The nodes of the cache queues, `struct _inode_t` of src/params.h, at addresses. A command reads and
-- writes nodes; `none` is a fault, the use of NULL or of freed memory, or a loop longer than its fuel.
use fusionfs_cache.Prelude.{ℕ, Option, none, some, ◌==◌, if◌then◌else◌, Bytes}

abbrev pub Ptr : Type 0
Ptr = ℕ

abbrev pub null : Ptr
null = 0

-- What a node says of a cached file.
pub record File : Type 0 where
  pub fname : Bytes
  pub freq : ℕ
  pub ref_bit : ℕ

-- `inSSD` and `atime` are never used.
pub record INode : Type 0 where
  pub next : Ptr
  pub prev : Ptr
  pub file : File

abbrev pub inode : Ptr → Ptr → File → INode
inode q b f = record { next = q; prev = b; file = f }

abbrev pub Heap : Type 0
Heap = Ptr → Option INode

unfoldable pub write : Heap → Ptr → Option INode → Heap
write h p n a = if a == p then n else h a

abbrev pub Cmd : Type 0 → Type 0
Cmd A = Heap → Option (A × Heap)

abbrev pub pure : {A : Type 0} → A → Cmd A
pure a h = some (a, h)

abbrev pub crash : {A : Type 0} → Cmd A
crash h = none

module _ {A B : Type 0} where
  abbrev pub continue : (A → Cmd B) → Option (A × Heap) → Option (B × Heap)
  continue k none = none
  continue k (some (a, h)) = k a h

  infixl 5 ◌>>=◌ ◌>>◌
  abbrev pub ◌>>=◌ : Cmd A → (A → Cmd B) → Cmd B
  (m >>= k) h = continue k (m h)

  abbrev pub ◌>>◌ : Cmd A → Cmd B → Cmd B
  (m >> n) h = continue (λ _. n) (m h)

unfoldable pub load : Ptr → Cmd INode
load p h = if p == null then none else elim (h p) [ none ↦ none | some n ↦ some (n, h) ]

abbrev put_node : Ptr → Option INode → Cmd (Unit {0})
put_node p n h = some (tt, write h p n)

-- malloc at the address `p`, with the file name and the other fields that the caller stores
unfoldable pub alloc : Ptr → File → Cmd (Unit {0})
alloc p f = put_node p (some (inode null null f))

unfoldable pub set_next : Ptr → Ptr → Cmd (Unit {0})
unfolding load
set_next p q = do n ← load p; put_node p (some (record n { next = q }))

unfoldable pub set_prev : Ptr → Ptr → Cmd (Unit {0})
unfolding load
set_prev p q = do n ← load p; put_node p (some (record n { prev = q }))

unfoldable pub set_ref_bit : Ptr → ℕ → Cmd (Unit {0})
unfolding load
set_ref_bit p b = do
  n ← load p
  put_node p (some (record n { file = record n.file { ref_bit = b } }))

unfoldable pub set_freq : Ptr → ℕ → Cmd (Unit {0})
unfolding load
set_freq p b = do n ← load p; put_node p (some (record n { file = record n.file { freq = b } }))

unfoldable pub free : Ptr → Cmd (Unit {0})
unfolding load
free p = do n ← load p; put_node p none

-- insque and remque of <search.h>
unfoldable pub insque : Ptr → Ptr → Cmd (Unit {0})
unfolding load set_next set_prev
insque elem prev = do
  p ← load prev
  set_next prev elem
  set_next elem p.next
  set_prev p.next elem
  set_prev elem prev

unfoldable pub remque : Ptr → Cmd (Unit {0})
unfolding load set_next set_prev
remque elem = do e ← load elem; set_next e.prev e.next; set_prev e.next e.prev
