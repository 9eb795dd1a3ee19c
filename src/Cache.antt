-- ===== src/Cache.antt =====
-- The cache of a FusionFS node: the queues that decide which file leaves the SSD (src/clock.c and the
-- second half of src/util.c).
pub mod Heap
pub mod Ring
pub mod Names
pub mod Marks
pub mod Chance
pub mod Chosen
pub mod Request
pub mod Walk
pub mod Protection
pub mod Clock
pub mod Lru
pub mod Lfu
