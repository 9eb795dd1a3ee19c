-- ===== src/Novoht.antt =====
-- NoVoHT, the persistent hash table under each ZHT server: src/zht/src/common/novoht.cpp and
-- src/zht/inc/novoht.h.
pub mod Hash
pub mod Chain
pub mod Disk
pub mod Table
pub mod Placed
pub mod Resize
pub mod Saved
pub mod Refines
pub mod History
pub mod Reload
