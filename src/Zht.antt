-- ===== src/Zht.antt =====
-- ZHT, the distributed hash table that holds the metadata: src/zht.
pub mod Package
pub mod Hashing
pub mod Members
pub mod Config
pub mod Server
pub mod Client
pub mod Interface
