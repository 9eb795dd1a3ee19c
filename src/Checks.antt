-- ===== src/Checks.antt =====
-- Tests and examples of the development: its definitions at concrete inputs.
pub mod Packing
pub mod Tables
pub mod Servers
pub mod Members
pub mod Reading
pub mod Transfers
pub mod Queues
pub mod Directories
pub mod Handlers
pub mod Rooms
pub mod Files
pub mod Entries
