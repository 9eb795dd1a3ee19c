-- ===== src/Fusion.antt =====
-- The FUSE side of FusionFS (src/fusion.c, src/util.c): the handlers over the calls of the system, the
-- file transfer, ZHT and the clock queue.
pub mod Os
pub mod Paths
pub mod Directory
pub mod Disk
pub mod Room
pub mod Redirect
pub mod Descriptors
pub mod Entries
pub mod Files
pub mod Mount
