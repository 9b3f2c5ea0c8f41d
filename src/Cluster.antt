-- ===== src/Cluster.antt =====
-- Redis Cluster (redis-6.0.2/cluster_library.c, crc16.h).
pub mod Crc16
pub mod HashKey
pub mod Redirect
pub mod Slots
pub mod Send
pub mod Tests
pub mod Abort
