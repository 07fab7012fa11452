-- ===== src/Storage.antt =====
-- storage/: file contents on the local disk, under their content hashes.
pub mod Paths
pub mod Disk
pub mod Local
pub mod Oss
pub mod Interleaving
