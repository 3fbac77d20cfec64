-- ===== src/Par2.antt =====
-- The package par2, which is in the directory par2/.
pub mod Bytes
pub mod FileId
pub mod Names
pub mod Packet
pub mod FileDesc
pub mod Decoder
pub mod Counts
pub mod Index
pub mod Repair
pub mod Scan
