-- ===== src/Tests.antt =====
-- The theorems at concrete inputs, and runs of the definitions.
mod Bytes
mod Field
mod Packets
mod Files
mod Shards
mod Matrices
mod Repairs
mod Scans
