-- ===== src/Rs.antt =====
-- The package rs, which is in the directory rs/.
pub mod Split
pub mod Shards
pub mod Lengths
pub mod Matrix
pub mod Coder
