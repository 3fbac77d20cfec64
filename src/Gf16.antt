-- ===== src/Gf16.antt =====
-- gf16/gf16.go: arithmetic in GF(2^16), one module for each group of functions.
pub mod Poly
pub mod Tables
pub mod MulTable
pub mod Nibbles
pub mod Slice
pub mod Field
