-- ===== src/Util.antt =====
-- src/common/util.c: the helpers on addresses, buffers, text and words that the tools share.
pub mod Boundary
pub mod Overlap
pub mod Fill
pub mod Hamming
pub mod Text
