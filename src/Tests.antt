-- ===== src/Tests.antt =====
-- The theorems at concrete images, buffers and caches.
pub mod Util
pub mod Ims
pub mod Options
pub mod Ffff
pub mod Tftf
pub mod CreateTftf
pub mod CreateFfff
pub mod S2config
