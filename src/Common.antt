-- ===== src/Common.antt =====
-- common.h: helpers of the whole library.
pub mod BitField
pub mod Escape
