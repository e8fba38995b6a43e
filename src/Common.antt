-- ===== src/Common.antt =====
-- src/common.
pub mod Encrypt
pub mod Settings
