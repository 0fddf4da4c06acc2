-- ===== src/Api.antt =====
-- The control surface, signald/api/.
pub mod Signing
