-- ===== src/Risk.antt =====
-- The risk engines and the house gate, signald/risk/.
pub mod Ladder
pub mod State
pub mod Sizing
pub mod Gate
