-- ===== src/Risk/Gate.antt =====
-- The house risk gate: signald/risk/gate.py.
pub mod Context
pub mod Projection
pub mod Capital
pub mod Market
pub mod Data
pub mod Evaluate
pub mod Sized
pub mod Bounds
pub mod Verdict
pub mod Limits
pub mod Closed
mod Tests
