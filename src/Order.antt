-- ===== src/Order.antt =====
-- The paper order path, signald/order/.
pub mod State
pub mod Halts
pub mod Intent
pub mod Prices
pub mod Guard
pub mod Manager
pub mod Policy
pub mod Stops
pub mod Flatten
