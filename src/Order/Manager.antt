-- ===== src/Order/Manager.antt =====
-- The order manager: signald/order/manager.py.
pub mod Session
pub mod Broker
pub mod Actions
pub mod Pending
pub mod Quiet
pub mod Protocol
pub mod Recovery
pub mod Retried
mod Tests
