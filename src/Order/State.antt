-- ===== src/Order/State.antt =====
-- The order state machine over broker trade updates: signald/order/state.py.
mod Types
mod Coerce
mod Apply
mod Stream
mod Tests
pub mod Judged
pub mod Evolution
pub mod Effect
pub mod Invariant
pub use Types.*
unfoldable pub use Coerce.*
unfoldable pub use Apply.*
unfoldable pub use Stream.*
