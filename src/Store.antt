-- ===== src/Store.antt =====
-- The durable stores: signald/stores.py and signald/inbox.py.
pub mod Audit
pub mod Inbox
pub mod Journal
pub mod KillSwitch
