-- ===== src/Notifications.antt =====
-- portal/notify.py: the ledger of messages to one channel, and their delivery.
pub mod Ledger
pub mod Notifier
pub mod Delivery
pub mod Bounded
pub mod Runs
pub mod Events
pub mod Sending
pub mod Threads
mod Tests
