-- ===== src/Notifications.antt =====
-- notifications: the metadata envelope, the ledger and the delivery of events.
pub mod Identifier
pub mod Event
pub mod Ledger
pub mod Notify
pub mod AtMostOnce
pub mod Refinement
mod Tests
