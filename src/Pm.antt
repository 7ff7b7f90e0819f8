-- ===== src/Pm.antt =====
-- Package pm: the probabilistic micropayment protocol, by component.
pub mod Error
pub mod Ticket
pub mod Validator
pub mod Recipient
pub mod Sender
pub mod Monitor
pub mod Queue
mod Tests
