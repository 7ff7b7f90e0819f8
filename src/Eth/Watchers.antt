-- ===== src/Eth/Watchers.antt =====
-- eth/watchers: caches that follow the events of new and of removed blocks.
pub mod SenderWatcher
pub mod TimeWatcher
mod Tests
