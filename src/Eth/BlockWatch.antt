-- ===== src/Eth/BlockWatch.antt =====
-- Package eth/blockwatch: the chain of block headers that the node follows.
pub mod Stack
pub mod Watcher
pub mod Logs
pub mod Backfill
mod Tests
