-- ===== src/Eth.antt =====
-- Package eth: the node's view of the chain.
pub mod BlockWatch
pub mod NonceManager
pub mod RoundInitializer
pub mod TransactionManager
pub mod Types
pub mod Watchers
mod Tests
