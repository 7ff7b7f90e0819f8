-- ===== src/Server.antt =====
-- Package server: the broadcaster's choice of orchestrators.
pub mod Selection
pub mod SessionPool
pub mod SessionsManager
pub mod Suspensions
mod Tests
