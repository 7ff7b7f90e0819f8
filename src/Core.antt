-- ===== src/Core.antt =====
-- Package core: the node's accounting and the orchestrator.
pub mod Accounting
pub mod Capabilities
pub mod LoadBalancer
pub mod Orchestrator
pub mod Playlist
pub mod RemoteTranscoders
mod Tests
