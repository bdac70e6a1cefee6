-- ===== src/Bridge.antt =====
-- main_agent_bridge: the controller of one dedicated thread, its event store and its ledger.
pub mod Contracts
pub mod Store
pub mod Specs
pub mod Dispatcher
pub mod Controller
mod Tests
