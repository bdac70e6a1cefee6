-- ===== src/Runtime.antt =====
-- agent_harness/runtime_contract.py: the interpretation of an agent's event stream and output.
pub mod Lifecycle
pub mod Output
pub mod Activity
pub mod Coverage
mod Tests
