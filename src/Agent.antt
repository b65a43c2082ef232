-- ===== src/Agent.antt =====
-- backend/app/agent: the bounded investigation.
pub mod Types
pub mod Knowledge
pub mod Validation
pub mod Policy
pub mod Llm
pub mod Context
pub mod Orchestrator
pub mod Samples
