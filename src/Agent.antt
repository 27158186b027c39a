-- ===== src/Agent.antt =====
-- internal/agent: who may do what. Log lines are left out.
pub mod Authorize
pub mod Replay
mod Examples
