-- ===== src/Agent.antt =====
-- tools/src/exo_tools/agent_core: the core of the agent server.
pub mod Auth
pub mod RateLimit
mod Samples
