-- ===== src/AgentToAgent.antt =====
-- Messages between agents: src/modules/agent-to-agent/.
pub mod Destinations
pub mod Route
pub mod SpawnCap
pub mod Carrying
pub mod Depth
pub mod Projection
pub mod Visibility
