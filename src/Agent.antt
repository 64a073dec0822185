-- ===== src/Agent.antt =====
-- The agent control channel (src/agent): its wire protocol, and the agent's end of it.
pub mod Protocol
pub mod Reconnect
pub mod Channel
pub mod Writer
pub mod Terminal
pub mod Worker
