-- ===== src/Server.antt =====
-- The server (src/server): connected agents, in-flight capture jobs with their uploads, and the
-- reading of results.
pub mod AgentEntry
pub mod Agents
pub mod Job
pub mod Tasks
pub mod Outcome
pub mod Upload
pub mod Download
pub mod Response
pub mod Sessions
