-- ===== src/Agent.antt =====
-- pkg/agent/agent.go: one client connection.
pub mod Reader
pub mod Outbox
pub mod Life
pub mod Exit
