-- ===== src/Tests.antt =====
-- Runs of the definitions at concrete inputs, and each result at an input that meets its hypotheses.
pub mod Reading
pub mod Sending
pub mod Agents
pub mod Encoding
pub mod Checksum
pub mod Handlers
pub mod Lives
pub mod Latency
pub mod Forwarding
pub mod Stress
pub mod Nodes
pub mod Alerts
pub mod Requests
pub mod Pooling
pub mod Storing
pub mod Memory
pub mod Load
pub mod Objects
pub mod Pushing
