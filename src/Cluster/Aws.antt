-- ===== src/Cluster/Aws.antt =====
-- cluster/aws: nodes that are EC2 instances.
pub mod Heartbeats
pub mod Polling
pub mod Instances
pub mod Node
pub mod Setup
pub mod Agents
pub mod Beats
pub mod Outputs
mod Tests
mod SetupTests
mod AgentsTests
