-- ===== src/Kubo.antt =====
-- examples/kubo: a cluster whose nodes run Kubo, on top of the clusters.
pub mod Versions
pub mod Archive
pub mod Node
pub mod Addrs
pub mod Api
pub mod Config
pub mod OnAgent
pub mod OnLocal
pub mod Clients
pub mod Nodes
mod Tests
mod NodeTests
mod LocalTests
mod AgentTests
