-- ===== src/Agent.antt =====
-- agent and cmd/agent: the node agent, an HTTP server, and its client.
pub mod Http
pub mod Files
pub mod Client
pub mod RoundTrip
pub mod Fetching
pub mod Store
pub mod Heartbeat
pub mod Command
pub mod Connect
pub mod Link
pub mod Main
pub mod App
pub mod Certs
pub mod Waiting
pub mod Samples
mod Tests
mod LinkTests
mod StoreTests
mod AppTests
