-- ===== src/Lib.antt =====
-- clustertest: a framework that runs tests on clusters of nodes (pironc/clustertest).
--
-- A test asks a cluster for nodes. Each node runs a node agent, an HTTP server that stores and
-- gives files, fetches URLs, runs processes and counts heartbeats; the cluster hands out nodes
-- whose methods call the agent's client. A process's input and output are streamed as JSON
-- messages over a WebSocket connection between agent/process/client.go and
-- agent/process/server.go.
--
-- Process (agent/process): `Process.Client` is `clientProcRunner` and `Process.Server` is
-- `serverProcRunner`, each a state with the program counter of `readMessages`, whose goroutines
-- take turns in any order (`Step`, `Reach`). `Process.Sink` is a channel with the goroutine that
-- writes what it receives (readStdout, readStderr, readStdin); `Process.Writer` is wsJSONWriter
-- with the copy of stdin; `Process.Session` joins a client and a server by the messages that one
-- sent and the other received. The log of past messages and answers in a state is no field of
-- the program: it records what has happened.
-- Agent (agent, cmd/agent): `Agent.Files` and `Agent.Command` are the handlers of agent.go,
-- `Agent.Connect` is its `connect`, with a copy in each direction, `Agent.Link` is `NewClient`,
-- the TLS configurations of tls.go and the server that `Run` runs, `Agent.Client` has the
-- requests of client.go, `Agent.Store` puts them in sequence, `Agent.Heartbeat` is the heartbeat
-- check on a clock, `Agent.Certs` the rest of tls.go, `Agent.Main` the action of
-- cmd/agent/main.go and `Agent.App` its flags, its help, `Run` and the exit code.
-- Files (internal/files/findup.go): the search for the agent's binary, on the paths of `Paths`.
-- Cluster (cluster): the interface of a cluster and the wrapper of basic.go, whose `New` is
-- `Cluster.Basic`; `Cluster.Nodes` is the interface of a node in node.go with the three kinds of
-- node, a Docker or AWS one calling its agent's client. `Cluster.Local` is cluster/local, whose
-- processes are `Cluster.Local.Proc` and whose files `Cluster.Local.NodeFiles`; `Cluster.Docker`
-- is cluster/docker with internal/net/port.go; `Cluster.Grow` is the loop that both make nodes
-- with. `Cluster.Aws` is cluster/aws: `Setup` is `NewCluster`, `Instances` is `NewNodes`,
-- `Polling` its wait for EC2, `Heartbeats` its wait for the nodes, whose goroutines take turns
-- by a list of events, `Node` the heartbeats that a user starts, `Outputs` is cfn.go.
-- `Cluster.Docker.Agents` and `Cluster.Aws.Agents` are the agents that a container's entrypoint
-- and an instance's user data start; `Cluster.Aws.Beats` has the loop of `StartHeartbeat` and the
-- agent's check on one clock. `Cluster.Startup` has what the `NewCluster` functions share.
-- Kubo (examples/kubo): nodes that run Kubo, on top of a cluster. `Kubo.Versions` and
-- `Kubo.Archive` are kubo_versions.go; of kubo.go `Kubo.Nodes` makes nodes, `Kubo.Node` runs
-- commands and loads the binary, `Kubo.Api` waits for the daemon, `Kubo.Clients` has the RPC
-- clients, `Kubo.Addrs` the filter of addresses, `Kubo.Config` the config file, and
-- `Kubo.OnLocal` and `Kubo.OnAgent` put a Kubo node on a local one and on one with an agent.
-- Prelude: what all share: tests on numbers, lists over them, errors, texts of numbers, Go maps.
--
-- What lies outside the repository is an argument: the connection, the operating system, Docker,
-- the AWS services, cryptography, the retrying HTTP client and the router, each a record of
-- operations on a state of its own. Where a theorem needs what such a thing promises, the
-- promise is a hypothesis or a record of laws: `IsFaithful` is a connection that loses no
-- message, `IsHonest` and `IsCalm` are a transport that gives a handler's own response and one
-- that fails nothing, `Disk` has files that hold what was written, `NeverFull` is a disk with
-- room, `StatsFiles` an `os.Stat` that finds the files, `IsInverse` a decoder that reads what
-- the encoder wrote, `Frame` a disk whose operations leave the other files, `OnlyTries` a client
-- that only repeats a request, `ReadsFlags` a parser that gives flags the values they are given.
--
-- Bounds: `FindUp` is given one round for each name of the path and one more, which is enough,
-- since each round drops a name. `WaitOnAPI` has the 500 checks of the source. The other polling
-- loops run over the list of the answers that come, and tell apart that they still wait. `int`
-- is ℤ, lengths and times are natural numbers; the program does no arithmetic on them that comes
-- near a machine word's end.
--
-- Not modelled: logging, what an HTTP client or a WebSocket connection does inside, the retries of
-- the HTTP client, the buffers of a daemon's output, what nothing uses (cmdResultWaiter,
-- BasicRunResult, collectPagesWithContext), how a shell reads the user data, and the deployment
-- stack in TypeScript.
pub mod Prelude
pub mod Process
pub mod Paths
pub mod Files
pub mod Cluster
pub mod Agent
pub mod Kubo
