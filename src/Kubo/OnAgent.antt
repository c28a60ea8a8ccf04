-- ===== src/Kubo/OnAgent.antt =====
-- A Kubo node over a node with an agent: examples/kubo/kubo.go on cluster/docker/node.go, which has
-- no `Fetch`, and on cluster/aws/node.go, which has.
pub mod Loading
use clustertest.Prelude.{ℕ, ◌≡◌, String, Bool, true, false, Option, none, Error, ok}
use clustertest.Paths.{FilePath}
use clustertest.Agent.Http.{IsHonest, IsCalm}
use clustertest.Agent.Files.{Os, Disk, Web}
use clustertest.Agent.Client.{Link}
use clustertest.Cluster.Nodes.{
  AgentClient, beside, agent_node, docker_node, aws_node, agent_node-KeepsFiles,
}
use clustertest.Kubo.Node.{Host, host_of}
use clustertest.Kubo.Config.{
  Config, for_remote, Coder, IsInverse, read_config, configure_for_local, configure_for_remote,
  configured_twice,
}

-- The program's host, the node's files, its client's link and its client.
module _ (Own Remote : Os) (L : Link Remote) {Conn : Type 0}
    (C : AgentClient (Own.State × Remote.State) Conn) (show : FilePath → String)
    (stop : Own.State × Remote.State → Option Error × (Own.State × Remote.State)) where
  abbrev pub agent_host : Bool → Option Web → String → Host (beside Own Remote.State)
  agent_host caches W string = host_of show caches (agent_node Own Remote L C W stop string)

  -- A Docker node as the node under a Kubo node.
  abbrev pub docker_host : ℕ → Host (beside Own Remote.State)
  docker_host id = host_of show true (docker_node Own Remote L C id stop)

  -- An AWS node as the node under a Kubo node.
  abbrev pub aws_host : Web → String → String → String → Host (beside Own Remote.State)
  aws_host W region account instance_id =
      host_of show false (aws_node Own Remote L C W stop region account instance_id)

  -- On a node with an agent, over an honest network that fails no request, when `ConfigureForLocal`
  -- and then `ConfigureForRemote` return no error, the config file was readable, and is then what
  -- `ConfigureForRemote` alone makes of it.
  pub configured_twice_remotely :
      (D : Disk Remote) (caches : Bool) (W : Option Web) (string : String) {Rest : Type 0}
      (J : Coder (Config Rest)) (s : Own.State × Remote.State)
      → let H = agent_host caches W string in
        IsHonest L.transport
        → IsCalm L.transport
        → IsInverse J
        → (configure_for_local H J s).0 ≡ none
        → (configure_for_remote H J (configure_for_local H J s).1).0 ≡ none
        → let t = (configure_for_remote H J (configure_for_local H J s).1).1 in
          (c : Config Rest) × ((read_config H J s).0 ≡ ok c)
          × ((read_config H J t).0 ≡ ok (for_remote c))
  configured_twice_remotely D caches W string J s honest calm inverse =
      configured_twice (agent_host caches W string) J s
        (agent_node-KeepsFiles Own Remote L C D honest calm W stop string) inverse
