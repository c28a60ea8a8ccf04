-- ===== src/Cluster/Docker.antt =====
-- cluster/docker/cluster.go and cluster/docker/node.go: nodes that are Docker containers; and
-- internal/net/port.go, which finds the port of a container.
pub mod Laws
pub mod Setup
pub mod Agents
mod Tests
mod AgentsTests
use clustertest.Prelude.{
  Env, put, ℕ, ℤ, zero, suc, String, ◌<>◌, Bool, true, false, List, [], ◌∷◌, ◌++◌, Option, none,
  some, Error, wrap, str, int, Result, ok, err, length, itoa, str_eq, if◌then◌else◌,
}
use clustertest.Process.Types.{Bytes}
use clustertest.Agent.Certs.{Certs}
use clustertest.Cluster.Grow.{Grown, grow}

-- The arguments of `ContainerCreate` that depend on the cluster and the node.
pub record Container : Type 0 where
  pub name : String
  pub image : String
  pub entrypoint : List String
  pub binds : List String
  pub host_port : ℕ

-- The Docker daemon, the ports of the host, base64, and the clients of the node agents that run in
-- containers: `new_client` is `agent.NewClient` with the certificates, the IP, the port, and the
-- interval of `WithClientWaitInterval` in milliseconds.
pub record Host (K : Type 0) : Type 1 where
  pub State : Type 0
  pub Client : Type 0
  pub image_pull : String → State → Option Error × State
  pub read_response : State → Option Error × State
  pub resolve : State → Option Error
  pub listen : State → Result ℕ × State
  pub container_create : Container → State → Result String × State
  pub container_start : String → State → Option Error × State
  pub container_stop : String → State → Option Error × State
  pub container_remove : String → State → Option Error × State
  pub encode : Bytes → String
  pub new_client : Certs K → String → ℕ → ℕ → Result Client
  pub wait_for_server : Client → State → Option Error × State

-- `Node`, without the Docker client that all share; its `Env` stays empty.
pub record Node (C : Type 0) : Type 0 where
  pub id : ℕ
  pub container_name : String
  pub container_id : String
  pub host_port : ℕ
  pub agent_client : C

pub record Cluster (K C : Type 0) : Type 0 where
  pub certs : Certs K
  pub node_agent_bin : String
  pub base_image : String
  pub container_prefix : String
  pub nodes : List (Node C)
  pub image_pulled : Bool

-- What `NewNodes` leaves: its results, the cluster and the host.
pub record Outcome {K : Type 0} (H : Host K) : Type 0 where
  pub new : List (Node H.Client)
  pub error : Option Error
  pub cluster : Cluster K H.Client
  pub world : H.State

-- The name of the container of a node.
unfoldable pub container_name : String → ℕ → String
container_name prefix id = "clustertest-" <> prefix <> "-" <> itoa id

module _ {K : Type 0} (H : Host K) where
  -- `GetEphemeralTCPPort`
  unfoldable pub get_ephemeral_tcp_port : H.State → Result ℕ × H.State
  get_ephemeral_tcp_port s = elim (H.resolve s) [
    | some e ↦ (err (wrap "resolving localhost:0" [] e), s)
    | none ↦ elim (H.listen s).0 [
      | err e ↦ (err (wrap "listening to acquire port" [] e), (H.listen s).1)
      | ok port ↦ (ok port, (H.listen s).1)
    ]
  ]

  -- `ensureImagePulled`: the flag is set only when the response was read to its end.
  unfoldable pub ensure_image_pulled :
      Cluster K H.Client → H.State → (Option Error × Cluster K H.Client) × H.State
  ensure_image_pulled c s =
      if c.image_pulled then ((none, c), s) else elim (H.image_pull c.base_image s).0 [
        | some e ↦ ((some e, c), (H.image_pull c.base_image s).1)
        | none ↦
            let (e, t) = H.read_response (H.image_pull c.base_image s).1 in
            elim e [
              | some x ↦ ((some (wrap "reading Docker pull response" [] x), c), t)
              | none ↦ ((none, record c { image_pulled = true }), t)
            ]
      ]

  unfoldable pub container_of : Cluster K H.Client → ℕ → ℕ → Container
  container_of c id port = record {
    name = container_name c.container_prefix id;
    image = c.base_image;
    entrypoint =
        "/nodeagent"
        ∷ "--ca-cert-pem"
        ∷ H.encode c.certs.ca.cert_pem
        ∷ "--cert-pem"
        ∷ H.encode c.certs.server.cert_pem
        ∷ "--key-pem"
        ∷ H.encode c.certs.server.key_pem
        ∷ "--on-heartbeat-failure"
        ∷ "exit"
        ∷ "--listen-addr"
        ∷ "0.0.0.0:8080"
        ∷ [];
    binds = (c.node_agent_bin <> ":/nodeagent") ∷ [];
    host_port = port;
  }

  -- The last part of a round: the node of a container that runs.
  client_node : Cluster K H.Client → ℕ → ℕ → String → Result (Node H.Client)
  client_node c id port container = elim (H.new_client c.certs "127.0.0.1" port 100) [
    | err e ↦ err (wrap "building nodeagent client" [] e)
    | ok client ↦ ok (record {
      id = id;
      container_name = container_name c.container_prefix id;
      container_id = container;
      host_port = port;
      agent_client = client;
    })
  ]

  -- The middle of a round: the container is created and started.
  run_container : Cluster K H.Client → ℕ → ℕ → H.State → Result (Node H.Client) × H.State
  unfolding container_of client_node
  run_container c id port s =
      let (created, t) = H.container_create (container_of c id port) s in
      elim created [
        | err e ↦ (err (wrap "creating Docker container" [] e), t)
        | ok container ↦
            let (started, u) = H.container_start container t in
            elim started [
              | some e ↦ (err (wrap "starting container %q" (str container ∷ []) e), u)
              | none ↦ (client_node c id port container, u)
            ]
      ]

  -- A round of the loop of `NewNodes`.
  unfoldable pub make_node : Cluster K H.Client → ℕ → H.State → Result (Node H.Client) × H.State
  unfolding get_ephemeral_tcp_port run_container
  make_node c id s =
      let (port, t) = get_ephemeral_tcp_port s in
      elim port [
        | err e ↦ (err (wrap "acquiring ephemeral port" [] e), t)
        | ok p ↦ run_container c id p t
      ]

  -- The second loop: each new node is waited for, and the error of that is dropped.
  wait_all : List (Node H.Client) → H.State → H.State
  wait_all [] s = s
  wait_all (n ∷ nodes) s = wait_all nodes (H.wait_for_server n.agent_client s).1

  from_grown : Cluster K H.Client → Grown (Node H.Client) H.State → Outcome H
  unfolding wait_all
  from_grown c g = record {
    new = g.new_nodes;
    error = g.error;
    cluster = record c { nodes = g.nodes };
    world = wait_all g.new_nodes g.world;
  }

  -- `NewNodes`
  unfoldable pub new_nodes : ℕ → Cluster K H.Client → H.State → Outcome H
  unfolding ensure_image_pulled make_node from_grown
  new_nodes n c s =
      let ((e, d), t) = ensure_image_pulled c s in
      elim e [
        | some x ↦ record {
          new = [];
          error = some (wrap "pulling image" [] x);
          cluster = d;
          world = t;
        }
        | none ↦ from_grown d (grow (make_node d) n (length d.nodes) [] d.nodes t)
      ]

  -- `Cleanup`: the containers are stopped in turn, up to the first that cannot be.
  stop_all : List (Node H.Client) → H.State → Option Error × H.State
  stop_all [] s = (none, s)
  stop_all (n ∷ nodes) s = elim (H.container_stop n.container_id s).0 [
    | some e ↦ (
      some (wrap "stopping node %d" (int (ℤ.pos n.id) ∷ []) e),
      (H.container_stop n.container_id s).1,
    )
    | none ↦ stop_all nodes (H.container_stop n.container_id s).1
  ]

  unfoldable pub cleanup : Cluster K H.Client → H.State → Option Error × H.State
  unfolding stop_all
  cleanup c s = stop_all c.nodes s

  -- `Node.Stop`
  unfoldable pub stop : Node H.Client → H.State → Option Error × H.State
  stop n s =
      let (e, t) = H.container_remove n.container_id s in
      elim e [
        | some x ↦ (some (wrap "killing container %q" (str n.container_id ∷ []) x), t)
        | none ↦ (none, t)
      ]

unfoldable pub put_all : Env → Env → Env
unfolding put
put_all [] m = m
put_all ((k, v) ∷ l) m = put_all l (put k v m)

unfoldable pub show_all : Env → List String
show_all [] = []
show_all ((k, v) ∷ m) = (k <> "=" <> v) ∷ show_all m

-- `runEnv`: the request's variables override the node's.
unfoldable pub run_env : Env → Env → List String
unfolding put_all show_all
run_env node_env req_env = show_all (put_all req_env (put_all node_env []))
