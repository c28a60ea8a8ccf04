-- ===== src/Cluster/Docker/Agents.antt =====
-- The agent that runs in a Docker node's container: the entrypoint of cluster/docker/cluster.go, read
-- by the command of cmd/agent/main.go; and its trust in the client that `NewNodes` makes.
use clustertest.Prelude.{
  true, ◌≡◌, refl, ap, sym, ◌∙◌, ℕ, ◌≤◌, ◌<◌, ◌+◌, String, ◌<>◌, itoa, [], ◌∷◌, Option, some, Error,
  Result, ok, Env, arith,
}
use clustertest.Process.Types.{Bytes}
use clustertest.Agent.Certs.{Crypto, Certs, returns, generate_certs}
use clustertest.Agent.Certs.Laws.{IsSigned}
use clustertest.Agent.Link.{
  Tls, TlsConfig, Client, new_client, with_client_wait_interval, new_client_ok, server_tls_config,
  tls_config-IsSigned,
}
use clustertest.Agent.Heartbeat.{Agent, Reach}
use clustertest.Agent.Heartbeat.Silence.{Quiet, HasStarted, HasAlarm}
use clustertest.Agent.Main.{NodeAgent, exits, failure_handler}
use clustertest.Agent.App.{Parser, ReadsFlags, acts, agent_of}
use clustertest.Agent.App.Laws.{heart_of, heart_of-HasAlarm, agent_of-given_args}
use clustertest.Cluster.Docker.{Host, Node, Cluster, container_of, make_node}
use clustertest.Cluster.Docker.Laws.{make_node-IsClientOf}

-- The values that the entrypoint gives to the agent's flags.
abbrev given : {K : Type 0} → Host K → Certs K → Env
given H certs =
    ("ca-cert-pem", H.encode certs.ca.cert_pem)
    ∷ ("cert-pem", H.encode certs.server.cert_pem)
    ∷ ("key-pem", H.encode certs.server.key_pem)
    ∷ ("on-heartbeat-failure", "exit")
    ∷ ("listen-addr", "0.0.0.0:8080")
    ∷ []

-- The host where the clients of the agents are those of `NewClient`.
abbrev pub with_clients :
    {K : Type 0} (T : Tls) (H : Host K) → (Client T → H.State → Option Error × H.State) → Host K
with_clients T H wait = record H {
  Client = Client T;
  new_client = λ certs ip port d. new_client T certs ip port (with_client_wait_interval T d ∷ []);
  wait_for_server = wait;
}

-- The agent of a cluster with these certificates: it exits on a heartbeat failure, after a minute.
abbrev pub agent_with : Bytes → Bytes → Bytes → NodeAgent
agent_with ca cert key = record {
  ca_cert_pem = ca;
  cert_pem = cert;
  key_pem = key;
  heartbeat_failure_handler = some exits;
  heartbeat_timeout = 60000;
  listen_addr = "0.0.0.0:8080";
}

module _ (parse : Parser) (decode : String → Result Bytes) (parse_duration : String → Result ℕ)
    (reads : ReadsFlags parse) (minute : parse_duration "1m" ≡ ok 60000) {K : Type 0} (H : Host K)
    (inverse : (b : Bytes) → decode (H.encode b) ≡ ok b) (c : Cluster K H.Client) where
  -- From the entrypoint of a container the command builds the agent with the cluster's certificates
  -- of the CA and of the server, the handler that
  -- exits, the timeout of a minute, and the port that the container exposes.
  pub agent_of-container_of :
      (id port : ℕ)
      → agent_of parse decode parse_duration (container_of H c id port).entrypoint
        ≡ acts (agent_with c.certs.ca.cert_pem c.certs.server.cert_pem c.certs.server.key_pem)
  unfolding container_of failure_handler
  agent_of-container_of id port =
      agent_of-given_args parse decode parse_duration "/nodeagent" (given H c.certs)
        (agent_with c.certs.ca.cert_pem c.certs.server.cert_pem c.certs.server.key_pem) reads refl
        refl refl minute refl (inverse _) (inverse _) (inverse _)

  -- The agent that runs in a container exits if no heartbeat comes: it calls its handler by the
  -- third action of its goroutine after more than a minute has passed since the last one.
  pub container_of-HasAlarm :
      (id port : ℕ) (n : NodeAgent) (time i k : ℕ) (a b d : Agent)
      → agent_of parse decode parse_duration (container_of H c id port).entrypoint ≡ acts n
      → Reach (heart_of n time) a
      → HasStarted a.check
      → Quiet a i b
      → a.last_heartbeat + 60000 < b.now
      → Quiet b k d
      → 3 ≤ k
      → (n.heartbeat_failure_handler ≡ some exits) × HasAlarm d.alarms
  container_of-HasAlarm id port n time i k a b d built run started before late after enough =
      let known : agent_with c.certs.ca.cert_pem c.certs.server.cert_pem c.certs.server.key_pem
          ≡ n =
        ground (arith, built, agent_of-container_of id port) in
      let set = ap (λ x. x.heartbeat_failure_handler) (sym known) in
      (
        set,
        heart_of-HasAlarm n exits time i k a b d set run started before
            (rw (ap (λ x. x.heartbeat_timeout) (sym known)) late) after enough,
      )

module _ (parse : Parser) (decode : String → Result Bytes) (parse_duration : String → Result ℕ)
    (reads : ReadsFlags parse) (minute : parse_duration "1m" ≡ ok 60000) (C : Crypto) (T : Tls)
    (H : Host C.CaKey) (inverse : (b : Bytes) → decode (H.encode b) ≡ ok b)
    (wait : Client T → H.State → Option Error × H.State) (c : Cluster C.CaKey (Client T)) where
  -- A round of `NewNodes`, in a cluster whose certificates `GenerateCerts` gave, that makes a node, and
  -- the agent that the command builds from the entrypoint of the node's container, where its server
  -- gets a TLS configuration: the node's client connects to the port of the container on the loopback
  -- address, and the two trust each other. Each presents a certificate that is signed by the one CA,
  -- each takes that CA for the other, and the agent requires a certificate.
  pub container_of-IsSigned :
      (random : C.State) (id : ℕ) (s : H.State) (node : Node (Client T)) (n : NodeAgent)
      (server : TlsConfig T.Pool T.Pair)
      → (generate_certs C random).0 ≡ returns c.certs
      → (make_node (with_clients T H wait) c id s).0 ≡ ok node
      → agent_of parse decode parse_duration
          (container_of (with_clients T H wait) c id node.host_port).entrypoint
        ≡ acts n
      → server_tls_config T n.ca_cert_pem n.cert_pem n.key_pem ≡ ok server
      → let client = node.agent_client.tls_config in
        (node.agent_client.dial_addr ≡ "127.0.0.1" <> ":" <> itoa node.host_port)
        × IsSigned C c.certs.ca c.certs.client
        × IsSigned C c.certs.ca c.certs.server
        × (client.root_cas ≡ some (T.append_certs c.certs.ca.cert_pem))
        × (server.client_cas ≡ client.root_cas)
        × (server.requires_client_cert ≡ true)
        × (T.x509_key_pair c.certs.client.cert_pem c.certs.client.key_pem ≡ ok client.certificate)
        × (T.x509_key_pair c.certs.server.cert_pem c.certs.server.key_pem ≡ ok server.certificate)
  container_of-IsSigned random id s node n server made round built serves =
      let known : agent_with c.certs.ca.cert_pem c.certs.server.cert_pem c.certs.server.key_pem
          ≡ n =
        ground (
          arith,
          built,
          agent_of-container_of parse decode parse_duration reads minute (with_clients T H wait)
              inverse c id node.host_port,
        ) in
      let (config, address, interval) =
        new_client_ok T c.certs "127.0.0.1" node.host_port 100 node.agent_client
          (make_node-IsClientOf (with_clients T H wait) c id s node round) in
      let (signed_client, signed_server, roots, cas, required, pair, server_pair) =
        tls_config-IsSigned T C random c.certs node.agent_client.tls_config server made config
          (ap (λ x. server_tls_config T x.ca_cert_pem x.cert_pem x.key_pem) known ∙ serves) in
      (address, signed_client, signed_server, roots, cas, required, pair, server_pair)
