-- ===== src/Cluster/Docker/AgentsTests.antt =====
-- An agent in a container whose heartbeats stop, and the theorems there.
use clustertest.Prelude.{
  ◌<>◌, itoa, true, ◌≡◌, refl, ap, ℕ, ◌+◌, [], ◌∷◌, none, some, ok, err, not_exist, arith,
}
use clustertest.Agent.App.{acts, agent_of}
use clustertest.Agent.Certs.{generate_certs}
use clustertest.Agent.Certs.Laws.{IsSigned}
use clustertest.Agent.Link.{
  Client, client_of, new_client, with_client_wait_interval, server_tls_config,
}
use clustertest.Agent.Main.{NodeAgent, exits}
use clustertest.Agent.Heartbeat.{Agent, check_next, here, later, checks}
use clustertest.Agent.Heartbeat.Silence.{at_once, waits, acts, HasAlarm}
use clustertest.Agent.Samples.{
  clockwork, some_certs, pairs, client_config, server_config, parser, parser-ReadsFlags, decode,
  decode-encode,
}
use clustertest.Cluster.Docker.{Host, Node, Cluster, container_name, container_of, make_node}
use clustertest.Cluster.Docker.Setup.{Surroundings, rand_string, cluster_of}
use clustertest.Agent.App.Laws.{heart_of}
use clustertest.Cluster.Docker.Agents.{
  agent_with, with_clients, agent_of-container_of, container_of-IsSigned, container_of-HasAlarm,
}
use clustertest.Cluster.Tests.{calm}

abbrev surroundings : Surroundings
surroundings = record {
  logger = none;
  docker_client = none;
  crypto = clockwork;
  randomness = 0;
  draws = [];
  show = λ p. "path";
  read_dir = λ p. none;
  wd = err not_exist;
}

abbrev docker : Cluster ℕ ℕ
docker = cluster_of surroundings "ubuntu" some_certs

-- The agent that the container runs.
exiting_built :
    agent_of parser
      (λ s. ok (decode s))
      (λ s. ok 60000)
      (container_of calm docker 0 32768).entrypoint
    ≡ acts (agent_with (1 ∷ []) (4 ∷ 1 ∷ []) (4 ∷ []))
exiting_built =
    agent_of-container_of parser (λ s. ok (decode s)) (λ s. ok 60000) parser-ReadsFlags refl calm
      (λ b. ap ok (decode-encode b)) docker 0 32768

-- The agent of the container, that is started at 10 and then left alone for more than a minute.
abbrev exiting : NodeAgent
exiting = agent_with (1 ∷ []) (4 ∷ 1 ∷ []) (4 ∷ [])

abbrev started : Agent
started = check_next (heart_of exiting 10)

abbrev alone : Agent
alone = record started { now = started.now + 60001 }

container_of-HasAlarm_example :
    (exiting.heartbeat_failure_handler ≡ some exits)
    × HasAlarm (check_next (check_next (check_next alone))).alarms
unfolding check_next
container_of-HasAlarm_example =
    container_of-HasAlarm parser (λ s. ok (decode s)) (λ s. ok 60000) parser-ReadsFlags refl calm
      (λ b. ap ok (decode-encode b)) docker 0 32768 exiting 10 0 3 started alone
      (check_next (check_next (check_next alone))) exiting_built (later here (checks refl)) tt
      (waits at_once 60001) (omega arith) (acts (acts (acts at_once))) (omega arith)

abbrev host : Host ℕ
host = with_clients pairs calm (λ c s. (none, s))

abbrev tls_docker : Cluster ℕ (Client pairs)
tls_docker = cluster_of surroundings "ubuntu" some_certs

abbrev made : Node (Client pairs)
made = record {
  id = 0;
  container_name = "clustertest--0";
  container_id = "clustertest--0";
  host_port = 40000;
  agent_client = record (client_of pairs "127.0.0.1" 40000 client_config) { wait_interval = 100 };
}

made-make_node : (make_node host tls_docker 0 []).0 ≡ ok made
unfolding make_node new_client with_client_wait_interval container_name rand_string itoa
made-make_node = refl

container_of-IsSigned_example :
    (made.agent_client.dial_addr ≡ "127.0.0.1" <> ":" <> itoa 40000)
    × IsSigned clockwork some_certs.ca some_certs.client
    × IsSigned clockwork some_certs.ca some_certs.server
    × (client_config.root_cas ≡ some (1 ∷ []))
    × (server_config.client_cas ≡ client_config.root_cas)
    × (server_config.requires_client_cert ≡ true)
    × (pairs.x509_key_pair (7 ∷ 1 ∷ []) (7 ∷ []) ≡ ok client_config.certificate)
    × (pairs.x509_key_pair (4 ∷ 1 ∷ []) (4 ∷ []) ≡ ok server_config.certificate)
unfolding generate_certs server_tls_config new_client with_client_wait_interval container_of
container_of-IsSigned_example =
    container_of-IsSigned parser (λ s. ok (decode s)) (λ s. ok 60000) parser-ReadsFlags refl
      clockwork pairs calm (λ b. ap ok (decode-encode b)) (λ c s. (none, s)) tls_docker 0 0 [] made
      exiting server_config refl made-make_node exiting_built refl
