-- ===== src/Cluster/Tests.antt =====
-- Clusters on concrete hosts, and the theorems there.
use clustertest.Prelude.{
  ◌≡◌, refl, ℕ, ℤ, String, true, false, List, [], ◌∷◌, ◌++◌, none, some, not_exist, ok, itoa, ltb,
  ◌+◌, if◌then◌else◌,
}
use clustertest.Process.Client
use clustertest.Process.Client.{Client, Waits}
use clustertest.Paths.{at}
use clustertest.Cluster.{run}
use clustertest.Files.{find_up}
use clustertest.Cluster.Grow.{grow}
use clustertest.Cluster.Laws.{run-failed_conn}
use clustertest.Cluster.Local
use clustertest.Cluster.Local.{Os}
use clustertest.Cluster.Local.Laws as LocalLaws
use clustertest.Agent.Samples.{some_certs, encode}
use clustertest.Cluster.Docker
use clustertest.Cluster.Docker.{Host}

-- A host whose third directory cannot be made; its state counts the directories.
abbrev full_disk : Os
full_disk = record {
  State = ℕ;
  mkdir = λ p n. if ltb n 2 then (none, n + 1) else (some not_exist, n);
  remove_all = λ p n. (none, 0);
}

abbrev empty_local : Local.Cluster
empty_local = record { dir = at true ("tmp" ∷ []); nodes = [] }

abbrev agent_everywhere : Local.Outcome ℕ
agent_everywhere =
    Local.new_nodes full_disk (λ p. some ("nodeagent" ∷ [])) (ok (at true [])) 3 empty_local 0

new_nodes-Grew_example : LocalLaws.Grew 3 empty_local agent_everywhere
new_nodes-Grew_example =
    LocalLaws.new_nodes-Grew full_disk (λ p. some ("nodeagent" ∷ [])) (ok (at true [])) 3
      empty_local 0

new_nodes-IsWellFormed_example : LocalLaws.IsWellFormed (record empty_local {
  nodes =
      record { id = 0; env = []; dir = at true ("0" ∷ "tmp" ∷ []) }
      ∷ record { id = 1; env = []; dir = at true ("1" ∷ "tmp" ∷ []) }
      ∷ [];
})
unfolding Local.new_nodes find_up grow itoa
new_nodes-IsWellFormed_example =
    LocalLaws.new_nodes-IsWellFormed full_disk (λ p. some ("nodeagent" ∷ [])) (ok (at true [])) 3
      empty_local _ 0 2 [] _ tt refl

-- A host where every call succeeds, whose state is what was asked of it.
abbrev pub calm : Host ℕ
calm = record {
  State = List String;
  Client = ℕ;
  image_pull = λ i s. (none, s ++ (i ∷ []));
  read_response = λ s. (none, s);
  resolve = λ s. none;
  listen = λ s. (ok 40000, s);
  container_create = λ c s. (ok c.name, s ++ (c.name ∷ []));
  container_start = λ c s. (none, s);
  container_stop = λ c s. (none, s ++ ("stop" ∷ []));
  container_remove = λ c s. (none, s);
  encode = encode;
  new_client = λ certs ip port d. ok port;
  wait_for_server = λ c s. (some not_exist, s);
}

abbrev empty_docker : Docker.Cluster ℕ ℕ
empty_docker = record {
  certs = some_certs;
  node_agent_bin = "/nodeagent";
  base_image = "ubuntu";
  container_prefix = "abc123";
  nodes = [];
  image_pulled = false;
}

docker_two :
    (Docker.new_nodes calm 2 empty_docker []).world
    ≡ "ubuntu" ∷ "clustertest-abc123-0" ∷ "clustertest-abc123-1" ∷ []
unfolding Docker.new_nodes Docker.container_name itoa grow
docker_two = refl

run-failed_conn_example :
    (s : Client) × Client.Reach Client.start s
    × ((t : Client) × Waits s (record { code = ℤ.pos 0; error = some not_exist }) t)
    × (run (ok (record { code = ℤ.pos 0; error = some not_exist })) ≡ (ℤ.pos 0, none))
run-failed_conn_example = run-failed_conn not_exist
