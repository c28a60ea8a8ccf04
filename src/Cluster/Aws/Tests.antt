-- ===== src/Cluster/Aws/Tests.antt =====
-- EC2 with two instances, and the theorems there.
use clustertest.Prelude.{
  ℕ, zero, suc, ◌<◌, true, err, not_exist, canceled, some, arith, ◌≡◌, refl, String, List, [], ◌∷◌,
  none, some, ok, length, Result,
}
use clustertest.Agent.Http.{Response, bytes}
use clustertest.Agent.Client.{send_heartbeat}
use clustertest.Cluster.Aws.Heartbeats.{
  Event, expires, beats, gives_up, Wait, waiting, answered, happen_all, result,
  wait_for_nodes_heartbeats,
}
use clustertest.Cluster.Aws.Heartbeats.Laws.{Heard}
use clustertest.Cluster.Aws.Heartbeats.Progress.{GivesUp, at_once, after, result-GivesUp}
use clustertest.Cluster.Aws.Node.{Beating, fresh, start_heartbeat, stop_heartbeat}
use clustertest.Cluster.Aws.Polling.{
  Instance, pending, running, Described, not_found, reservations, wait_for_instances,
}
use clustertest.Cluster.Aws.Instances.{node_of, Node, Aws, Cluster, new_nodes}
use clustertest.Cluster.Aws.Instances.Laws.{Settled, running_of, all_running}
use clustertest.Cluster.Aws.Instances.Progress.{
  ComesUp, up, soon, unknown, ComesUp-wait_for_instances,
}
use clustertest.Cluster.Aws.Instances.Nodes.{ids, node_ids, new_nodes-Settled, new_nodes-Heard}

abbrev first : Instance
first = record { id = "i-1"; state = running; public_ip = "10.0.0.1" }

abbrev second : Instance
second = record { id = "i-2"; state = running; public_ip = "10.0.0.2" }

abbrev starting : Instance
starting = record { id = "i-2"; state = pending; public_ip = "" }

abbrev polls : List Described
polls =
    not_found
    ∷ reservations ((first ∷ []) ∷ (starting ∷ []) ∷ [])
    ∷ reservations ((first ∷ []) ∷ (second ∷ []) ∷ [])
    ∷ []

polls-ComesUp : ComesUp 2 polls
unfolding all_running running_of
polls-ComesUp = unknown (soon ((tt, tt), ((tt, tt), tt)) (up ((tt, tt), ((tt, tt), tt)) refl))

ComesUp-wait_for_instances_example :
    (l : List Instance) × (wait_for_instances 2 polls ≡ some (ok l))
ComesUp-wait_for_instances_example = ComesUp-wait_for_instances 2 polls polls-ComesUp

abbrev small : Cluster
small = record {
  ami_id = "ami";
  instance_profile_arn = "arn:profile";
  instance_type = "t3.micro";
  instance_security_group_id = "sg-1";
  subnet_id = "subnet-1";
  account_id = "7";
  node_agent_bin = none;
  node_agent_s3_bucket = "bucket";
  node_agent_s3_key = "key";
  ca_cert_pem = [];
  server_cert_pem = [];
  server_key_pem = [];
  run_instances_config = none;
}

abbrev healthy : Result Response
healthy = ok (record { status = 200; body = bytes [] })

-- The second node answers first.
abbrev beats_of_two : List Event
beats_of_two = beats 0 (err not_exist) ∷ beats 1 healthy ∷ beats 0 healthy ∷ []

abbrev ec2 : Aws
ec2 = record {
  Client = String;
  presign = λ bucket key. ok "https://agent";
  encode = λ b. "";
  parse_template = none;
  execute = λ d. ok [];
  run_instances = λ i. ok (first ∷ second ∷ []);
  describe = λ l. polls;
  new_client = λ ip. ok ip;
  events = λ nodes. beats_of_two;
}

abbrev two_nodes : List (Node String)
two_nodes = node_of "10.0.0.1" "7" first ∷ node_of "10.0.0.2" "7" second ∷ []

new_nodes-Settled_example :
    (insts : List Instance) × (l : List Instance) × (length insts ≡ 2)
    × Settled 2 l polls
    × (node_ids two_nodes ≡ ids l)
unfolding new_nodes wait_for_nodes_heartbeats send_heartbeat
new_nodes-Settled_example = new_nodes-Settled ec2 small 2 two_nodes refl

new_nodes-Heard_example : Heard 1 beats_of_two
unfolding new_nodes wait_for_nodes_heartbeats send_heartbeat
new_nodes-Heard_example = new_nodes-Heard ec2 small 2 two_nodes 1 refl (omega arith)

abbrev expired : Wait
expired = record { ctx = some canceled; pcs = waiting ∷ answered healthy ∷ waiting ∷ [] }

-- The goroutines give up last first, one after a heartbeat that failed, and the context ends again.
abbrev late_events : List Event
late_events = gives_up 2 ∷ expires not_exist ∷ beats 0 (err canceled) ∷ gives_up 1 ∷ gives_up 0 ∷ []

late_events-GivesUp : (i : ℕ) → i < 3 → GivesUp i late_events
late_events-GivesUp zero k = after (after (after (after (at_once refl))))
late_events-GivesUp (suc zero) k = after (after (after (at_once refl)))
late_events-GivesUp (suc (suc zero)) k = at_once refl
late_events-GivesUp (suc (suc (suc i))) k = absurd (omega arith)

result-GivesUp_example : result (happen_all late_events expired) ≡ some (some canceled)
result-GivesUp_example = result-GivesUp canceled late_events expired refl late_events-GivesUp

-- A node of `NewNodes` after `StartHeartbeat` and a call of `StopHeartbeat` that panicked.
abbrev stopped_once : Beating String
stopped_once =
    let b = start_heartbeat (fresh (node_of "10.0.0.1" "7" first)) in
    record b { node = (stop_heartbeat b.node).1 }

first_stop_panics : (stop_heartbeat {C = String} (node_of "10.0.0.1" "7" first)).0 ≡ true
unfolding stop_heartbeat
first_stop_panics = refl
