-- ===== src/Cluster/Aws/AgentsTests.antt =====
-- The agent of an instance whose certificates are coded, and its heartbeats.
use clustertest.Prelude.{arith, true, some, ◌≡◌, refl, String, [], ◌∷◌, none, ok, ap}
use clustertest.Agent.App.{acts, agent_of}
use clustertest.Agent.Heartbeat.{
  Agent, new_agent, selecting, heartbeat, check_next, time_passes, beats_once, checks,
}
use clustertest.Agent.Heartbeat.Fed.{Fed}
use clustertest.Cluster.Aws.Beats
use clustertest.Cluster.Aws.Beats.{Beaten, InTime, Reach, passes, ticks, arrives, alarms-Reach}
use clustertest.Agent.Samples.{parser, parser-ReadsFlags, encode, decode, decode-encode}
use clustertest.Cluster.Aws.Instances.{Aws, Cluster, data_of}
use clustertest.Cluster.Aws.Agents.{
  user_data_text, node_agent_args, agent_with, agent_of-node_agent_args,
}

abbrev ec2 : Aws
ec2 = record {
  Client = String;
  presign = λ bucket key. ok "https://agent";
  encode = encode;
  parse_template = none;
  execute = λ d. ok [];
  run_instances = λ i. ok [];
  describe = λ l. [];
  new_client = λ ip. ok ip;
  events = λ nodes. [];
}

abbrev small : Cluster
small = record {
  ami_id = "ami";
  instance_profile_arn = "arn:profile";
  instance_type = "t3.micro";
  instance_security_group_id = "sg-1";
  subnet_id = "subnet-1";
  account_id = "7";
  node_agent_bin = none;
  node_agent_s3_bucket = "bucket";
  node_agent_s3_key = "key";
  ca_cert_pem = 1 ∷ [];
  server_cert_pem = 4 ∷ 1 ∷ [];
  server_key_pem = 4 ∷ [];
  run_instances_config = none;
}

agent_of-node_agent_args_example :
    agent_of parser
      (λ s. ok (decode s))
      (λ s. ok 600000)
      (node_agent_args (data_of ec2 small "https://agent"))
    ≡ acts (agent_with (1 ∷ []) (4 ∷ 1 ∷ []) (4 ∷ []))
agent_of-node_agent_args_example =
    agent_of-node_agent_args parser (λ s. ok (decode s)) (λ s. ok 600000) ec2 small "https://agent"
      parser-ReadsFlags refl (λ b. ap ok (decode-encode b))

-- The user data of an instance as a whole.
data_text_small :
    user_data_text (record {
      node_agent_url = "https://agent";
      ca_cert_pem_encoded = "Y2E=";
      cert_pem_encoded = "Yw==";
      key_pem_encoded = "aw==";
    })
    ≡ "#!/bin/bash\nmkdir /node\ncd /node\ncurl --retry 3 'https://agent' > nodeagent\nchmod +x nodeagent\nnohup ./nodeagent \\\n  --heartbeat-timeout 10m \\\n  --on-heartbeat-failure shutdown \\\n  --ca-cert-pem Y2E= \\\n  --cert-pem Yw== \\\n  --key-pem aw== \\\n  &>/var/log/nodeagent &\n"
data_text_small = refl

-- The agent of an instance that started at 0, got its first heartbeat at 500, and then one by the
-- loop that was started at once, whose first tick is at 10500.
abbrev young : Agent
young = record (new_agent 600000 true 0) {
  last_heartbeat = 500;
  check = selecting;
  now = 500;
  beats = 500 ∷ [];
}

young-Fed : Fed 12000 1000 (new_agent 600000 true 0) young
unfolding check_next heartbeat
young-Fed =
    Fed.later
      (Fed.later (Fed.later Fed.here (checks refl) (omega arith)) (time_passes 500 refl)
        (omega arith))
      (beats_once refl) (omega arith)

abbrev beaten : Beaten
beaten = record { agent = young; next_tick = 10500; sent = none }

beaten-InTime : InTime 10000 2000 1000 beaten
beaten-InTime = record { runs = tt; prompt = tt; before_tick = omega arith; coming = omega arith }

abbrev at_tick : Beaten
at_tick = record beaten { agent = record young { now = 10500 } }

abbrev ticked : Beaten
ticked = record at_tick { sent = some 10500; next_tick = 20500 }

abbrev beaten_again : Beaten
beaten_again = record ticked { agent = (heartbeat ticked.agent).1; sent = none }

beaten_again-Reach : Reach 2000 1000 beaten beaten_again
beaten_again-Reach =
    Beats.later
      (Beats.later (Beats.later Beats.here (passes 10000 refl (omega arith) tt tt))
        (ticks refl refl refl))
      (arrives 10500 refl refl)

alarms-Reach_example : beaten_again.agent.alarms ≡ []
alarms-Reach_example =
    alarms-Reach 10000 2000 1000 600000 true 0 beaten beaten_again (omega arith) (omega arith)
      young-Fed beaten-InTime beaten_again-Reach
