-- ===== src/Cluster/Aws/Agents.antt =====
-- cluster/aws/cluster.go: the user data of an instance, and the agent that cmd/agent/main.go makes of
-- it there.
use clustertest.Prelude.{◌≡◌, refl, ℕ, String, ◌<>◌, [], ◌∷◌, List, some, Result, ok, Env}
use clustertest.Process.Types.{Bytes}
use clustertest.Agent.Main.{NodeAgent, shuts_down, failure_handler}
use clustertest.Agent.App.{Parser, ReadsFlags, given_args, acts, agent_of}
use clustertest.Agent.App.Laws.{agent_of-given_args}
use clustertest.Cluster.Aws.Instances.{Aws, Cluster, TemplateData, data_of}

-- The values that the user data gives to the agent's flags.
abbrev given : TemplateData → Env
given d =
    ("heartbeat-timeout", "10m")
    ∷ ("on-heartbeat-failure", "shutdown")
    ∷ ("ca-cert-pem", d.ca_cert_pem_encoded)
    ∷ ("cert-pem", d.cert_pem_encoded)
    ∷ ("key-pem", d.key_pem_encoded)
    ∷ []

-- The lines that continue the agent's command.
abbrev flag_lines : Env → String
flag_lines [] = "  &>/var/log/nodeagent &\n"
flag_lines ((k, v) ∷ given) = "  --" <> k <> " " <> v <> " \\\n" <> flag_lines given

-- The user data that the template `userDataTemplate` gives.
abbrev pub user_data_text : TemplateData → String
user_data_text d =
    "#!/bin/bash\nmkdir /node\ncd /node\ncurl --retry 3 '"
    <> d.node_agent_url
    <> "' > nodeagent\nchmod +x nodeagent\nnohup ./nodeagent \\\n"
    <> flag_lines (given d)

-- The arguments of the agent as the shell reads them from the user data, where base64 has no
-- character that the shell treats specially.
abbrev pub node_agent_args : TemplateData → List String
node_agent_args d = "./nodeagent" ∷ given_args (given d)

-- The agent of a cluster with these certificates: it shuts the host down on a heartbeat failure,
-- after ten minutes.
abbrev pub agent_with : Bytes → Bytes → Bytes → NodeAgent
agent_with ca cert key = record {
  ca_cert_pem = ca;
  cert_pem = cert;
  key_pem = key;
  heartbeat_failure_handler = some shuts_down;
  heartbeat_timeout = 600000;
  listen_addr = "0.0.0.0:8080";
}

-- From the arguments in an instance's user data the command builds the agent with the cluster's
-- certificates, the handler that shuts the host down, and the timeout of ten minutes; it listens on
-- the port that `NewNodes` makes its client for.
pub agent_of-node_agent_args :
    (parse : Parser) (decode : String → Result Bytes) (parse_duration : String → Result ℕ) (A : Aws)
    (c : Cluster) (url : String)
    → ReadsFlags parse
    → parse_duration "10m" ≡ ok 600000
    → ((b : Bytes) → decode (A.encode b) ≡ ok b)
    → agent_of parse decode parse_duration (node_agent_args (data_of A c url))
      ≡ acts (agent_with c.ca_cert_pem c.server_cert_pem c.server_key_pem)
unfolding failure_handler
agent_of-node_agent_args parse decode parse_duration A c url reads minutes inverse =
    agent_of-given_args parse decode parse_duration "./nodeagent" (given (data_of A c url))
      (agent_with c.ca_cert_pem c.server_cert_pem c.server_key_pem) reads refl refl refl minutes
      refl (inverse _) (inverse _) (inverse _)
