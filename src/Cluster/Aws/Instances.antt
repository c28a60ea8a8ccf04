-- ===== src/Cluster/Aws/Instances.antt =====
-- cluster/aws/cluster.go: `NewNodes` and `NewNode`.
pub mod Laws
pub mod Progress
pub mod Nodes
use clustertest.Prelude.{
  ◌≡◌, ℕ, ℤ, String, Bool, true, false, List, [], ◌∷◌, ◌++◌, Option, none, some, Error, errorf,
  wrap, str, int, Result, ok, err, or_wrap, ◌>>=◌, fallible, length, ◌==◌, if◌then◌else◌,
}
use clustertest.Process.Types.{Bytes}
use clustertest.Paths.{FilePath}
use clustertest.Cluster.Aws.Polling.{
  InstanceState, pending, running, unexpected, Instance, Described, not_found, failed, reservations,
  scan_one, scan, scan_all, wait_for_instances,
}
use clustertest.Cluster.Aws.Heartbeats.{Event, wait_for_nodes_heartbeats}

-- A channel that is only closed; the zero value of a struct's field is nil.
pub data StopChannel : Type 0 where
  nil_channel : StopChannel
  open_channel : StopChannel
  closed_channel : StopChannel

-- `Node`, without the session and the EC2 client that all share; `heartbeat_once` and
-- `stop_heartbeat_once` tell whether that `sync.Once` was done.
pub record Node (C : Type 0) : Type 0 where
  pub agent_client : C
  pub instance_id : String
  pub account_id : String
  pub heartbeat_once : Bool
  pub stop_heartbeat_once : Bool
  pub stop_heartbeat : StopChannel

-- The literal in `NewNodes`.
abbrev pub node_of : {C : Type 0} → C → String → Instance → Node C
node_of client account inst = record {
  agent_client = client;
  instance_id = inst.id;
  account_id = account;
  heartbeat_once = false;
  stop_heartbeat_once = false;
  stop_heartbeat = nil_channel;
}

-- The loop of `NewNodes` over the instances that run.
unfoldable pub nodes_of :
    {C : Type 0} (new_client : String → Result C) (account : String)
    → List Instance
    → Result (List (Node C))
nodes_of new_client account [] = ok []
nodes_of new_client account (inst ∷ insts) =
    let rest = nodes_of new_client account insts in
    elim (new_client inst.public_ip) [
      | err e ↦ err (wrap "constructing node agent client" [] e)
      | ok client ↦ rest >>= λ nodes. ok (node_of client account inst ∷ nodes)
    ]

-- `ec2.RunInstancesInput`, the fields that depend on the cluster, the count and the agent.
pub record RunInput : Type 0 where
  pub image_id : String
  pub profile_arn : String
  pub instance_type : String
  pub max_count : ℕ
  pub min_count : ℕ
  pub user_data : String
  pub groups : List String
  pub subnet_id : String

-- `Cluster`, without its loggers and clients; `none` is an empty path of the agent's binary. The
-- callback may change the input.
pub record Cluster : Type 0 where
  pub ami_id : String
  pub instance_profile_arn : String
  pub instance_type : String
  pub instance_security_group_id : String
  pub subnet_id : String
  pub account_id : String
  pub node_agent_bin : Option FilePath
  pub node_agent_s3_bucket : String
  pub node_agent_s3_key : String
  pub ca_cert_pem : Bytes
  pub server_cert_pem : Bytes
  pub server_key_pem : Bytes
  pub run_instances_config : Option (RunInput → Option Error × RunInput)

abbrev pub run_input : Cluster → ℕ → String → RunInput
run_input c n text = record {
  image_id = c.ami_id;
  profile_arn = c.instance_profile_arn;
  instance_type = c.instance_type;
  max_count = n;
  min_count = n;
  user_data = text;
  groups = c.instance_security_group_id ∷ [];
  subnet_id = c.subnet_id;
}

-- `WithRunInstancesInput`
abbrev pub with_run_instances_input : (RunInput → Option Error × RunInput) → Cluster → Cluster
with_run_instances_input f c = record c { run_instances_config = some f }

-- `Cleanup`
abbrev pub cleanup : Cluster → Option Error
cleanup c = none

-- The callback, if there is one; its error is dropped.
abbrev pub configured : Option (RunInput → Option Error × RunInput) → RunInput → RunInput
configured none input = input
configured (some f) input = (f input).1

-- What the user data's template is filled with.
pub record TemplateData : Type 0 where
  pub node_agent_url : String
  pub ca_cert_pem_encoded : String
  pub cert_pem_encoded : String
  pub key_pem_encoded : String

-- What `NewNodes` calls: the presigned URL of the agent; base64; the user data's template, parsed and
-- executed by text/template; the instances that EC2 launches, and its answers to the polls; the
-- agent's clients; and what happens while it waits for the heartbeats.
pub record Aws : Type 1 where
  pub Client : Type 0
  pub presign : String → String → Result String
  pub encode : Bytes → String
  pub parse_template : Option Error
  pub execute : TemplateData → Result Bytes
  pub run_instances : RunInput → Result (List Instance)
  pub describe : List Instance → List Described
  pub new_client : String → Result Client
  pub events : List (Node Client) → List Event

-- How `NewNodes` ends; `polling` is not to have ended.
pub data Launch (C : Type 0) : Type 0 where
  launched : List (Node C) → Launch C
  fails : Error → Launch C
  polling : Launch C

module _ (A : Aws) (c : Cluster) where
  after_wait : List (Node A.Client) → Option (Option Error) → Launch A.Client
  after_wait nodes none = polling
  after_wait nodes (some (some e)) = fails e
  after_wait nodes (some none) = launched nodes

  -- `waitForNodesHeartbeats` and what follows it.
  unfoldable pub heartbeats : List (Node A.Client) → Launch A.Client
  unfolding after_wait
  heartbeats nodes = after_wait nodes (wait_for_nodes_heartbeats (length nodes) (A.events nodes))

  unfoldable pub from_instances : Option (Result (List Instance)) → Launch A.Client
  unfolding heartbeats nodes_of
  from_instances none = polling
  from_instances (some (err e)) = fails (wrap "waiting for instancs" [] e)
  from_instances (some (ok insts)) = elim (nodes_of A.new_client c.account_id insts) [
    | err e ↦ fails e
    | ok nodes ↦ heartbeats nodes
  ]

  -- `NewNodes` after `RunInstances`.
  unfoldable pub from_reservation : ℕ → Result (List Instance) → Launch A.Client
  unfolding from_instances wait_for_instances
  from_reservation n (err e) = fails (wrap "launching instance" [] e)
  from_reservation n (ok insts) =
      if length insts == n
      then from_instances (wait_for_instances (length insts) (A.describe insts))
      else fails (
          errorf "expected %d instances instance but got %d"
            (int (ℤ.pos n) ∷ int (ℤ.pos (length insts)) ∷ []))

  -- What the template is filled with, for a URL of the agent.
  abbrev pub data_of : String → TemplateData
  data_of url = record {
    node_agent_url = url;
    ca_cert_pem_encoded = A.encode c.ca_cert_pem;
    cert_pem_encoded = A.encode c.server_cert_pem;
    key_pem_encoded = A.encode c.server_key_pem;
  }

  -- The user data that an instance starts with.
  unfoldable pub user_data : Result String
  user_data = do
    url ←
        or_wrap (A.presign c.node_agent_s3_bucket c.node_agent_s3_key) "presigning node agent URL"
          []
    parsed ← or_wrap (fallible A.parse_template) "parsing user data template" []
    text ← or_wrap (A.execute (data_of url)) "executing user data template" []
    ok (A.encode text)

  -- `NewNodes`
  unfoldable pub new_nodes : ℕ → Launch A.Client
  unfolding from_reservation user_data
  new_nodes n = elim user_data [
    | err e ↦ fails e
    | ok text ↦
        from_reservation n
          (A.run_instances (configured c.run_instances_config (run_input c n text)))
  ]

-- What `NewNode` makes of the nodes: `nodes[0]` of none panics.
pub data Single (C : Type 0) : Type 0 where
  single : Node C → Single C
  no_single : Error → Single C
  still_polling : Single C
  out_of_range : Single C

unfoldable pub first_of : {C : Type 0} → Launch C → Single C
first_of (launched []) = out_of_range
first_of (launched (node ∷ nodes)) = single node
first_of (fails e) = no_single e
first_of polling = still_polling

-- `NewNode`
unfoldable pub new_node : (A : Aws) → Cluster → Single A.Client
unfolding first_of new_nodes
new_node A c = first_of (new_nodes A c 1)
