-- ===== src/Cluster/Aws/Node/Laws.antt =====
-- The heartbeat loop of the nodes that `NewNodes` makes, and what stops it.
use clustertest.Prelude.{◌≡◌, if◌then◌else◌}
use clustertest.Cluster.Aws.Instances.{Node, nil_channel}
use clustertest.Cluster.Aws.Node.{Beating, stop_heartbeat}

module _ {C : Type 0} where
  -- One loop runs if one was started, on a channel that is nil.
  record Inv (b : Beating C) : Type 0 where
    one : b.loops ≡ (if b.node.heartbeat_once then 1 else 0)
    channel : b.node.stop_heartbeat ≡ nil_channel
