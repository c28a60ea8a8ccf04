-- ===== src/Cluster/Aws/Node.antt =====
-- cluster/aws/node.go: the heartbeats that a node's user starts and stops, and `Stop`.
pub mod Laws
use clustertest.Prelude.{
  ◌≡◌, ◌≢◌, ℕ, ◌+◌, ◌-◌, String, Bool, true, false, List, [], ◌∷◌, Option, none, some, Error, wrap,
  str, Result, if◌then◌else◌,
}
use clustertest.Agent.Http.{Response}
use clustertest.Agent.Client.{send_heartbeat}
use clustertest.Cluster.Aws.Instances.{Node, StopChannel, nil_channel, open_channel, closed_channel}

-- A node with the loops of `StartHeartbeat` that run, and the heartbeats that succeeded and failed.
pub record Beating (C : Type 0) : Type 0 where
  pub node : Node C
  pub loops : ℕ
  pub sent : ℕ
  pub failed : ℕ

-- Closing a nil channel panics, and so does closing twice.
abbrev pub close_channel : StopChannel → Option StopChannel
close_channel nil_channel = none
close_channel open_channel = some closed_channel
close_channel closed_channel = none

-- A receive from a channel that is only closed.
abbrev pub is_ready : StopChannel → Bool
is_ready nil_channel = false
is_ready open_channel = false
is_ready closed_channel = true

module _ {C : Type 0} where
  abbrev pub fresh : Node C → Beating C
  fresh n = record { node = n; loops = 0; sent = 0; failed = 0 }

  -- `StartHeartbeat`: the goroutine loops if the `sync.Once` was not done.
  unfoldable pub start_heartbeat : Beating C → Beating C
  start_heartbeat b =
      if b.node.heartbeat_once
      then b
      else record b { node = record b.node { heartbeat_once = true }; loops = b.loops + 1 }

  -- The node after `StopHeartbeat`, and whether it panicked; a `sync.Once` is done also by a panic.
  unfoldable pub stop_heartbeat : Node C → Bool × Node C
  stop_heartbeat n =
      if n.stop_heartbeat_once then (false, n) else elim (close_channel n.stop_heartbeat) [
        | none ↦ (true, record n { stop_heartbeat_once = true })
        | some ch ↦ (false, record n { stop_heartbeat_once = true; stop_heartbeat = ch })
      ]

  -- A round that the ticker starts: an error is logged.
  unfoldable pub tick_once : Result Response → Beating C → Beating C
  tick_once r b = elim (send_heartbeat r) [
    | none ↦ record b { sent = b.sent + 1 }
    | some e ↦ record b { failed = b.failed + 1 }
  ]

  pub data Step (b d : Beating C) : Type 0 where
    starts : d ≡ start_heartbeat b → Step b d
    stops : d ≡ record b { node = (stop_heartbeat b.node).1 } → Step b d
    ticks : (r : Result Response) → b.loops ≢ 0 → d ≡ tick_once r b → Step b d
    ends :
        b.loops ≢ 0
        → is_ready b.node.stop_heartbeat ≡ true
        → d ≡ record b { loops = b.loops - 1 }
        → Step b d

  pub data Reach (b : Beating C) : Beating C → Type 0 where
    here : Reach b b
    later : {d e : Beating C} → Reach b d → Step d e → Reach b e

-- `Stop`, with what `TerminateInstancesWithContext` gives.
unfoldable pub stop : {C : Type 0} → (String → Option Error) → Node C → Option Error
stop terminate n = elim (terminate n.instance_id) [
  | some e ↦ some (wrap "stopping instance %q" (str n.instance_id ∷ []) e)
  | none ↦ none
]
