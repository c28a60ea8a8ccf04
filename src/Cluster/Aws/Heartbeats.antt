-- ===== src/Cluster/Aws/Heartbeats.antt =====
-- cluster/aws/cluster.go: `waitForNodeHeartbeat` and `waitForNodesHeartbeats`, whose goroutines take
-- turns in an order that a list of events gives.
pub mod Laws
pub mod Progress
use clustertest.Prelude.{
  ℕ, zero, suc, Bool, true, false, ◌&&◌, List, [], ◌∷◌, Option, none, some, Error, Result,
  if◌then◌else◌,
}
use clustertest.Agent.Http.{Response}
use clustertest.Agent.Client.{send_heartbeat}

-- What happens: the context ends, or the goroutine of that number is woken, by its ticker, with what
-- then comes of its heartbeat, or by the end of the context.
pub data Event : Type 0 where
  expires : Error → Event
  beats : ℕ → Result Response → Event
  gives_up : ℕ → Event

-- Where the goroutine of a node stands: in its loop, or returned, and why.
pub data WaiterPc : Type 0 where
  waiting : WaiterPc
  answered : Result Response → WaiterPc
  gave_up : WaiterPc

-- The error of the context, once it has ended, and the goroutines.
pub record Wait : Type 0 where
  pub ctx : Option Error
  pub pcs : List WaiterPc

abbrev pub waiters : ℕ → List WaiterPc
waiters zero = []
waiters (suc n) = waiting ∷ waiters n

-- A context ends once.
abbrev pub expire : Error → Option Error → Option Error
expire e none = some e
expire e (some first) = some first

-- A round of the loop that the ticker starts.
unfoldable pub beat : Result Response → WaiterPc → WaiterPc
beat r waiting = elim (send_heartbeat r) [ none ↦ answered r | some e ↦ waiting ]
beat r (answered x) = answered x
beat r gave_up = gave_up

-- A round that the context ends, if it has ended.
abbrev pub give_up : Option Error → WaiterPc → WaiterPc
give_up none pc = pc
give_up (some e) waiting = gave_up
give_up (some e) (answered r) = answered r
give_up (some e) gave_up = gave_up

unfoldable pub update_at : (WaiterPc → WaiterPc) → ℕ → List WaiterPc → List WaiterPc
update_at f i [] = []
update_at f zero (pc ∷ pcs) = f pc ∷ pcs
update_at f (suc i) (pc ∷ pcs) = pc ∷ update_at f i pcs

unfoldable pub happen : Event → Wait → Wait
unfolding beat update_at
happen (expires e) w = record w { ctx = expire e w.ctx }
happen (beats i r) w = record w { pcs = update_at (beat r) i w.pcs }
happen (gives_up i) w = record w { pcs = update_at (give_up w.ctx) i w.pcs }

unfoldable pub happen_all : List Event → Wait → Wait
unfolding happen
happen_all [] w = w
happen_all (e ∷ events) w = happen_all events (happen e w)

abbrev pub has_returned : WaiterPc → Bool
has_returned waiting = false
has_returned (answered r) = true
has_returned gave_up = true

unfoldable pub all_returned : List WaiterPc → Bool
all_returned [] = true
all_returned (pc ∷ pcs) = has_returned pc && all_returned pcs

-- `wg.Wait` and `ctx.Err`; `none` if a goroutine still runs.
unfoldable pub result : Wait → Option (Option Error)
unfolding all_returned
result w = if all_returned w.pcs then some w.ctx else none

-- `waitForNodesHeartbeats` for `n` nodes.
unfoldable pub wait_for_nodes_heartbeats : ℕ → List Event → Option (Option Error)
unfolding happen_all result
wait_for_nodes_heartbeats n events =
    result (happen_all events (record { ctx = none; pcs = waiters n }))
