-- ===== src/Cluster/Laws.antt =====
-- `BasicCluster` over a cluster that keeps the interface's promise, and `Run`.
use clustertest.Prelude.{
  ◌≡◌, refl, ap, ◌≢◌, ◌↔◌, ◌∙◌, ◌++◌, ℤ, zero, suc, is_zero, true, List, [], ◌∷◌, map, Option, none,
  some, Error, Result, ok, err, length, arith,
}
use clustertest.Process.Types.{CmdResult, Response}
use clustertest.Process.Server
use clustertest.Process.Server.{Server}
use clustertest.Process.Session.{Waits-session}
use clustertest.Process.Client
use clustertest.Process.Client.{Client, Waits, take_result}
use clustertest.Process.Client.Faults.{turns, Reach-turns}
use clustertest.Cluster.{
  Cluster, IsLawful, BasicNode, index_panic, basic_node, first_node, new_node, run,
}

pub first_node-ne-panic :
    {N : Type 0} (nodes : List (BasicNode N)) (e : Option Error)
    → (e ≡ none → length nodes ≡ 1)
    → first_node nodes e ≢ index_panic
unfolding first_node
first_node-ne-panic [] none h = absurd (omega (arith, h refl))
first_node-ne-panic [] (some x) h = λ p. cc
first_node-ne-panic (b ∷ nodes) none h = λ p. cc
first_node-ne-panic (b ∷ nodes) (some x) h = λ p. cc

pub length-map_basic : {N : Type 0} (l : List N) → length (map basic_node l) ≡ length l
length-map_basic [] = refl
length-map_basic (x ∷ l) = ap suc (length-map_basic l)

-- Over a cluster that keeps the promise of `NewNodes`, `NewNode` indexes no empty slice.
pub new_node-ne-panic : (C : Cluster) → IsLawful C → (s : C.State) → (new_node C s).0 ≢ index_panic
unfolding new_node
new_node-ne-panic C h s =
    first_node-ne-panic (map basic_node (C.new_nodes 1 s).0.0) (C.new_nodes 1 s).0.1
      (λ e. rw length-map_basic (h.length-new_nodes 1 s e))

-- `Run` returns no error exactly when the process was started and its exit code is 0, and then it
-- returns 0, whatever error `Wait` gave with that code.
pub run-no_error :
    (p : Result CmdResult)
    → ((run p).1 ≡ none)
      ↔ ((r : CmdResult) × (p ≡ ok r) × (is_zero r.code ≡ true) × (run p ≡ (r.code, none)))
unfolding run
run-no_error (err e) = (λ h. cc, λ (r, a, b, c). cc)
run-no_error (ok r) = (λ h. (r, refl, ground arith, ground arith), λ (q, a, b, c). ground arith)

-- After any error on the connection, other than its close by the server, `Wait` may return, and
-- `Run` then reports success, with exit code 0.
pub run-failed_conn :
    (e : Error)
    → (s : Client) × Client.Reach Client.start s
      × ((t : Client) × Waits s (record { code = ℤ.pos 0; error = some e }) t)
      × (run (ok (record { code = ℤ.pos 0; error = some e })) ≡ (ℤ.pos 0, none))
unfolding run turns Client.receive
run-failed_conn e = (
  turns 1 (Client.receive (Client.failed e) Client.start),
  Reach-turns 1 _ (Client.later Client.here (Client.receives (Client.failed e) refl refl)),
  (_, take_result refl refl),
  refl,
)

zero_code : (z : ℤ) → is_zero z ≡ true → z ≡ ℤ.pos 0
zero_code (ℤ.pos zero) e = refl
zero_code (ℤ.pos (suc n)) e = absurd (ground arith)
zero_code (ℤ.negsuc n) e = absurd (ground arith)

run-zero : (r : CmdResult) → ((run (ok r)).1 ≡ none) ↔ (r.code ≡ ℤ.pos 0)
unfolding run
run-zero r = (λ h. zero_code r.code (ground arith), λ e. rw (e, run) refl)

-- When the `Wait` of a process on a node with an agent returned no error, `Run` returns none exactly
-- when the process exited with code 0 there.
pub run-exited :
    {v : Server} {c d : Client} {r : CmdResult} (later : List Response)
    → Server.Reach Server.start v
    → Client.Reach Client.start c
    → v.sent ≡ later ++ c.past
    → Waits c r d
    → r.error ≡ none
    → ((run (ok r)).1 ≡ none) ↔ (v.code ≡ some (ℤ.pos 0))
run-exited {r = r} later rv rc sent w e =
    let (exited, out, fault) = Waits-session later rv rc sent w e in
    (λ h. exited ∙ ap some ((run-zero r).0 h), λ h. (run-zero r).1 (ground (arith, exited, h)))
