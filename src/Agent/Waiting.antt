-- ===== src/Agent/Waiting.antt =====
-- When `WaitForServer` of agent/client.go ends with no error.
use clustertest.Prelude.{
  ◌≡◌, ◌↔◌, refl, sym, ◌∙◌, List, [], ◌∷◌, none, some, Error, Result, ok, err, Option-cases, inl,
  inr, arith,
}
use clustertest.Agent.Http.{Response}
use clustertest.Agent.Client.{Round, done, tick, send_heartbeat, wait_for_server}

-- A heartbeat is answered with 200 before the context ends.
pub data Answered : List Round → Type 0 where
  at_once : {r : Response} {rounds : List Round} → r.status ≡ 200 → Answered (tick (ok r) ∷ rounds)
  after : {r : Result Response} {rounds : List Round} → Answered rounds → Answered (tick r ∷ rounds)

send_heartbeat_ok :
    (r : Result Response) → send_heartbeat r ≡ none → (x : Response) × (r ≡ ok x) × (x.status ≡ 200)
unfolding send_heartbeat
send_heartbeat_ok (err e) h = ground arith
send_heartbeat_ok (ok x) h = (x, refl, ground arith)

send_heartbeat_200 : (r : Response) → r.status ≡ 200 → send_heartbeat (ok r) ≡ none
unfolding send_heartbeat
send_heartbeat_200 r h = ground arith

Answered-first :
    (r : Result Response) (rounds : List Round)
    → send_heartbeat r ≡ none
    → Answered (tick r ∷ rounds)
Answered-first r rounds h = let (x, e, ok200) = send_heartbeat_ok r h in rw e (at_once ok200)

wait-first :
    (r : Result Response) (rounds : List Round)
    → send_heartbeat r ≡ none
    → wait_for_server (tick r ∷ rounds) ≡ some none
unfolding wait_for_server
wait-first r rounds h = rw (h, wait_for_server) refl

wait-next :
    (r : Result Response) (rounds : List Round) (e : Error)
    → send_heartbeat r ≡ some e
    → wait_for_server (tick r ∷ rounds) ≡ wait_for_server rounds
unfolding wait_for_server
wait-next r rounds e h = rw (h, wait_for_server) refl

wait-Answered : (rounds : List Round) → wait_for_server rounds ≡ some none → Answered rounds
unfolding wait_for_server
wait-Answered [] h = ground arith
wait-Answered (done e ∷ rounds) h = ground arith
wait-Answered (tick r ∷ rounds) h = elim (Option-cases (send_heartbeat r)) [
  | inl e ↦ Answered-first r rounds e
  | inr (x, e) ↦ after (wait-Answered rounds (sym (wait-next r rounds x e) ∙ h))
]

Answered-wait : (rounds : List Round) → Answered rounds → wait_for_server rounds ≡ some none
Answered-wait _ (at_once {r} {rounds} h) = wait-first (ok r) rounds (send_heartbeat_200 r h)
Answered-wait _ (after {r} {rounds} a) = elim (Option-cases (send_heartbeat r)) [
  | inl e ↦ wait-first r rounds e
  | inr (x, e) ↦ wait-next r rounds x e ∙ Answered-wait rounds a
]

-- `WaitForServer` returns no error exactly when a heartbeat is answered with 200 before the context
-- ends.
pub wait_for_server-Answered :
    (rounds : List Round) → (wait_for_server rounds ≡ some none) ↔ Answered rounds
wait_for_server-Answered rounds = (wait-Answered rounds, Answered-wait rounds)
