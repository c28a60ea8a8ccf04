-- ===== src/Cluster/Aws/Heartbeats/Laws.antt =====
-- What the wait for the heartbeats of all nodes means when it ends, and that it ends with its context.
use clustertest.Prelude.{
  ◌≡◌, refl, ap, sym, ◌∙◌, ℕ, zero, suc, true, List, [], ◌∷◌, Option, none, some, Error, Result,
  All, All-map, get_elem?, ◌<◌, ◌⊎◌, subst, Option-cases, inl, inr, arith, length,
}
use clustertest.Agent.Http.{Response}
use clustertest.Agent.Client.{send_heartbeat}
use clustertest.Cluster.Aws.Heartbeats.{
  Event, expires, beats, gives_up, WaiterPc, waiting, answered, gave_up, Wait, waiters, expire,
  beat, give_up, update_at, happen, happen_all, all_returned, result, wait_for_nodes_heartbeats,
}

-- What is known of a goroutine: it returned because of a heartbeat, or because the context had ended.
abbrev pub Explained : Option Error → WaiterPc → Type 0
Explained ctx waiting = Unit
Explained ctx (answered r) = send_heartbeat r ≡ none
Explained none gave_up = ⊥
Explained (some e) gave_up = Unit

beat_answered : (r : Result Response) → send_heartbeat r ≡ none → beat r waiting ≡ answered r
unfolding beat
beat_answered r e = rw (e, beat) refl

beat_unanswered :
    (r : Result Response) (x : Error) → send_heartbeat r ≡ some x → beat r waiting ≡ waiting
unfolding beat
beat_unanswered r x e = rw (e, beat) refl

beat-Explained :
    (ctx : Option Error) (r : Result Response) (pc : WaiterPc)
    → Explained ctx pc
    → Explained ctx (beat r pc)
unfolding beat
beat-Explained ctx r waiting h = elim (Option-cases (send_heartbeat r)) [
  | inl e ↦ subst (Explained ctx) (sym (beat_answered r e)) e
  | inr (x, e) ↦ subst (Explained ctx) (sym (beat_unanswered r x e)) tt
]
beat-Explained ctx r (answered x) h = h
beat-Explained ctx r gave_up h = h

give_up-Explained :
    (ctx : Option Error) (pc : WaiterPc) → Explained ctx pc → Explained ctx (give_up ctx pc)
give_up-Explained none pc h = h
give_up-Explained (some e) waiting h = tt
give_up-Explained (some e) (answered r) h = h
give_up-Explained (some e) gave_up h = tt

expire-Explained :
    (e : Error) (ctx : Option Error) (pc : WaiterPc)
    → Explained ctx pc
    → Explained (expire e ctx) pc
expire-Explained e ctx waiting h = tt
expire-Explained e ctx (answered r) h = h
expire-Explained e none gave_up h = absurd h
expire-Explained e (some x) gave_up h = tt

update_at-All :
    (P : WaiterPc → Type 0) (f : WaiterPc → WaiterPc) (keep : (pc : WaiterPc) → P pc → P (f pc))
    (i : ℕ) (pcs : List WaiterPc)
    → All P pcs
    → All P (update_at f i pcs)
unfolding update_at
update_at-All P f keep i [] h = tt
update_at-All P f keep zero (pc ∷ pcs) h = (keep pc h.0, h.1)
update_at-All P f keep (suc i) (pc ∷ pcs) h = (h.0, update_at-All P f keep i pcs h.1)

abbrev AreExplained : Wait → Type 0
AreExplained w = All (Explained w.ctx) w.pcs

happen-Explained : (e : Event) (w : Wait) → AreExplained w → AreExplained (happen e w)
unfolding happen
happen-Explained (expires e) w h = All-map (expire-Explained e w.ctx) w.pcs h
happen-Explained (beats i r) w h =
    update_at-All (Explained w.ctx) (beat r) (beat-Explained w.ctx r) i w.pcs h
happen-Explained (gives_up i) w h =
    update_at-All (Explained w.ctx) (give_up w.ctx) (give_up-Explained w.ctx) i w.pcs h

happen_all-Explained :
    (events : List Event) (w : Wait) → AreExplained w → AreExplained (happen_all events w)
unfolding happen_all
happen_all-Explained [] w h = h
happen_all-Explained (e ∷ events) w h =
    happen_all-Explained events (happen e w) (happen-Explained e w h)

waiters-Explained : (n : ℕ) → All (Explained none) (waiters n)
waiters-Explained zero = tt
waiters-Explained (suc n) = (tt, waiters-Explained n)

result_none : (w : Wait) → result w ≡ some none → (w.ctx ≡ none) × (all_returned w.pcs ≡ true)
unfolding result
result_none w e = ground arith

-- The event is a heartbeat of that goroutine, and succeeded.
abbrev pub Hears : ℕ → Event → Type 0
Hears i (expires e) = ⊥
Hears i (beats j r) = (j ≡ i) × (send_heartbeat r ≡ none)
Hears i (gives_up j) = ⊥

pub data Heard (i : ℕ) : List Event → Type 0 where
  at_once : {e : Event} {events : List Event} → Hears i e → Heard i (e ∷ events)
  after : {e : Event} {events : List Event} → Heard i events → Heard i (e ∷ events)

-- The goroutine of that number has returned because of a heartbeat.
Answered : Option WaiterPc → Type 0
Answered none = ⊥
Answered (some waiting) = ⊥
Answered (some (answered r)) = Unit
Answered (some gave_up) = ⊥

update_at-Answered :
    (f : WaiterPc → WaiterPc) (Q : Type 0)
    → ((pc : WaiterPc) → Answered (some (f pc)) → Answered (some pc) ⊎ Q)
    → (i j : ℕ) (pcs : List WaiterPc) → Answered (get_elem? (update_at f j pcs) i)
    → Answered (get_elem? pcs i) ⊎ ((j ≡ i) × Q)
unfolding update_at Answered
update_at-Answered f Q back i j [] h = absurd h
update_at-Answered f Q back zero zero (pc ∷ pcs) h = elim (back pc h) [
  | inl a ↦ inl a
  | inr q ↦ inr (refl, q)
]
update_at-Answered f Q back zero (suc j) (pc ∷ pcs) h = inl h
update_at-Answered f Q back (suc i) zero (pc ∷ pcs) h = inl h
update_at-Answered f Q back (suc i) (suc j) (pc ∷ pcs) h =
    elim (update_at-Answered f Q back i j pcs h) [ inl a ↦ inl a | inr (e, q) ↦ inr (ap suc e, q) ]

beat-Answered :
    (r : Result Response) (pc : WaiterPc)
    → Answered (some (beat r pc))
    → Answered (some pc) ⊎ (send_heartbeat r ≡ none)
unfolding Answered beat
beat-Answered r waiting h = elim (Option-cases (send_heartbeat r)) [
  | inl e ↦ inr e
  | inr (x, e) ↦ absurd (subst (λ pc. Answered (some pc)) (beat_unanswered r x e) h)
]
beat-Answered r (answered x) h = inl tt
beat-Answered r gave_up h = inl h

give_up-Answered :
    (ctx : Option Error) (pc : WaiterPc) → Answered (some (give_up ctx pc)) → Answered (some pc) ⊎ ⊥
unfolding Answered
give_up-Answered none pc h = inl h
give_up-Answered (some e) waiting h = inl h
give_up-Answered (some e) (answered r) h = inl h
give_up-Answered (some e) gave_up h = inl h

happen-Answered :
    (i : ℕ) (e : Event) (w : Wait)
    → Answered (get_elem? (happen e w).pcs i)
    → Answered (get_elem? w.pcs i) ⊎ Hears i e
unfolding happen
happen-Answered i (expires e) w h = inl h
happen-Answered i (beats j r) w h =
    update_at-Answered (beat r) (send_heartbeat r ≡ none) (beat-Answered r) i j w.pcs h
happen-Answered i (gives_up j) w h =
    elim (update_at-Answered (give_up w.ctx) ⊥ (give_up-Answered w.ctx) i j w.pcs h) [
      | inl a ↦ inl a
      | inr (e, q) ↦ absurd q
    ]

happen_all-Heard :
    (i : ℕ) (events : List Event) (w : Wait)
    → Answered (get_elem? (happen_all events w).pcs i)
    → Answered (get_elem? w.pcs i) ⊎ Heard i events
unfolding happen_all
happen_all-Heard i [] w h = inl h
happen_all-Heard i (e ∷ events) w h = elim (happen_all-Heard i events (happen e w) h) [
  | inr later ↦ inr (after later)
  | inl now ↦ elim (happen-Answered i e w now) [ inl old ↦ inl old | inr new ↦ inr (at_once new) ]
]

waiters_unanswered : (n i : ℕ) → ¬ Answered (get_elem? (waiters n) i)
unfolding Answered
waiters_unanswered zero i h = h
waiters_unanswered (suc n) zero h = h
waiters_unanswered (suc n) (suc i) h = waiters_unanswered n i h

all_returned-Answered :
    (i : ℕ) (pcs : List WaiterPc)
    → All (Explained none) pcs
    → all_returned pcs ≡ true
    → i < length pcs
    → Answered (get_elem? pcs i)
unfolding all_returned Answered
all_returned-Answered i [] h e k = absurd (omega arith)
all_returned-Answered i (waiting ∷ pcs) h e k = absurd (ground arith)
all_returned-Answered i (gave_up ∷ pcs) h e k = absurd h.0
all_returned-Answered zero (answered r ∷ pcs) h e k = tt
all_returned-Answered (suc i) (answered r ∷ pcs) h e k =
    all_returned-Answered i pcs h.1 e (omega arith)

length-update_at :
    (f : WaiterPc → WaiterPc) (i : ℕ) (pcs : List WaiterPc)
    → length (update_at f i pcs) ≡ length pcs
unfolding update_at
length-update_at f i [] = refl
length-update_at f zero (pc ∷ pcs) = refl
length-update_at f (suc i) (pc ∷ pcs) = ap suc (length-update_at f i pcs)

length-happen : (e : Event) (w : Wait) → length (happen e w).pcs ≡ length w.pcs
unfolding happen
length-happen (expires e) w = refl
length-happen (beats i r) w = length-update_at (beat r) i w.pcs
length-happen (gives_up i) w = length-update_at (give_up w.ctx) i w.pcs

pub length-happen_all :
    (events : List Event) (w : Wait) → length (happen_all events w).pcs ≡ length w.pcs
unfolding happen_all
length-happen_all [] w = refl
length-happen_all (e ∷ events) w = length-happen_all events (happen e w) ∙ length-happen e w

length-waiters : (n : ℕ) → length (waiters n) ≡ n
length-waiters zero = refl
length-waiters (suc n) = ap suc (length-waiters n)

-- If `waitForNodesHeartbeats` returns no error then each node has answered a heartbeat with 200.
pub wait_for_nodes_heartbeats-Heard :
    (n : ℕ) (events : List Event) (i : ℕ)
    → wait_for_nodes_heartbeats n events ≡ some none
    → i < n
    → Heard i events
unfolding wait_for_nodes_heartbeats
wait_for_nodes_heartbeats-Heard n events i e k =
    elim (happen_all-Heard i events start (all_returned-Answered i _ explained returned.1 inside)) [
      | inl old ↦ absurd (waiters_unanswered n i old)
      | inr heard ↦ heard
    ]
  where
    start : Wait
    start = record { ctx = none; pcs = waiters n }

    returned :
        ((happen_all events start).ctx ≡ none) × (all_returned (happen_all events start).pcs ≡ true)
    returned = result_none (happen_all events start) e

    explained : All (Explained none) (happen_all events start).pcs
    explained =
        subst (λ c. All (Explained c) (happen_all events start).pcs) returned.0
          (happen_all-Explained events start (waiters-Explained n))

    inside : i < length (happen_all events start).pcs
    inside = omega (arith, length-happen_all events start, length-waiters n)
