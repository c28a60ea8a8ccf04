-- ===== src/Cluster/Aws/Heartbeats/Progress.antt =====
-- The wait for the heartbeats ends with its context, in whatever order its goroutines take turns.
use clustertest.Prelude.{
  ◌≡◌, refl, ap, ℕ, zero, suc, ◌<◌, true, List, [], ◌∷◌, Option, none, some, Error, Result, arith,
  length, get_elem?,
}
use clustertest.Agent.Http.{Response}
use clustertest.Cluster.Aws.Heartbeats.{
  Event, expires, beats, gives_up, WaiterPc, waiting, answered, gave_up, Wait, beat, give_up,
  update_at, happen, happen_all, has_returned, all_returned, result,
}
use clustertest.Cluster.Aws.Heartbeats.Laws.{length-happen_all}

-- Among the events is a turn of the goroutine of that number in which it sees the end of the context.
pub data GivesUp (i : ℕ) : List Event → Type 0 where
  at_once : {e : Event} {events : List Event} → e ≡ gives_up i → GivesUp i (e ∷ events)
  after : {e : Event} {events : List Event} → GivesUp i events → GivesUp i (e ∷ events)

-- The goroutine has returned, if there is one.
Returned : Option WaiterPc → Type 0
Returned none = Unit
Returned (some pc) = has_returned pc ≡ true

beat_returned :
    (r : Result Response) (pc : WaiterPc) → has_returned pc ≡ true → has_returned (beat r pc) ≡ true
unfolding beat
beat_returned r waiting h = cc
beat_returned r (answered x) h = h
beat_returned r gave_up h = h

give_up_returned :
    (ctx : Option Error) (pc : WaiterPc)
    → has_returned pc ≡ true
    → has_returned (give_up ctx pc) ≡ true
give_up_returned none pc h = h
give_up_returned (some e) waiting h = refl
give_up_returned (some e) (answered r) h = refl
give_up_returned (some e) gave_up h = refl

give_up_ended :
    (e : Error) (ctx : Option Error) (pc : WaiterPc)
    → ctx ≡ some e
    → has_returned (give_up ctx pc) ≡ true
give_up_ended e none pc c = cc
give_up_ended e (some x) waiting c = refl
give_up_ended e (some x) (answered r) c = refl
give_up_ended e (some x) gave_up c = refl

update_at-Returned :
    (f : WaiterPc → WaiterPc)
    → ((pc : WaiterPc) → has_returned pc ≡ true → has_returned (f pc) ≡ true)
    → (i j : ℕ) (pcs : List WaiterPc) → Returned (get_elem? pcs i)
    → Returned (get_elem? (update_at f j pcs) i)
unfolding update_at Returned
update_at-Returned f keep i j [] h = h
update_at-Returned f keep zero zero (pc ∷ pcs) h = keep pc h
update_at-Returned f keep zero (suc j) (pc ∷ pcs) h = h
update_at-Returned f keep (suc i) zero (pc ∷ pcs) h = h
update_at-Returned f keep (suc i) (suc j) (pc ∷ pcs) h = update_at-Returned f keep i j pcs h

update_at-Returned_all :
    (f : WaiterPc → WaiterPc)
    → ((pc : WaiterPc) → has_returned (f pc) ≡ true)
    → (i : ℕ) (pcs : List WaiterPc) → Returned (get_elem? (update_at f i pcs) i)
unfolding update_at Returned
update_at-Returned_all f all i [] = tt
update_at-Returned_all f all zero (pc ∷ pcs) = all pc
update_at-Returned_all f all (suc i) (pc ∷ pcs) = update_at-Returned_all f all i pcs

happen-Returned :
    (i : ℕ) (e : Event) (w : Wait)
    → Returned (get_elem? w.pcs i)
    → Returned (get_elem? (happen e w).pcs i)
unfolding happen
happen-Returned i (expires e) w h = h
happen-Returned i (beats j r) w h = update_at-Returned (beat r) (beat_returned r) i j w.pcs h
happen-Returned i (gives_up j) w h =
    update_at-Returned (give_up w.ctx) (give_up_returned w.ctx) i j w.pcs h

happen_all-Returned :
    (i : ℕ) (events : List Event) (w : Wait)
    → Returned (get_elem? w.pcs i)
    → Returned (get_elem? (happen_all events w).pcs i)
unfolding happen_all
happen_all-Returned i [] w h = h
happen_all-Returned i (e ∷ events) w h =
    happen_all-Returned i events (happen e w) (happen-Returned i e w h)

happen_ended : (x : Error) (e : Event) (w : Wait) → w.ctx ≡ some x → (happen e w).ctx ≡ some x
unfolding happen
happen_ended x (expires e) w c = rw c refl
happen_ended x (beats j r) w c = c
happen_ended x (gives_up j) w c = c

happen_all_ended :
    (x : Error) (events : List Event) (w : Wait)
    → w.ctx ≡ some x
    → (happen_all events w).ctx ≡ some x
unfolding happen_all
happen_all_ended x [] w c = c
happen_all_ended x (e ∷ events) w c = happen_all_ended x events (happen e w) (happen_ended x e w c)

happen_gives_up :
    (x : Error) (i : ℕ) (e : Event) (w : Wait)
    → w.ctx ≡ some x
    → e ≡ gives_up i
    → Returned (get_elem? (happen e w).pcs i)
unfolding happen
happen_gives_up x i e w c same =
    rw same (update_at-Returned_all (give_up w.ctx) (λ pc. give_up_ended x w.ctx pc c) i w.pcs)

GivesUp-Returned :
    (x : Error) (i : ℕ) (events : List Event) (w : Wait)
    → w.ctx ≡ some x
    → GivesUp i events
    → Returned (get_elem? (happen_all events w).pcs i)
unfolding happen_all
GivesUp-Returned x i [] w c g = elim g [ ]
GivesUp-Returned x i (e ∷ events) w c (at_once same) =
    happen_all-Returned i events (happen e w) (happen_gives_up x i e w c same)
GivesUp-Returned x i (e ∷ events) w c (after g) =
    GivesUp-Returned x i events (happen e w) (happen_ended x e w c) g

Returned-all :
    (pcs : List WaiterPc)
    → ((i : ℕ) → i < length pcs → Returned (get_elem? pcs i))
    → all_returned pcs ≡ true
unfolding Returned all_returned
Returned-all [] h = refl
Returned-all (pc ∷ pcs) h =
    let first : has_returned pc ≡ true = h 0 (omega arith) in
    let rest = Returned-all pcs (λ i k. h (suc i) (omega arith)) in rw (first, rest) refl

result_all :
    (e : Error) (w : Wait) → all_returned w.pcs ≡ true → w.ctx ≡ some e → result w ≡ some (some e)
unfolding result
result_all e w h c = rw h (ap some c)

-- Once its context has ended with an error, the wait returns that error after any events among which
-- each goroutine has a turn in which it sees the end of the context: the turns come in any order, any
-- other events of the goroutines and of the context may come between, and the goroutines may stand
-- anywhere.
pub result-GivesUp :
    (e : Error) (events : List Event) (w : Wait)
    → w.ctx ≡ some e
    → ((i : ℕ) → i < length w.pcs → GivesUp i events)
    → result (happen_all events w) ≡ some (some e)
result-GivesUp e events w c turns =
    result_all e _
      (Returned-all _ (λ i k.
        GivesUp-Returned e i events w c (turns i (omega (arith, length-happen_all events w)))))
      (happen_all_ended e events w c)
