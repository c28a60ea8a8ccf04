-- ===== src/Agent/Heartbeat/Silence.antt =====
-- An agent that gets no heartbeats: `startHeartbeatCheck` of agent/agent.go calls the handler.
use clustertest.Prelude.{
  ◌≡◌, refl, subst, ◌∙◌, ℕ, zero, suc, ◌+◌, ◌≤◌, ◌<◌, true, ◌⊎◌, inl, inr, List, [], ◌∷◌, arith,
}
use clustertest.Agent.Heartbeat.{
  CheckPc, starting, selecting, testing, Alarm, Agent, test, check_at, check_next, heartbeat, Step,
  time_passes, beats_once, checks, Reach, here, later,
}

-- What an agent does while no heartbeat comes, with the number of actions of its goroutine.
pub data Quiet (a : Agent) : ℕ → Agent → Type 0 where
  at_once : Quiet a 0 a
  waits : {n : ℕ} {b : Agent} → Quiet a n b → (d : ℕ) → Quiet a n (record b { now = b.now + d })
  acts : {n : ℕ} {b : Agent} → Quiet a n b → Quiet a (suc n) (check_next b)

abbrev pub HasAlarm : List Alarm → Type 0
HasAlarm [] = ⊥
HasAlarm (x ∷ l) = Unit

-- A goroutine that has run its first statement.
abbrev pub HasStarted : CheckPc → Type 0
HasStarted starting = ⊥
HasStarted selecting = Unit
HasStarted (testing last read_at) = Unit

abbrev pub IsOverdue : Agent → Type 0
IsOverdue a = a.last_heartbeat + a.heartbeat_timeout < a.now

-- At most how many actions the goroutine is from a test of the last heartbeat.
abbrev Ahead : ℕ → CheckPc → ℕ → Type 0
Ahead k starting last = ⊥
Ahead k selecting last = 2 ≤ k
Ahead k (testing l r) last = (3 ≤ k) ⊎ ((1 ≤ k) × (l ≡ last))

abbrev Owed : ℕ → Agent → Type 0
Owed k a =
    HasAlarm a.alarms ⊎ (IsOverdue a × (a.has_handler ≡ true) × Ahead k a.check a.last_heartbeat)

waits-Owed : (k d : ℕ) (a : Agent) → Owed k a → Owed k (record a { now = a.now + d })
waits-Owed k d a (inl h) = inl h
waits-Owed k d a (inr (late, handler, ahead)) = inr (omega (arith, late), handler, ahead)

test-HasAlarm : (l r : ℕ) (a : Agent) → HasAlarm a.alarms → HasAlarm (test l r a).alarms
unfolding test
test-HasAlarm l r a h = ground arith

test_due :
    (l r : ℕ) (a : Agent)
    → l + a.heartbeat_timeout < a.now
    → a.has_handler ≡ true
    → HasAlarm (test l r a).alarms
unfolding test
test_due l r a late handler = ground arith

check_at-HasAlarm : (pc : CheckPc) (a : Agent) → HasAlarm a.alarms → HasAlarm (check_at pc a).alarms
unfolding check_at
check_at-HasAlarm starting a h = h
check_at-HasAlarm selecting a h = h
check_at-HasAlarm (testing l r) a h = test-HasAlarm l r a h

check_at-Owed :
    (k : ℕ) (pc : CheckPc) (a : Agent)
    → IsOverdue a
    → a.has_handler ≡ true
    → Ahead (suc k) pc a.last_heartbeat
    → Owed k (check_at pc a)
unfolding check_at test
check_at-Owed k starting a late handler ahead = elim ahead [ ]
check_at-Owed k selecting a late handler ahead =
    inr (late, handler, inr (omega (arith, ahead), refl))
check_at-Owed k (testing l r) a late handler (inl far) = inr (late, handler, omega (arith, far))
check_at-Owed k (testing l r) a late handler (inr (near, same)) =
    inl (test_due l r a (rw same late) handler)

acts-Owed : (k : ℕ) (a : Agent) → Owed (suc k) a → Owed k (check_next a)
unfolding check_next
acts-Owed k a (inl h) = inl (check_at-HasAlarm a.check a h)
acts-Owed k a (inr (late, handler, ahead)) = check_at-Owed k a.check a late handler ahead

Quiet-Owed : (a : Agent) (j k n : ℕ) (c : Agent) → Quiet a n c → k + n ≡ j → Owed j a → Owed k c
Quiet-Owed a j k zero c at_once e h =
    let same : j ≡ k = omega (arith, e) in subst (λ m. Owed m a) same h
Quiet-Owed a j k n c (waits {b = b} q d) e h = waits-Owed k d b (Quiet-Owed a j k n b q e h)
Quiet-Owed a j k (suc n) c (acts {b = b} q) e h =
    acts-Owed k b (Quiet-Owed a j (suc k) n b q (omega (arith, e)) h)

Owed-HasAlarm : (a : Agent) → Owed 0 a → HasAlarm a.alarms
Owed-HasAlarm a (inl h) = h
Owed-HasAlarm a (inr (late, handler, ahead)) = nothing a.check ahead
  where
    nothing : (pc : CheckPc) → Ahead 0 pc a.last_heartbeat → HasAlarm a.alarms
    nothing starting h = elim h [ ]
    nothing selecting h = absurd (omega (arith, h))
    nothing (testing l r) (inl h) = absurd (omega (arith, h))
    nothing (testing l r) (inr h) = absurd (omega (arith, h.0))

started-Ahead : (k : ℕ) (pc : CheckPc) (last : ℕ) → 3 ≤ k → HasStarted pc → Ahead k pc last
started-Ahead k starting last h s = elim s [ ]
started-Ahead k selecting last h s = omega (arith, h)
started-Ahead k (testing l r) last h s = inl h

-- What stays while no heartbeat comes: the last one, the options, and that the goroutine runs.
check_at-same :
    (pc : CheckPc) (a : Agent)
    → HasStarted pc
    → ((check_at pc a).last_heartbeat ≡ a.last_heartbeat)
      × ((check_at pc a).heartbeat_timeout ≡ a.heartbeat_timeout)
      × ((check_at pc a).has_handler ≡ a.has_handler)
      × HasStarted (check_at pc a).check
unfolding check_at test
check_at-same starting a s = elim s [ ]
check_at-same selecting a s = (refl, refl, refl, tt)
check_at-same (testing l r) a s = (refl, refl, refl, tt)

Quiet-same :
    (a : Agent) (n : ℕ) (b : Agent)
    → HasStarted a.check
    → Quiet a n b
    → (b.last_heartbeat ≡ a.last_heartbeat)
      × (b.heartbeat_timeout ≡ a.heartbeat_timeout)
      × (b.has_handler ≡ a.has_handler)
      × HasStarted b.check
unfolding check_next
Quiet-same a zero b s at_once = (refl, refl, refl, s)
Quiet-same a n b s (waits {b = c} q d) = Quiet-same a n c s q
Quiet-same a (suc n) b s (acts {b = c} q) =
    let (last, timeout, handler, started) = Quiet-same a n c s q in
    let (x, y, z, w) = check_at-same c.check c started in (x ∙ last, y ∙ timeout, z ∙ handler, w)

-- An agent that has a handler and whose goroutine runs calls the handler, if no heartbeat comes, by
-- the third action of the goroutine after the timeout has passed since the last one.
pub Quiet-HasAlarm :
    (n k : ℕ) (a b c : Agent)
    → HasStarted a.check
    → a.has_handler ≡ true
    → Quiet a n b
    → a.last_heartbeat + a.heartbeat_timeout < b.now
    → Quiet b k c
    → 3 ≤ k
    → HasAlarm c.alarms
Quiet-HasAlarm n k a b c s handler before late after enough =
    let (same_last, same_timeout, same_handler, started) = Quiet-same a n b s before in
    Owed-HasAlarm c (
      Quiet-Owed b k 0 k c after (omega arith) (
        inr (
          omega (arith, late, same_last, same_timeout),
          same_handler ∙ handler,
          started-Ahead k b.check b.last_heartbeat enough started,
        )))

-- No step changes the options of an agent.
check_at-options :
    (pc : CheckPc) (a : Agent)
    → ((check_at pc a).heartbeat_timeout ≡ a.heartbeat_timeout)
      × ((check_at pc a).has_handler ≡ a.has_handler)
unfolding check_at test
check_at-options starting a = (refl, refl)
check_at-options selecting a = (refl, refl)
check_at-options (testing l r) a = (refl, refl)

Step-options :
    (a b : Agent)
    → Step a b
    → (b.heartbeat_timeout ≡ a.heartbeat_timeout) × (b.has_handler ≡ a.has_handler)
unfolding heartbeat check_next
Step-options a b (time_passes d e) = rw e (refl, refl)
Step-options a b (beats_once e) = rw e (refl, refl)
Step-options a b (checks e) = rw e (check_at-options a.check a)

pub Reach-options :
    (a b : Agent)
    → Reach a b
    → (b.heartbeat_timeout ≡ a.heartbeat_timeout) × (b.has_handler ≡ a.has_handler)
Reach-options a b here = (refl, refl)
Reach-options a b (later {b = c} r s) =
    let (x, y) = Reach-options a c r in let (z, w) = Step-options c b s in (z ∙ x, w ∙ y)
