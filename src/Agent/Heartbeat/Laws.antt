-- ===== src/Agent/Heartbeat/Laws.antt =====
-- The failure handler is called only for a node whose heartbeats have stopped.
use clustertest.Prelude.{
  ◌≡◌, refl, subst, ℕ, ◌+◌, ◌≤◌, ◌<◌, Bool, true, ◌&&◌, ◌⊎◌, inl, inr, List, ◌∷◌, ltb, All, All-map,
  arith, Bool-cases,
}
use clustertest.Agent.Heartbeat.{
  CheckPc, starting, selecting, testing, Alarm, Agent, new_agent, heartbeat, test, check_at,
  check_next, Step, time_passes, beats_once, checks, Reach, here, later,
}

-- Each heartbeat came no earlier than the read that led to the call, or is older than the timeout.
abbrev pub IsDue : ℕ → List ℕ → Alarm → Type 0
IsDue timeout beats alarm = All (λ b. (alarm.read_at ≤ b) ⊎ (b + timeout < alarm.called_at)) beats

-- What the goroutine knows of the heartbeats at a place.
Known : CheckPc → List ℕ → ℕ → Type 0
Known starting beats now = Unit
Known selecting beats now = Unit
Known (testing last read_at) beats now =
    (read_at ≤ now) × All (λ b. (read_at ≤ b) ⊎ (b ≤ last)) beats

record Inv (timeout : ℕ) (a : Agent) : Type 0 where
  same : a.heartbeat_timeout ≡ timeout
  last_now : a.last_heartbeat ≤ a.now
  beats_last : All (λ b. b ≤ a.last_heartbeat) a.beats
  known : Known a.check a.beats a.now
  due : All (λ x. (x.read_at ≤ a.now) × IsDue timeout a.beats x) a.alarms

module _ (timeout : ℕ) where
  Known-later :
      (pc : CheckPc) (beats : List ℕ) (n d : ℕ) → Known pc beats n → Known pc beats (n + d)
  unfolding Known
  Known-later starting beats n d h = tt
  Known-later selecting beats n d h = tt
  Known-later (testing last r) beats n d h = (omega (arith, h.0), h.1)

  Known-beat : (pc : CheckPc) (beats : List ℕ) (n : ℕ) → Known pc beats n → Known pc (n ∷ beats) n
  unfolding Known
  Known-beat starting beats n h = tt
  Known-beat selecting beats n h = tt
  Known-beat (testing last r) beats n h = (h.0, (inl h.0, h.1))

  time_passes-Inv : (a : Agent) (d : ℕ) → Inv timeout a → Inv timeout (record a { now = a.now + d })
  time_passes-Inv a d i = record {
    same = i.same;
    last_now = omega (arith, i.last_now);
    beats_last = i.beats_last;
    known = Known-later a.check a.beats a.now d i.known;
    due = All-map (λ x h. (omega (arith, h.0), h.1)) a.alarms i.due;
  }

  heartbeat-Inv : (a : Agent) → Inv timeout a → Inv timeout (heartbeat a).1
  unfolding heartbeat
  heartbeat-Inv a i = record {
    same = i.same;
    last_now = omega arith;
    beats_last = (omega arith, All-map (λ b h. omega (arith, h, i.last_now)) a.beats i.beats_last);
    known = Known-beat a.check a.beats a.now i.known;
    due = All-map (λ x h. (h.0, (inl h.0, h.1))) a.alarms i.due;
  }

  test-Inv :
      (last r : ℕ) (a : Agent)
      → Inv timeout a
      → (r ≤ a.now) × All (λ b. (r ≤ b) ⊎ (b ≤ last)) a.beats
      → Inv timeout (test last r a)
  unfolding test Known
  test-Inv last r a i h = record {
    same = i.same;
    last_now = i.last_now;
    beats_last = i.beats_last;
    known = tt;
    due = elim (Bool-cases (ltb (last + a.heartbeat_timeout) a.now && a.has_handler)) [
      | inl e ↦ rw e ((h.0, All-map (λ b k. fires b e k) a.beats h.1), i.due)
      | inr e ↦ rw e i.due
    ];
  }
    where
      late :
          (b : ℕ)
          → ltb (last + a.heartbeat_timeout) a.now && a.has_handler ≡ true
          → b ≤ last
          → b + timeout < a.now
      late b e k = ground (arith, i.same)

      fires :
          (b : ℕ)
          → ltb (last + a.heartbeat_timeout) a.now && a.has_handler ≡ true
          → (r ≤ b) ⊎ (b ≤ last)
          → (r ≤ b) ⊎ (b + timeout < a.now)
      fires b e (inl k) = inl k
      fires b e (inr k) = inr (late b e k)

  check_at-Inv :
      (pc : CheckPc) (a : Agent) → a.check ≡ pc → Inv timeout a → Inv timeout (check_at pc a)
  unfolding check_at Known
  check_at-Inv starting a e i = record {
    same = i.same;
    last_now = omega arith;
    beats_last = All-map (λ b h. omega (arith, h, i.last_now)) a.beats i.beats_last;
    known = tt;
    due = i.due;
  }
  check_at-Inv selecting a e i = record {
    same = i.same;
    last_now = i.last_now;
    beats_last = i.beats_last;
    known = (omega arith, All-map (λ b h. inr h) a.beats i.beats_last);
    due = i.due;
  }
  check_at-Inv (testing last r) a e i =
      test-Inv last r a i (subst (λ pc. Known pc a.beats a.now) e i.known)

  Step-Inv : (a b : Agent) → Step a b → Inv timeout a → Inv timeout b
  unfolding check_next
  Step-Inv a b (time_passes d e) i = rw e (time_passes-Inv a d i)
  Step-Inv a b (beats_once e) i = rw e (heartbeat-Inv a i)
  Step-Inv a b (checks e) i = rw e (check_at-Inv a.check a refl i)

  Reach-Inv :
      (handler : Bool) (time : ℕ) (a : Agent)
      → Reach (new_agent timeout handler time) a
      → Inv timeout a
  unfolding Known
  Reach-Inv handler time a here = record {
    same = refl;
    last_now = omega arith;
    beats_last = tt;
    known = tt;
    due = tt;
  }
  Reach-Inv handler time a (later {b} r s) = Step-Inv b a s (Reach-Inv handler time b r)

-- In every reachable state of an agent, each call of the failure handler came when every heartbeat
-- from before that check's read of `lastHeartbeat` was older than the timeout.
pub Reach-IsDue :
    (timeout : ℕ) (handler : Bool) (time : ℕ) (a : Agent)
    → Reach (new_agent timeout handler time) a
    → All (IsDue timeout a.beats) a.alarms
Reach-IsDue timeout handler time a r =
    All-map (λ x h. h.1) a.alarms (Reach-Inv timeout handler time a r).due
