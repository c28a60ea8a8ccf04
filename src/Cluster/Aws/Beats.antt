-- ===== src/Cluster/Aws/Beats.antt =====
-- The loop of `StartHeartbeat` in cluster/aws/node.go and the check of agent/agent.go on one clock.
use clustertest.Prelude.{◌≡◌, refl, sym, subst, ℕ, ◌+◌, ◌≤◌, Bool, [], Option, none, some, arith}
use clustertest.Agent.Heartbeat.{
  Agent, new_agent, heartbeat, check_next, time_passes, beats_once, checks,
}
use clustertest.Agent.Heartbeat.Silence.{HasStarted}
use clustertest.Agent.Heartbeat.Fed.{
  IsFed, Fed, IsPrompt, at-IsTimely, check_next-IsActed, alarms-Fed,
}

-- The agent, the time of the ticker's next tick, and when the heartbeat was sent that is on its way.
-- The loop calls `Heartbeat` and waits for it before it takes the next tick.
pub record Beaten : Type 0 where
  pub agent : Agent
  pub next_tick : ℕ
  pub sent : Option ℕ

-- Ten seconds, in milliseconds.
abbrev pub interval : ℕ
interval = 10000

-- At most `limit` has passed since the time, if there is one.
abbrev IsBefore : ℕ → Option ℕ → ℕ → Type 0
IsBefore now none limit = Unit
IsBefore now (some t) limit = now ≤ t + limit

-- A step, where a heartbeat arrives within `latency`, a tick is taken at its time, and the agent's
-- check takes at most `delay` from its read on.
pub data Step (latency delay : ℕ) (a b : Beaten) : Type 0 where
  passes :
      (d : ℕ)
      → b ≡ record a { agent = record a.agent { now = a.agent.now + d } }
      → a.agent.now + d ≤ a.next_tick
      → IsBefore (a.agent.now + d) a.sent latency
      → IsPrompt delay a.agent.check (a.agent.now + d)
      → Step latency delay a b
  ticks :
      a.sent ≡ none
      → a.agent.now ≡ a.next_tick
      → b ≡ record a { sent = some a.agent.now; next_tick = a.next_tick + interval }
      → Step latency delay a b
  arrives :
      (t : ℕ)
      → a.sent ≡ some t
      → b ≡ record a { agent = (heartbeat a.agent).1; sent = none }
      → Step latency delay a b
  agent_checks : b ≡ record a { agent = check_next a.agent } → Step latency delay a b

pub data Reach (latency delay : ℕ) (a : Beaten) : Beaten → Type 0 where
  here : Reach latency delay a a
  later :
      {b c : Beaten} → Reach latency delay a b → Step latency delay b c → Reach latency delay a c

module _ (period latency delay : ℕ) where
  -- What bounds the next arrival, with no heartbeat on its way and with one.
  abbrev IsComing : Option ℕ → ℕ → ℕ → ℕ → Type 0
  IsComing none last now next = next ≤ last + period
  IsComing (some t) last now next =
      (t ≤ now) × (t ≤ last + period) × (now ≤ t + latency) × (next ≤ t + interval)

  -- A loop that beats the agent in time.
  pub record InTime (a : Beaten) : Type 0 where
    pub runs : HasStarted a.agent.check
    pub prompt : IsPrompt delay a.agent.check a.agent.now
    pub before_tick : a.agent.now ≤ a.next_tick
    pub coming : IsComing a.sent a.agent.last_heartbeat a.agent.now a.next_tick

  IsComing-fed :
      (sent : Option ℕ) (last now next : ℕ)
      → now ≤ next
      → IsComing sent last now next
      → now ≤ last + (period + latency)
  IsComing-fed none last now next h c = omega (arith, h, c)
  IsComing-fed (some t) last now next h (past, soon, fast, c) = omega (arith, soon, fast)

  InTime-IsFed : (a : Beaten) → InTime a → IsFed (period + latency) delay a.agent
  InTime-IsFed a i =
      at-IsTimely (period + latency) delay a.agent.check a.agent.last_heartbeat a.agent.now
        (IsComing-fed a.sent a.agent.last_heartbeat a.agent.now a.next_tick i.before_tick i.coming)
        i.prompt

  later-IsComing :
      (sent : Option ℕ) (last now next d : ℕ)
      → IsBefore (now + d) sent latency
      → IsComing sent last now next
      → IsComing sent last (now + d) next
  later-IsComing none last now next d b c = c
  later-IsComing (some t) last now next d b (past, soon, fast, c) =
      (omega (arith, past), soon, b, c)

  passes-InTime :
      (a : Beaten) (d : ℕ)
      → a.agent.now + d ≤ a.next_tick
      → IsBefore (a.agent.now + d) a.sent latency
      → IsPrompt delay a.agent.check (a.agent.now + d)
      → InTime a
      → InTime (record a { agent = record a.agent { now = a.agent.now + d } })
  passes-InTime a d before on_way prompt i = record {
    runs = i.runs;
    prompt = prompt;
    before_tick = before;
    coming = later-IsComing a.sent a.agent.last_heartbeat a.agent.now a.next_tick d on_way i.coming;
  }

  ticks-InTime :
      (a : Beaten)
      → a.sent ≡ none
      → a.agent.now ≡ a.next_tick
      → InTime a
      → InTime (record a { sent = some a.agent.now; next_tick = a.next_tick + interval })
  ticks-InTime a none_sent now i =
      let c =
        subst (λ x. IsComing x a.agent.last_heartbeat a.agent.now a.next_tick) none_sent i.coming in
      record {
        runs = i.runs;
        prompt = i.prompt;
        before_tick = omega (arith, now);
        coming = (omega arith, omega (arith, now, c), omega arith, omega (arith, now));
      }

  arrives-InTime :
      (a : Beaten) (t : ℕ)
      → interval ≤ period
      → a.sent ≡ some t
      → InTime a
      → InTime (record a { agent = (heartbeat a.agent).1; sent = none })
  unfolding heartbeat
  arrives-InTime a t fits on_way i =
      let (past, soon, fast, c) =
        subst (λ x. IsComing x a.agent.last_heartbeat a.agent.now a.next_tick) on_way i.coming in
      record {
        runs = i.runs;
        prompt = i.prompt;
        before_tick = i.before_tick;
        coming = omega (arith, fits, past, c);
      }

  checks-InTime : (a : Beaten) → InTime a → InTime (record a { agent = check_next a.agent })
  checks-InTime a i =
      let (last, now, runs, prompt) = check_next-IsActed delay a.agent i.runs in
      record {
        runs = runs;
        prompt = prompt;
        before_tick = omega (arith, now, i.before_tick);
        coming =
            subst (λ x. IsComing a.sent x (check_next a.agent).now a.next_tick) (sym last)
              (subst (λ x. IsComing a.sent a.agent.last_heartbeat x a.next_tick) (sym now)
                i.coming);
      }

  -- The agent of a loop in time, whose run from `start` was fed.
  abbrev IsGood : Agent → Beaten → Type 0
  IsGood start a = InTime a × Fed (period + latency) delay start a.agent

  Step-IsGood :
      (start : Agent) (a b : Beaten)
      → interval ≤ period
      → Step latency delay a b
      → IsGood start a
      → IsGood start b
  Step-IsGood start a b fits (passes d e before on_way prompt) (i, fed) =
      let j = passes-InTime a d before on_way prompt i in
      subst (IsGood start) (sym e) (j, Fed.later fed (time_passes d refl) (InTime-IsFed _ j))
  Step-IsGood start a b fits (ticks none_sent now e) (i, fed) =
      subst (IsGood start) (sym e) (ticks-InTime a none_sent now i, fed)
  Step-IsGood start a b fits (arrives t on_way e) (i, fed) =
      let j = arrives-InTime a t fits on_way i in
      subst (IsGood start) (sym e) (j, Fed.later fed (beats_once refl) (InTime-IsFed _ j))
  Step-IsGood start a b fits (agent_checks e) (i, fed) =
      let j = checks-InTime a i in
      subst (IsGood start) (sym e) (j, Fed.later fed (checks refl) (InTime-IsFed _ j))

  Reach-IsGood :
      (start : Agent) (a b : Beaten)
      → interval ≤ period
      → Reach latency delay a b
      → IsGood start a
      → IsGood start b
  Reach-IsGood start a b fits here good = good
  Reach-IsGood start a b fits (later {b = c} r s) good =
      Step-IsGood start c b fits s (Reach-IsGood start a c fits r good)

  -- An agent that was fed until a loop of `StartHeartbeat` beats it in time never calls its handler
  -- from then on, if its timeout covers the longest wait for a tick, the latency and a check.
  pub alarms-Reach :
      (timeout : ℕ) (handler : Bool) (time : ℕ) (a b : Beaten)
      → interval ≤ period
      → period + latency + delay ≤ timeout
      → Fed (period + latency) delay (new_agent timeout handler time) a.agent
      → InTime a
      → Reach latency delay a b
      → b.agent.alarms ≡ []
  alarms-Reach timeout handler time a b fits enough fed i run =
      alarms-Fed (period + latency) delay timeout handler time b.agent enough
        (Reach-IsGood (new_agent timeout handler time) a b fits run (i, fed)).1
