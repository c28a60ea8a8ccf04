-- ===== src/Agent/Heartbeat.antt =====
-- agent/agent.go: `startHeartbeatCheck` and the `heartbeat` handler, as steps of an agent on a clock.
pub mod Laws
pub mod Silence
pub mod Fed
use clustertest.Prelude.{
  ◌≡◌, ℕ, ◌+◌, ◌<◌, Bool, true, false, ◌&&◌, List, [], ◌∷◌, ltb, if◌then◌else◌,
}

-- Where the checking goroutine stands: before its first statement, in the `select`, or between the
-- two critical sections, with the value that it read and the time at which it did.
pub data CheckPc : Type 0 where
  starting : CheckPc
  selecting : CheckPc
  testing : ℕ → ℕ → CheckPc

-- A call of the failure handler, with the time of the read that led to it.
pub record Alarm : Type 0 where
  pub read_at : ℕ
  pub called_at : ℕ

-- The part of `NodeAgent` that heartbeats use, the time, and what has happened, newest first. The
-- zero time of `lastHeartbeat` is 0.
pub record Agent : Type 0 where
  pub heartbeat_timeout : ℕ
  pub has_handler : Bool
  pub last_heartbeat : ℕ
  pub check : CheckPc
  pub now : ℕ
  pub beats : List ℕ
  pub alarms : List Alarm

-- An agent before `Run`, at some time.
abbrev pub new_agent : ℕ → Bool → ℕ → Agent
new_agent timeout handler time = record {
  heartbeat_timeout = timeout;
  has_handler = handler;
  last_heartbeat = 0;
  check = starting;
  now = time;
  beats = [];
  alarms = [];
}

-- The `heartbeat` handler: the time that it answers, and the agent.
unfoldable pub heartbeat : Agent → ℕ × Agent
heartbeat a = (a.last_heartbeat, record a { last_heartbeat = a.now; beats = a.now ∷ a.beats })

-- The test of a value that was read, and the call of the handler unless it is nil.
unfoldable pub test : ℕ → ℕ → Agent → Agent
test last read_at a = record a {
  check = selecting;
  alarms =
      if ltb (last + a.heartbeat_timeout) a.now && a.has_handler
      then record { read_at = read_at; called_at = a.now } ∷ a.alarms
      else a.alarms;
}

-- The next action of the checking goroutine. `a.closed` is nil, so only the ticker is ever selected.
check_at : CheckPc → Agent → Agent
unfolding test
check_at starting a = record a { last_heartbeat = a.now; check = selecting }
check_at selecting a = record a { check = testing a.last_heartbeat a.now }
check_at (testing last read_at) a = test last read_at a

unfoldable pub check_next : Agent → Agent
unfolding check_at
check_next a = check_at a.check a

pub data Step (a b : Agent) : Type 0 where
  time_passes : (d : ℕ) → b ≡ record a { now = a.now + d } → Step a b
  beats_once : b ≡ (heartbeat a).1 → Step a b
  checks : b ≡ check_next a → Step a b

pub data Reach (a : Agent) : Agent → Type 0 where
  here : Reach a a
  later : {b c : Agent} → Reach a b → Step b c → Reach a c
