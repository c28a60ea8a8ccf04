-- ===== src/Agent/Heartbeat/Fed.antt =====
-- An agent that is fed: `startHeartbeatCheck` of agent/agent.go never calls the handler.
use clustertest.Prelude.{◌≡◌, refl, sym, subst, ◌∙◌, ℕ, ◌+◌, ◌≤◌, Bool, [], arith}
use clustertest.Agent.Heartbeat.Silence.{HasStarted}
use clustertest.Agent.Heartbeat.{
  CheckPc, starting, selecting, testing, Agent, new_agent, heartbeat, test, check_at, check_next,
  Step, time_passes, beats_once, checks,
}

-- The last heartbeat is at most `period` old once the goroutine runs, and between its two critical
-- sections at most `delay` passes.
abbrev pub IsTimely : ℕ → ℕ → CheckPc → ℕ → ℕ → Type 0
IsTimely period delay starting last now = Unit
IsTimely period delay selecting last now = now ≤ last + period
IsTimely period delay (testing l r) last now = (now ≤ last + period) × (now ≤ r + delay)

abbrev pub IsFed : ℕ → ℕ → Agent → Type 0
IsFed period delay a = IsTimely period delay a.check a.last_heartbeat a.now

-- The runs of an agent that is fed all the time.
pub data Fed (period delay : ℕ) (a : Agent) : Agent → Type 0 where
  here : Fed period delay a a
  later :
      {b c : Agent} → Fed period delay a b → Step b c → IsFed period delay c → Fed period delay a c

module _ (period delay : ℕ) where
  -- What was read is no older than that either.
  abbrev WasFed : CheckPc → Type 0
  WasFed starting = Unit
  WasFed selecting = Unit
  WasFed (testing l r) = r ≤ l + period

  abbrev Calm : ℕ → Agent → Type 0
  Calm timeout a =
      (a.heartbeat_timeout ≡ timeout) × (a.alarms ≡ []) × IsFed period delay a × WasFed a.check

  test-Calm :
      (l r : ℕ) (a : Agent)
      → period + delay ≤ a.heartbeat_timeout
      → r ≤ l + period
      → a.now ≤ r + delay
      → (test l r a).alarms ≡ a.alarms
  unfolding test
  test-Calm l r a fits read soon = ground arith

  check_at-Calm :
      (timeout : ℕ) (pc : CheckPc) (a : Agent)
      → period + delay ≤ timeout
      → a.heartbeat_timeout ≡ timeout
      → a.alarms ≡ []
      → IsTimely period delay pc a.last_heartbeat a.now
      → WasFed pc
      → IsFed period delay (check_at pc a)
      → Calm timeout (check_at pc a)
  unfolding check_at test
  check_at-Calm timeout starting a fits same none fed was after = (same, none, after, tt)
  check_at-Calm timeout selecting a fits same none fed was after = (same, none, after, fed)
  check_at-Calm timeout (testing l r) a fits same none fed was after =
      (same, test-Calm l r a (rw same fits) was fed.1 ∙ none, after, tt)

  Step-Calm :
      (timeout : ℕ) (a b : Agent)
      → period + delay ≤ timeout
      → Step a b
      → IsFed period delay b
      → Calm timeout a
      → Calm timeout b
  unfolding check_next heartbeat
  Step-Calm timeout a b fits (time_passes d e) after (same, none, fed, was) =
      subst (Calm timeout) (sym e) (same, none, subst (IsFed period delay) e after, was)
  Step-Calm timeout a b fits (beats_once e) after (same, none, fed, was) =
      subst (Calm timeout) (sym e) (same, none, subst (IsFed period delay) e after, was)
  Step-Calm timeout a b fits (checks e) after (same, none, fed, was) =
      subst (Calm timeout) (sym e) (
        check_at-Calm timeout a.check a fits same none fed was (subst (IsFed period delay) e after))

  -- If, once its goroutine runs, an agent's last heartbeat is never older than `period` and each check
  -- takes at most `delay` from its read on, and the two together are within the timeout, then the
  -- failure handler is never called.
  pub alarms-Fed :
      (timeout : ℕ) (handler : Bool) (time : ℕ) (a : Agent)
      → period + delay ≤ timeout
      → Fed period delay (new_agent timeout handler time) a
      → a.alarms ≡ []
  alarms-Fed timeout handler time a fits run = (all_calm a run).1
    where
      all_calm : (a : Agent) → Fed period delay (new_agent timeout handler time) a → Calm timeout a
      all_calm a here = (refl, refl, tt, tt)
      all_calm a (later {b = b} r s f) = Step-Calm timeout b a fits s f (all_calm b r)

-- At most `delay` has passed since the read, between the two critical sections.
abbrev pub IsPrompt : ℕ → CheckPc → ℕ → Type 0
IsPrompt delay starting now = Unit
IsPrompt delay selecting now = Unit
IsPrompt delay (testing l r) now = now ≤ r + delay

pub at-IsTimely :
    (period delay : ℕ) (pc : CheckPc) (last now : ℕ)
    → now ≤ last + period
    → IsPrompt delay pc now
    → IsTimely period delay pc last now
at-IsTimely period delay starting last now h p = tt
at-IsTimely period delay selecting last now h p = h
at-IsTimely period delay (testing l r) last now h p = (h, p)

-- What an action of a goroutine that runs leaves: the last heartbeat and the time; and it is prompt.
abbrev pub IsActed : ℕ → Agent → Agent → Type 0
IsActed delay a b =
    (b.last_heartbeat ≡ a.last_heartbeat)
    × (b.now ≡ a.now)
    × HasStarted b.check
    × IsPrompt delay b.check b.now

check_at-IsActed :
    (delay : ℕ) (pc : CheckPc) (a : Agent) → HasStarted pc → IsActed delay a (check_at pc a)
unfolding check_at test
check_at-IsActed delay starting a s = elim s [ ]
check_at-IsActed delay selecting a s = (refl, refl, tt, omega arith)
check_at-IsActed delay (testing l r) a s = (refl, refl, tt, tt)

pub check_next-IsActed :
    (delay : ℕ) (a : Agent) → HasStarted a.check → IsActed delay a (check_next a)
unfolding check_next
check_next-IsActed delay a s = check_at-IsActed delay a.check a s
