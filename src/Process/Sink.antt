-- ===== src/Process/Sink.antt =====
-- The goroutines that range over a channel of chunks and write them: `readStdout` and `readStderr`
-- of agent/process/client.go, and `readStdin` of agent/process/server.go. The channel has no buffer.
pub mod Laws
use clustertest.Prelude.{◌≡◌, Bool, true, false, [], ◌++◌, Option, none, some}
use clustertest.Process.Types.{Bytes}

-- Where the goroutine stands. `broken` keeps what the failed `Write` did not take.
pub data SinkPc : Type 0 where
  waiting : SinkPc
  writing : Bytes → SinkPc
  broken : Bytes → SinkPc
  ended : SinkPc

-- `closed` is the channel's state, `written` what the writer was given so far.
pub record Sink : Type 0 where
  pub pc : SinkPc
  pub closed : Bool
  pub written : Bytes

abbrev pub new_sink : Sink
new_sink = record { pc = waiting; closed = false; written = [] }

-- `close(ch)`
abbrev pub close : Sink → Sink
close s = record s { closed = true }

-- `ch <- b`: it goes through when the goroutine waits at the channel, and blocks otherwise.
abbrev offer_at : SinkPc → Sink → Bytes → Option Sink
offer_at waiting s b = some (record s { pc = writing b })
offer_at _ s b = none

abbrev pub offer : Sink → Bytes → Option Sink
offer s b = offer_at s.pc s b

-- A step of the goroutine. A `Write` that fails may have taken a part of the chunk.
pub data SinkStep (s t : Sink) : Type 0 where
  write :
      (b : Bytes)
      → s.pc ≡ writing b
      → t ≡ record s { pc = waiting; written = s.written ++ b }
      → SinkStep s t
  fail :
      (p q : Bytes)
      → s.pc ≡ writing (p ++ q)
      → t ≡ record s { pc = broken q; written = s.written ++ p }
      → SinkStep s t
  range_end : s.pc ≡ waiting → s.closed ≡ true → t ≡ record s { pc = ended } → SinkStep s t

-- What has come through the channel and was not written.
abbrev pub held : SinkPc → Bytes
held (writing b) = b
held (broken b) = b
held _ = []

-- What has come through the channel.
abbrev pub taken : Sink → Bytes
taken s = s.written ++ held s.pc

-- The goroutine has returned, so that `wg.Done()` was called.
abbrev pub returned : SinkPc → Bool
returned (broken _) = true
returned ended = true
returned _ = false
