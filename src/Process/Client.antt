-- ===== src/Process/Client.antt =====
-- agent/process/client.go: `clientProcRunner` as a state with one program counter for each of its
-- goroutines. A step is one action of one of them, or of the connection or a context.
pub mod Streams
pub mod Answers
pub mod Shutdown
pub mod Faults
use clustertest.Prelude.{
  ◌≡◌, ℤ, negsuc, Bool, true, false, not, ◌&&◌, List, [], ◌∷◌, Option, none, some, Error, canceled,
  wrap, is_nonempty, if◌then◌else◌,
}
use mathlib.Core.Option
use clustertest.Process.Types.{Response, CmdResult, Status, normal_closure, internal_error}
use clustertest.Process.Sink.{Sink, SinkStep, new_sink, close, offer, returned}

-- What `wsjson.Read` gives: a message, an error with a close status, or any other error.
pub data Incoming : Type 0 where
  message : Response → Incoming
  peer_closed : Error → Incoming
  failed : Error → Incoming

-- How `readMessages` leaves its loop.
pub data Ending : Type 0 where
  drop_channels : Ending
  close_conn : Status → Ending

-- Where `readMessages` stands: its loop, then its deferred calls.
pub data ReaderPc : Type 0 where
  reading : ReaderPc
  put_stderr : Response → ReaderPc
  done_stderr : Response → ReaderPc
  put_stdout : Response → ReaderPc
  done_stdout : Response → ReaderPc
  check_exit : Response → ReaderPc
  report : CmdResult → Ending → ReaderPc
  closing : Status → ReaderPc
  leave_stdout : ReaderPc
  leave_stderr : ReaderPc
  cancelling : ReaderPc
  joining : ReaderPc
  stopped : ReaderPc

-- `past` and `answers` are history: the messages that the loop has dealt with, and what the calls
-- of `Wait` have returned, both latest first. The other fields are those of `clientProcRunner`.
pub record Client : Type 0 where
  pub pc : ReaderPc
  pub stdout : Sink
  pub stderr : Sink
  pub stdin_done : Bool
  pub result : Option CmdResult
  pub canceled_ctx : Bool
  pub closed_with : Option Status
  pub past : List Response
  pub answers : List CmdResult

-- The runner after `writeFirstMessage` has succeeded and all four goroutines are started.
abbrev pub start : Client
start = record {
  pc = reading;
  stdout = new_sink;
  stderr = new_sink;
  stdin_done = false;
  result = none;
  canceled_ctx = false;
  closed_with = none;
  past = [];
  answers = [];
}

-- `run`, with the error of `writeFirstMessage`: if there is one, `shutdown` is called with the two
-- goroutines that write already started, and the others not.
unfoldable pub run : Option Error → Client
run none = start
run (some e) = record start { pc = cancelling; stdin_done = true }

-- `r.close`: the first close of the connection counts.
abbrev pub close_once : Status → Option Status → Option Status
close_once status none = some status
close_once status (some first) = some first

-- The read at the head of the loop, and the tests of its error.
unfoldable pub receive : Incoming → Client → Client
receive (message m) s = record s { pc = put_stderr m }
receive (peer_closed e) s = record s {
  pc =
      report (record { code = negsuc 0; error = some (wrap "conn unexpectedly closed" [] e) })
        drop_channels;
}
receive (failed e) s = record s {
  pc = report (record { code = ℤ.pos 0; error = some e }) (close_conn internal_error);
}

-- The next action of `readMessages`; `none` where it is blocked.
advance_at : ReaderPc → Client → Option Client
advance_at reading s = none
advance_at (put_stderr m) s =
    if is_nonempty m.stderr && not s.stderr.closed
    then Option.map (λ x. record s { stderr = x; pc = done_stderr m }) (offer s.stderr m.stderr)
    else some (record s { pc = done_stderr m })
advance_at (done_stderr m) s =
    some
      (record s { stderr = if m.stderr_done then close s.stderr else s.stderr; pc = put_stdout m })
advance_at (put_stdout m) s =
    if is_nonempty m.stdout && not s.stdout.closed
    then Option.map (λ x. record s { stdout = x; pc = done_stdout m }) (offer s.stdout m.stdout)
    else some (record s { pc = done_stdout m })
advance_at (done_stdout m) s = some (record s {
  stdout = if m.stdout_done && not s.stdout.closed then close s.stdout else s.stdout;
  pc = check_exit m;
})
advance_at (check_exit m) s = some (record s {
  past = m ∷ s.past;
  pc =
      if m.exited
      then report (record { code = m.exit_code; error = none }) (close_conn normal_closure)
      else reading;
})
advance_at (report r (close_conn status)) s =
    some (record s { result = some r; pc = closing status })
advance_at (report r drop_channels) s = some (record s {
  result = some r;
  stderr = close s.stderr;
  stdout = close s.stdout;
  pc = leave_stdout;
})
advance_at (closing status) s =
    some (record s { closed_with = close_once status s.closed_with; pc = leave_stdout })
advance_at leave_stdout s = some (record s { stdout = close s.stdout; pc = leave_stderr })
advance_at leave_stderr s = some (record s { stderr = close s.stderr; pc = cancelling })
advance_at cancelling s = some (record s { canceled_ctx = true; pc = joining })
advance_at joining s =
    if s.stdin_done && returned s.stdout.pc && returned s.stderr.pc
    then some (record s { pc = stopped })
    else none
advance_at stopped s = none

unfoldable pub advance : Client → Option Client
unfolding advance_at
advance s = advance_at s.pc s

-- `Process.wait`: any case of its `select` that is ready.
pub data Waits (s : Client) (r : CmdResult) (t : Client) : Type 0 where
  take_result :
      s.result ≡ some r → t ≡ record s { result = none; answers = r ∷ s.answers } → Waits s r t
  caller_done :
      (e : Error)
      → r ≡ record { code = negsuc 0; error = some e }
      → t ≡ record s { answers = r ∷ s.answers }
      → Waits s r t
  runner_done :
      s.canceled_ctx ≡ true
      → r ≡ record { code = negsuc 0; error = some canceled }
      → t ≡ record s { answers = r ∷ s.answers }
      → Waits s r t

-- One action of one goroutine; `cancel_ctx` is the context given to `StartProc`.
pub data Step (s t : Client) : Type 0 where
  receives : (i : Incoming) → s.pc ≡ reading → t ≡ receive i s → Step s t
  advances : advance s ≡ some t → Step s t
  stdout_moves : (x : Sink) → SinkStep s.stdout x → t ≡ record s { stdout = x } → Step s t
  stderr_moves : (x : Sink) → SinkStep s.stderr x → t ≡ record s { stderr = x } → Step s t
  stdin_ends : t ≡ record s { stdin_done = true } → Step s t
  waits : (r : CmdResult) → Waits s r t → Step s t
  cancel_ctx : t ≡ record s { canceled_ctx = true } → Step s t

-- Reached from `a` by any number of steps.
pub data Reach (a : Client) : Client → Type 0 where
  here : Reach a a
  later : {s t : Client} → Reach a s → Step s t → Reach a t
