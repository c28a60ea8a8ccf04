-- ===== src/Process/Server.antt =====
-- agent/process/server.go: how `serverProcRunner` starts, and its run as a state with a program
-- counter for each goroutine. A step is an action of one of them, of the process or the connection.
pub mod Stdin
pub mod Output
pub mod Launch
use clustertest.Prelude.{
  ◌≡◌, ℤ, String, Bool, true, false, not, ◌&&◌, ◌||◌, List, [], ◌∷◌, ◌++◌, Option, none, some,
  Error, Result, ok, err, is_nonempty, if◌then◌else◌,
}
use clustertest.Process.Types.{Bytes, Request, Response, Status, normal_closure, internal_error}
use clustertest.Process.Sink.{Sink, SinkStep, new_sink, close, offer, returned}

-- `exec.Cmd` as `readFirstMessageAndStart` builds it. With no environment it inherits the server's.
pub record Command : Type 0 where
  pub path : String
  pub args : List String
  pub dir : String
  pub env : Option (List String)

unfoldable pub build_command : List String → Request → Command
build_command environ req = record {
  path = req.command;
  args = req.args;
  dir = req.wd;
  env = if is_nonempty req.env then some (environ ++ req.env) else none;
}

-- How `run` goes on after `readFirstMessageAndStart`.
pub data Started : Type 0 where
  running : Command → Started
  closed : Status → Started
  panicked : Started

-- `shutdown` reads `r.cmd.Process`, which is a nil dereference before the command is built.
abbrev refuse : Option Command → Started
refuse none = panicked
refuse (some c) = closed internal_error

-- `readFirstMessageAndStart`: the command, if it was built, and the error. `first` is what the first
-- read gives, `start` is `cmd.Start`.
unfoldable pub read_first_message_and_start :
    List String → (Command → Option Error) → Result Request → Option Command × Option Error
unfolding build_command
read_first_message_and_start environ start (err e) = (none, some e)
read_first_message_and_start environ start (ok req) =
    (some (build_command environ req), start (build_command environ req))

-- How `run` goes on; without a command and an error, `waitAndWriteResult` would dereference nil.
abbrev pub started_as : Option Command × Option Error → Started
started_as (c, some e) = refuse c
started_as (some c, none) = running c
started_as (none, none) = panicked

-- The first half of `run`.
unfoldable pub run_first : List String → (Command → Option Error) → Result Request → Started
unfolding read_first_message_and_start
run_first environ start first = started_as (read_first_message_and_start environ start first)

-- What `wsjson.Read` gives: a message, the client's normal closure, or any other error.
pub data Incoming : Type 0 where
  message : Request → Incoming
  closed_normally : Incoming
  failed : Incoming

-- Where `readMessages` stands: its loop, the close of its channel, its deferred calls.
pub data ReaderPc : Type 0 where
  reading : ReaderPc
  put_stdin : Request → ReaderPc
  done_stdin : Request → ReaderPc
  shutting : Option Status → ReaderPc
  closing : Status → ReaderPc
  killing : ReaderPc
  cancelling : ReaderPc
  joining : ReaderPc
  stopped : ReaderPc

-- Where `waitAndWriteResult` stands.
pub data WaiterPc : Type 0 where
  waiting : WaiterPc
  exited : ℤ → WaiterPc
  finished : WaiterPc

-- The last five fields are history: the requests that the loop has dealt with and the responses that
-- the connection took, both latest first, what those carried of stdout and stderr as the process
-- wrote it, and the exit code.
pub record Server : Type 0 where
  pub pc : ReaderPc
  pub stdin : Sink
  pub closed_stdin : Bool
  pub waiter : WaiterPc
  pub killed : Bool
  pub canceled_ctx : Bool
  pub closed_with : Option Status
  pub past : List Request
  pub sent : List Response
  pub out : Bytes
  pub error_out : Bytes
  pub code : Option ℤ

-- The runner when its three goroutines are started.
abbrev pub start : Server
start = record {
  pc = reading;
  stdin = new_sink;
  closed_stdin = false;
  waiter = waiting;
  killed = false;
  canceled_ctx = false;
  closed_with = none;
  past = [];
  sent = [];
  out = [];
  error_out = [];
  code = none;
}

abbrev pub close_once : Status → Option Status → Option Status
close_once status none = some status
close_once status (some first) = some first

-- The next state of a goroutine: it is blocked, it panics, or it moves.
pub data Next : Type 0 where
  blocked : Next
  panic : Next
  to : Server → Next

-- `close(r.stdinCh)`: a second close of a channel panics.
close_stdin : Server → Next
close_stdin s = if s.stdin.closed then panic else to (record s { stdin = close s.stdin })

abbrev then_to : (Server → Server) → Next → Next
then_to f (to s) = to (f s)
then_to f blocked = blocked
then_to f panic = panic

abbrev move : ReaderPc → Server → Server
move p s = record s { pc = p }

-- The read at the head of the loop, and the tests of its error.
unfoldable pub receive : Incoming → Server → Server
receive (message m) s = record s { pc = put_stdin m }
receive closed_normally s = record s { pc = shutting none }
receive failed s = record s { pc = shutting (some internal_error) }

abbrev sink_to : Request → Server → Option Sink → Next
sink_to m s none = blocked
sink_to m s (some x) = to (record s { stdin = x; pc = done_stdin m })

after_shut : Option Status → ReaderPc
after_shut none = killing
after_shut (some status) = closing status

is_finished : WaiterPc → Bool
is_finished finished = true
is_finished _ = false

-- The next action of `readMessages`.
advance_at : ReaderPc → Server → Next
unfolding close_stdin after_shut is_finished
advance_at reading s = blocked
advance_at (put_stdin m) s =
    if is_nonempty m.stdin && not s.closed_stdin
    then sink_to m s (offer s.stdin m.stdin)
    else to (record s { pc = done_stdin m })
advance_at (done_stdin m) s =
    if m.stdin_done && not s.closed_stdin
    then then_to (λ t. record t { closed_stdin = true; past = m ∷ s.past; pc = reading })
        (close_stdin s)
    else to (record s { past = m ∷ s.past; pc = reading })
advance_at (shutting status) s =
    if not s.closed_stdin
    then then_to (move (after_shut status)) (close_stdin s)
    else to (move (after_shut status) s)
advance_at (closing status) s =
    to (record s { closed_with = close_once status s.closed_with; pc = killing })
advance_at killing s = to (record s { killed = true; pc = cancelling })
advance_at cancelling s = to (record s { canceled_ctx = true; pc = joining })
advance_at joining s =
    if returned s.stdin.pc && is_finished s.waiter then to (record s { pc = stopped }) else blocked
advance_at stopped s = blocked

unfoldable pub advance : Server → Next
unfolding advance_at
advance s = advance_at s.pc s

abbrev no_response : Response
no_response = record {
  stdout = [];
  stdout_done = false;
  stderr = [];
  stderr_done = false;
  exited = false;
  exit_code = ℤ.pos 0;
}

abbrev pub stdout_message : Bytes → Response
stdout_message b = record no_response { stdout = b }

abbrev pub stderr_message : Bytes → Response
stderr_message b = record no_response { stderr = b }

abbrev pub exit_message : ℤ → Response
exit_message code = record no_response { exited = true; exit_code = code }

-- One action. `cmd.Wait` returns when the process has exited and its output is copied, so the
-- process writes only before. A write to the connection may fail, and then nothing is sent.
pub data Step (s t : Server) : Type 0 where
  receives : (i : Incoming) → s.pc ≡ reading → t ≡ receive i s → Step s t
  advances : advance s ≡ to t → Step s t
  stdin_moves : (x : Sink) → SinkStep s.stdin x → t ≡ record s { stdin = x } → Step s t
  writes_stdout :
      (b : Bytes)
      → s.waiter ≡ waiting
      → t ≡ record s { sent = stdout_message b ∷ s.sent; out = s.out ++ b }
      → Step s t
  writes_stderr :
      (b : Bytes)
      → s.waiter ≡ waiting
      → t ≡ record s { sent = stderr_message b ∷ s.sent; error_out = s.error_out ++ b }
      → Step s t
  exits :
      (code : ℤ)
      → s.waiter ≡ waiting
      → t ≡ record s { waiter = exited code; code = some code }
      → Step s t
  writes_exit :
      (code : ℤ)
      → s.waiter ≡ exited code
      → t ≡ record s { sent = exit_message code ∷ s.sent; waiter = finished }
      → Step s t
  loses_exit : (code : ℤ) → s.waiter ≡ exited code → t ≡ record s { waiter = finished } → Step s t
  cancel_ctx : t ≡ record s { canceled_ctx = true } → Step s t

pub data Reach (a : Server) : Server → Type 0 where
  here : Reach a a
  later : {s t : Server} → Reach a s → Step s t → Reach a t
