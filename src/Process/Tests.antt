-- ===== src/Process/Tests.antt =====
-- Runs on concrete data, and the theorems at concrete inputs.
use clustertest.Prelude.{
  ok, ◌↔◌, ◌≡◌, refl, ◌≢◌, ℤ, negsuc, true, false, List, [], ◌∷◌, ◌++◌, none, some, not_exist,
}
use clustertest.Process.Types.{Bytes, Request, Response}
use clustertest.Process.Sink.{waiting, writing, broken, ended, write, range_end, taken}
use clustertest.Process.Sink.Laws.{Delivered}
use clustertest.Process.Stream.{read_on}
use clustertest.Process.Writer.{
  Wire, IsFaithful, StartProcRequest, contents, stdin_message, stdin_done_message, first_message,
  write_first_message, write_stdin,
}
use clustertest.Process.Writer.Stdin.{stdin_payload, stdin_ended, source, write_stdin_complete}
use clustertest.Process.Client
use clustertest.Process.Client.{Client, Waits, take_result}
use clustertest.Process.Client.Streams.{out_payload, err_payload}
use clustertest.Process.Client.Answers.{exit_of, Waits-exit_code}
use clustertest.Process.Client.Shutdown.{CanMove, stopped-Delivered, no_deadlock}
use clustertest.Process.Client.Faults.{
  turns, handle, Reach-turns, Reach-handle, Wedged, Reach-Wedged, run-hangs,
}
use clustertest.Process.Server
use clustertest.Process.Server.{Server, stdout_message, exit_message, build_command, run_first}
use clustertest.Process.Server.Stdin.{advance-ne-panic, stopped-killed}
use clustertest.Process.Server.Output.{exit_of-sent}
use clustertest.Cluster.{run}
use clustertest.Cluster.Laws.{run-exited}
use clustertest.Process.Session.{Waits-session, stdin-session}

abbrev hello : Bytes
hello = b'h' ∷ b'i' ∷ []

-- The process writes "hi" and exits with 3.
abbrev server_done : Server
server_done = record Server.start {
  sent = exit_message (ℤ.pos 3) ∷ stdout_message hello ∷ [];
  out = hello;
  waiter = Server.finished;
  code = some (ℤ.pos 3);
}

server_run : Server.Reach Server.start server_done
server_run =
    Server.later
      (Server.later (Server.later Server.here (Server.writes_stdout hello refl refl))
        (Server.exits (ℤ.pos 3) refl refl))
      (Server.writes_exit (ℤ.pos 3) refl refl)

-- The client reads the output, writes it, and reads the exit message.
abbrev client_read : Client
client_read = handle (stdout_message hello) Client.start

abbrev client_wrote : Client
client_wrote = record client_read {
  stdout = record { pc = waiting; closed = false; written = hello };
}

abbrev client_exited : Client
client_exited = turns 1 (handle (exit_message (ℤ.pos 3)) client_wrote)

client_run : Client.Reach Client.start client_exited
unfolding handle
client_run = Reach-turns 1 _ (
    Reach-handle (exit_message (ℤ.pos 3)) client_wrote refl (
      Client.later (Reach-handle (stdout_message hello) Client.start refl Client.here)
        (Client.stdout_moves _ (write hello refl refl) refl)))

client-Waits :
    Waits client_exited
      (record { code = ℤ.pos 3; error = none })
      (record client_exited {
        result = none;
        answers = record { code = ℤ.pos 3; error = none } ∷ [];
      })
unfolding handle
client-Waits = take_result refl refl

Waits-session_example :
    (server_done.code ≡ some (ℤ.pos 3))
    × (taken client_exited.stdout ≡ hello)
    × (taken client_exited.stderr ≡ [])
unfolding handle
Waits-session_example = Waits-session [] server_run client_run refl client-Waits refl

run-exited_example :
    ((run (ok (record { code = ℤ.pos 3; error = none }))).1 ≡ none)
    ↔ (server_done.code ≡ some (ℤ.pos 0))
unfolding handle
run-exited_example = run-exited [] server_run client_run refl client-Waits refl

Waits-exit_code_example : exit_of client_exited.past ≡ some (ℤ.pos 3)
Waits-exit_code_example = Waits-exit_code client_run client-Waits refl

exit_of-sent_example :
    (server_done.code ≡ some (ℤ.pos 3))
    × ((rest : List Response) × (server_done.sent ≡ exit_message (ℤ.pos 3) ∷ rest)
        × (exit_of rest ≡ none))
unfolding exit_of
exit_of-sent_example = exit_of-sent server_run refl

-- The rest of `readMessages`, with its two writers ended on the way.
abbrev client_left : Client
client_left = turns 4 client_exited

abbrev client_ended : Client
client_ended = record client_left {
  stdout = record { pc = ended; closed = true; written = hello };
  stderr = record { pc = ended; closed = true; written = [] };
  stdin_done = true;
}

ended_run : Client.Reach Client.start client_ended
unfolding handle
ended_run =
    Client.later
      (Client.later
        (Client.later (Reach-turns 4 client_exited client_run)
          (Client.stdout_moves _ (range_end refl refl refl) refl))
        (Client.stderr_moves _ (range_end refl refl refl) refl))
      (Client.stdin_ends refl)

stopped_run : Client.Reach Client.start (turns 1 client_ended)
stopped_run = Reach-turns 1 client_ended ended_run

stopped-Delivered_example :
    Delivered (turns 1 client_ended).stdout (out_payload (turns 1 client_ended).past)
    × Delivered (turns 1 client_ended).stderr (err_payload (turns 1 client_ended).past)
unfolding handle
stopped-Delivered_example = stopped-Delivered stopped_run refl

no_deadlock_example : CanMove client_ended
unfolding handle
no_deadlock_example = no_deadlock ended_run (λ e. cc) (λ e. cc) refl (λ x. x) (λ x. x)

-- The writer has failed at the first chunk, and the second comes in.
abbrev wedged : Client
wedged = turns 2 (
    Client.receive (Client.message (stdout_message hello))
      (record client_read { stdout = record { pc = broken hello; closed = false; written = [] } }))

Reach-Wedged_example : Wedged (stdout_message hello) hello (record wedged { canceled_ctx = true })
unfolding handle
Reach-Wedged_example =
    Reach-Wedged {s = wedged} refl (refl, refl, refl, refl)
      (Client.later Client.here (Client.cancel_ctx refl))

-- A connection that takes every message.
abbrev log_wire : Wire Request
log_wire = record { State = List Request; write = λ s m. (s ++ (m ∷ []), none); sent = λ s. s }

log_wire-IsFaithful : IsFaithful log_wire
log_wire-IsFaithful = record { sent-write_ok = λ s m e. refl; sent-write_err = λ s m x e. cc }

abbrev cat : StartProcRequest
cat = record {
  command = "cat";
  args = [];
  env = [];
  wd = "/";
  stdin = some (record { chunks = hello ∷ (b'!' ∷ []) ∷ []; fault = none });
}

write_stdin_complete_example :
    (rest : List Request) × (log_wire.sent
        (write_stdin log_wire cat.stdin (write_first_message log_wire cat []).1)
      ≡ first_message cat ∷ rest)
    × (stdin_payload (read_on rest []) ≡ contents (source cat.stdin))
    × (stdin_ended (read_on rest []) ≡ true)
write_stdin_complete_example =
    write_stdin_complete log_wire log_wire-IsFaithful cat [] refl
      (unfold write_first_message in refl) (λ s m. refl)

-- The server is writing the first of those chunks to the process.
abbrev server_read : Server
server_read = record Server.start {
  pc = Server.done_stdin (stdin_message hello);
  stdin = record { pc = writing hello; closed = false; written = [] };
}

server_read_run : Server.Reach Server.start server_read
unfolding Server.advance Server.receive
server_read_run =
    Server.later
      (Server.later Server.here (Server.receives (Server.message (stdin_message hello)) refl refl))
      (Server.advances refl)

stdin-session_example :
    (rest : Bytes) × (server_read.stdin.written ++ rest ≡ contents (source cat.stdin))
unfolding write_stdin write_first_message
stdin-session_example =
    stdin-session log_wire log_wire-IsFaithful cat [] {v = server_read} (stdin_message hello ∷ [])
      (stdin_message (b'!' ∷ []) ∷ stdin_done_message ∷ []) refl refl server_read_run refl refl

advance-ne-panic_example : Server.advance server_read ≢ Server.panic
advance-ne-panic_example = advance-ne-panic server_read_run

-- The client closes the connection at once; the process is killed, and its result is lost.
abbrev server_stopped : Server
server_stopped = record Server.start {
  pc = Server.stopped;
  stdin = record { pc = ended; closed = true; written = [] };
  waiter = Server.finished;
  killed = true;
  canceled_ctx = true;
  code = some (negsuc 0);
}

server_stopped_run : Server.Reach Server.start server_stopped
unfolding Server.advance Server.receive
server_stopped_run = r9
  where
    r4 : Server.Reach Server.start (record Server.start {
      pc = Server.joining;
      stdin = record { pc = waiting; closed = true; written = [] };
      killed = true;
      canceled_ctx = true;
    })
    r4 =
        Server.later
          (Server.later
            (Server.later
              (Server.later Server.here (Server.receives Server.closed_normally refl refl))
              (Server.advances refl))
            (Server.advances refl))
          (Server.advances refl)

    r9 : Server.Reach Server.start server_stopped
    r9 =
        Server.later
          (Server.later
            (Server.later (Server.later r4 (Server.stdin_moves _ (range_end refl refl refl) refl))
              (Server.exits (negsuc 0) refl refl))
            (Server.loses_exit (negsuc 0) refl refl))
          (Server.advances refl)

stopped-killed_example :
    (server_stopped.killed ≡ true)
    × (server_stopped.canceled_ctx ≡ true)
    × (server_stopped.waiter ≡ Server.finished)
    × Delivered server_stopped.stdin (stdin_payload server_stopped.past)
stopped-killed_example = stopped-killed server_stopped_run refl

run-hangs_example : (Client.run (some not_exist)).pc ≢ Client.stopped
run-hangs_example = run-hangs not_exist Client.here
