-- ===== src/Process/Client/Streams.antt =====
-- What the writers given to `StartProc` receive, at any moment of a run.
use clustertest.Prelude.{
  ◌≡◌, refl, Bool, true, false, List, [], ◌∷◌, ◌++◌, ◌||◌, if◌then◌else◌, append-nil, some, arith,
}
use clustertest.Process.Types.{Bytes, Response, CmdResult}
use clustertest.Process.Sink.{taken}
use clustertest.Process.Sink.Laws.{taken-SinkStep, closed-SinkStep}
use clustertest.Process.Stream.{payload, has_ended, payload-cons, has_ended-cons}
use clustertest.Process.Client.{
  Client, Incoming, ReaderPc, reading, put_stderr, done_stderr, put_stdout, done_stdout, check_exit,
  report, receive, advance_at, advance, start, drop_channels, close_conn, message, peer_closed,
  failed, Waits, take_result, caller_done, runner_done, Step, receives, advances, stdout_moves,
  stderr_moves, stdin_ends, waits, cancel_ctx, Reach, here, later,
}

abbrev pub out_ended : List Response → Bool
out_ended = has_ended (λ m. m.stdout) (λ m. m.stdout_done)

-- The bytes of stdout that the messages carry.
abbrev pub out_payload : List Response → Bytes
out_payload = payload (λ m. m.stdout) (λ m. m.stdout_done)

abbrev pub err_ended : List Response → Bool
err_ended = has_ended (λ m. m.stderr) (λ m. m.stderr_done)

-- The bytes of stderr that the messages carry.
abbrev pub err_payload : List Response → Bytes
err_payload = payload (λ m. m.stderr) (λ m. m.stderr_done)

-- What the loop has put into the channels, and whether it has closed them.
abbrev pub out_sent : ReaderPc → List Response → Bytes
out_sent (done_stdout m) past = out_payload (m ∷ past)
out_sent (check_exit m) past = out_payload (m ∷ past)
out_sent _ past = out_payload past

abbrev pub out_shut : ReaderPc → List Response → Bool
out_shut (check_exit m) past = out_ended (m ∷ past)
out_shut _ past = out_ended past

abbrev pub err_sent : ReaderPc → List Response → Bytes
err_sent (done_stderr m) past = err_payload (m ∷ past)
err_sent (put_stdout m) past = err_payload (m ∷ past)
err_sent (done_stdout m) past = err_payload (m ∷ past)
err_sent (check_exit m) past = err_payload (m ∷ past)
err_sent _ past = err_payload past

abbrev pub err_shut : ReaderPc → List Response → Bool
err_shut (put_stdout m) past = err_ended (m ∷ past)
err_shut (done_stdout m) past = err_ended (m ∷ past)
err_shut (check_exit m) past = err_ended (m ∷ past)
err_shut _ past = err_ended past

abbrev pub in_loop : ReaderPc → Bool
in_loop reading = true
in_loop (put_stderr _) = true
in_loop (done_stderr _) = true
in_loop (put_stdout _) = true
in_loop (done_stdout _) = true
in_loop (check_exit _) = true
in_loop _ = false

pub record Streams (s : Client) : Type 0 where
  pub out_bytes : taken s.stdout ≡ out_sent s.pc s.past
  pub err_bytes : taken s.stderr ≡ err_sent s.pc s.past
  pub out_closed : in_loop s.pc ≡ true → s.stdout.closed ≡ out_shut s.pc s.past
  pub err_closed : in_loop s.pc ≡ true → s.stderr.closed ≡ err_shut s.pc s.past

module _ (s : Client) (h : Streams s) where
  out_laws : (m : Response) → record {
    ended : out_ended (m ∷ s.past) ≡ (out_ended s.past || m.stdout_done);
    more :
        out_payload (m ∷ s.past)
        ≡ out_payload s.past ++ (if out_ended s.past then [] else m.stdout);
    none_more : out_payload s.past ++ [] ≡ out_payload s.past;
    sunk : s.stdout.written ++ [] ≡ s.stdout.written;
  }
  out_laws m = record {
    ended = has_ended-cons _ _ m s.past;
    more = payload-cons _ _ m s.past;
    none_more = append-nil _;
    sunk = append-nil _;
  }

  advance-out :
      (p : ReaderPc) (t : Client)
      → s.pc ≡ p
      → advance_at p s ≡ some t
      → taken t.stdout ≡ out_sent t.pc t.past
  unfolding advance_at
  advance-out (put_stdout m) t e a = ground (arith, out_laws m)
  advance-out (done_stdout m) t e a = ground (arith, out_laws m)
  advance-out (check_exit m) t e a = ground (arith, out_laws m)
  advance-out (report r (close_conn c)) t e a = ground arith
  advance-out (report r drop_channels) t e a = ground arith
  advance-out _ t e a = ground arith

  err_laws : (m : Response) → record {
    ended : err_ended (m ∷ s.past) ≡ (err_ended s.past || m.stderr_done);
    more :
        err_payload (m ∷ s.past)
        ≡ err_payload s.past ++ (if err_ended s.past then [] else m.stderr);
    none_more : err_payload s.past ++ [] ≡ err_payload s.past;
    sunk : s.stderr.written ++ [] ≡ s.stderr.written;
  }
  err_laws m = record {
    ended = has_ended-cons _ _ m s.past;
    more = payload-cons _ _ m s.past;
    none_more = append-nil _;
    sunk = append-nil _;
  }

  advance-err :
      (p : ReaderPc) (t : Client)
      → s.pc ≡ p
      → advance_at p s ≡ some t
      → taken t.stderr ≡ err_sent t.pc t.past
  unfolding advance_at
  advance-err (put_stderr m) t e a = ground (arith, err_laws m)
  advance-err (done_stderr m) t e a = ground (arith, err_laws m)
  advance-err (check_exit m) t e a = ground (arith, err_laws m)
  advance-err (report r (close_conn c)) t e a = ground arith
  advance-err (report r drop_channels) t e a = ground arith
  advance-err _ t e a = ground arith

  advance-closed :
      (p : ReaderPc) (t : Client)
      → s.pc ≡ p
      → advance_at p s ≡ some t
      → in_loop t.pc ≡ true
      → (t.stdout.closed ≡ out_shut t.pc t.past) × (t.stderr.closed ≡ err_shut t.pc t.past)
  unfolding advance_at
  advance-closed (put_stderr m) t e a l = ground (arith, out_laws m, err_laws m)
  advance-closed (done_stderr m) t e a l = ground (arith, out_laws m, err_laws m)
  advance-closed (put_stdout m) t e a l = ground (arith, out_laws m, err_laws m)
  advance-closed (done_stdout m) t e a l = ground (arith, out_laws m, err_laws m)
  advance-closed (check_exit m) t e a l = ground (arith, out_laws m, err_laws m)
  advance-closed (report r (close_conn c)) t e a l = ground arith
  advance-closed (report r drop_channels) t e a l = ground arith
  advance-closed _ t e a l = ground arith

  advance-Streams : (t : Client) → advance s ≡ some t → Streams t
  unfolding advance
  advance-Streams t a = record {
    out_bytes = advance-out s.pc t refl a;
    err_bytes = advance-err s.pc t refl a;
    out_closed = λ l. (advance-closed s.pc t refl a l).0;
    err_closed = λ l. (advance-closed s.pc t refl a l).1;
  }

  receive-Streams : (i : Incoming) → s.pc ≡ reading → Streams (receive i s)
  unfolding receive
  receive-Streams (message m) p = ground arith
  receive-Streams (peer_closed e) p = ground arith
  receive-Streams (failed e) p = ground arith

Waits-Streams : {s t : Client} {r : CmdResult} → Waits s r t → Streams s → Streams t
Waits-Streams (take_result p e) h = ground arith
Waits-Streams (caller_done x p e) h = ground arith
Waits-Streams (runner_done c p e) h = ground arith

Step-Streams : {s t : Client} → Step s t → Streams s → Streams t
Step-Streams {s} (receives i p e) h = rw e (receive-Streams s h i p)
Step-Streams {s} {t} (advances a) h = advance-Streams s h t a
Step-Streams (stdout_moves x w e) h = ground (arith, taken-SinkStep w, closed-SinkStep w)
Step-Streams (stderr_moves x w e) h = ground (arith, taken-SinkStep w, closed-SinkStep w)
Step-Streams (stdin_ends e) h = ground arith
Step-Streams (waits r w) h = Waits-Streams w h
Step-Streams (cancel_ctx e) h = ground arith

start-Streams : Streams start
unfolding payload
start-Streams = record {
  out_bytes = refl;
  err_bytes = refl;
  out_closed = λ l. refl;
  err_closed = λ l. refl;
}

pub Reach-Streams : {s : Client} → Reach start s → Streams s
Reach-Streams here = start-Streams
Reach-Streams (later r st) = Step-Streams st (Reach-Streams r)
