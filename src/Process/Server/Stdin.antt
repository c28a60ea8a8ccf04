-- ===== src/Process/Server/Stdin.antt =====
-- What the process gets on its stdin, and what `readMessages` leaves behind.
use clustertest.Prelude.{
  ◌≡◌, refl, ◌≢◌, Bool, true, false, List, [], ◌∷◌, ◌++◌, ◌||◌, none, some, if◌then◌else◌,
  append-nil, arith,
}
use clustertest.Process.Types.{Bytes, Request}
use clustertest.Process.Sink.{taken, returned}
use clustertest.Process.Stream.{payload, has_ended, payload-cons, has_ended-cons}
use clustertest.Process.Writer.Stdin.{stdin_payload, stdin_ended}
use clustertest.Process.Sink.Laws.{
  Delivered, Delivered-of_taken, taken-SinkStep, closed-SinkStep, returned-SinkStep,
}
use clustertest.Process.Server.{
  Server, ReaderPc, reading, put_stdin, done_stdin, shutting, cancelling, joining, stopped,
  Incoming, message, closed_normally, failed, panic, to, receive, advance_at, advance, start, Step,
  receives, advances, stdin_moves, writes_stdout, writes_stderr, exits, writes_exit, loses_exit,
  cancel_ctx, Reach, here, later, finished,
}

abbrev pub stdin_sent : ReaderPc → List Request → Bytes
stdin_sent (done_stdin m) past = stdin_payload (m ∷ past)
stdin_sent _ past = stdin_payload past

-- Before the close of `shutting`.
abbrev pub is_open : ReaderPc → Bool
is_open reading = true
is_open (put_stdin _) = true
is_open (done_stdin _) = true
is_open (shutting _) = true
is_open _ = false

abbrev pub is_killed : ReaderPc → Bool
is_killed cancelling = true
is_killed joining = true
is_killed stopped = true
is_killed _ = false

pub record Reading (s : Server) : Type 0 where
  pub bytes : taken s.stdin ≡ stdin_sent s.pc s.past
  flag : s.closed_stdin ≡ stdin_ended s.past
  shut : s.stdin.closed ≡ (if is_open s.pc then s.closed_stdin else true)
  killed : is_killed s.pc ≡ true → s.killed ≡ true
  joined :
      s.pc ≡ stopped
      → (s.canceled_ctx ≡ true) × (returned s.stdin.pc ≡ true) × (s.waiter ≡ finished)
  cut : s.pc ≡ joining → s.canceled_ctx ≡ true

module _ (s : Server) (h : Reading s) where
  stdin_laws : (m : Request) → record {
    ended : stdin_ended (m ∷ s.past) ≡ (stdin_ended s.past || m.stdin_done);
    more :
        stdin_payload (m ∷ s.past)
        ≡ stdin_payload s.past ++ (if stdin_ended s.past then [] else m.stdin);
    none_more : stdin_payload s.past ++ [] ≡ stdin_payload s.past;
    sunk : s.stdin.written ++ [] ≡ s.stdin.written;
  }
  stdin_laws m = record {
    ended = has_ended-cons _ _ m s.past;
    more = payload-cons _ _ m s.past;
    none_more = append-nil _;
    sunk = append-nil _;
  }

  advance_at-Reading : (p : ReaderPc) (t : Server) → s.pc ≡ p → advance_at p s ≡ to t → Reading t
  unfolding advance_at
  advance_at-Reading (put_stdin m) t e a = ground (arith, stdin_laws m)
  advance_at-Reading (done_stdin m) t e a = ground (arith, stdin_laws m)
  advance_at-Reading (shutting none) t e a = ground arith
  advance_at-Reading (shutting (some c)) t e a = ground arith
  advance_at-Reading _ t e a = ground arith

  advance_at-ne-panic : (p : ReaderPc) → s.pc ≡ p → advance_at p s ≢ panic
  unfolding advance_at
  advance_at-ne-panic (put_stdin m) e a = ground arith
  advance_at-ne-panic (done_stdin m) e a = ground arith
  advance_at-ne-panic (shutting none) e a = ground arith
  advance_at-ne-panic (shutting (some c)) e a = ground arith
  advance_at-ne-panic _ e a = ground arith

  receive-Reading : (i : Incoming) → s.pc ≡ reading → Reading (receive i s)
  unfolding receive
  receive-Reading (message m) p = ground arith
  receive-Reading closed_normally p = ground arith
  receive-Reading failed p = ground arith

Step-Reading : {s t : Server} → Step s t → Reading s → Reading t
Step-Reading {s} (receives i p e) h = rw e (receive-Reading s h i p)
Step-Reading {s} {t} (advances a) h = unfold advance in advance_at-Reading s h s.pc t refl a
Step-Reading (stdin_moves x w e) h =
    ground (arith, taken-SinkStep w, closed-SinkStep w, returned-SinkStep w)
Step-Reading (writes_stdout b w e) h = ground arith
Step-Reading (writes_stderr b w e) h = ground arith
Step-Reading (exits c w e) h = ground arith
Step-Reading (writes_exit c w e) h = ground arith
Step-Reading (loses_exit c w e) h = ground arith
Step-Reading (cancel_ctx e) h = ground arith

pub Reach-Reading : {s : Server} → Reach start s → Reading s
unfolding payload has_ended
Reach-Reading here = ground arith
Reach-Reading (later r st) = Step-Reading st (Reach-Reading r)

-- Whatever messages come, `readMessages` never closes its channel twice, so it does not panic.
pub advance-ne-panic : {s : Server} → Reach start s → advance s ≢ panic
unfolding advance
advance-ne-panic {s} r = advance_at-ne-panic s (Reach-Reading r) s.pc refl

-- When the runner has ended, the process was killed, the context is cancelled, the result was
-- written or lost, and the process's stdin was given all the bytes that the requests carry for it,
-- up to the first `StdinDone`, or it has failed, and then the bytes that it did not take are the
-- rest.
pub stopped-killed :
    {s : Server}
    → Reach start s
    → s.pc ≡ stopped
    → (s.killed ≡ true)
      × (s.canceled_ctx ≡ true)
      × (s.waiter ≡ finished)
      × Delivered s.stdin (stdin_payload s.past)
stopped-killed {s} r e =
    let h = Reach-Reading r in
    let (cut, ended, waited) = h.joined e in
    (
      h.killed (ground arith),
      cut,
      waited,
      Delivered-of_taken s.stdin _ ended (ground (arith, h.bytes)),
    )
