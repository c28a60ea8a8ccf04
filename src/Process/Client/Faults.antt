-- ===== src/Process/Client/Faults.antt =====
-- Runs in which `Wait` gives less than its caller may expect.
use clustertest.Prelude.{
  ◌≡◌, refl, ℕ, zero, suc, ℤ, negsuc, true, false, [], ◌∷◌, none, some, canceled, is_nonempty, ◌⊎◌,
  ◌≢◌, Error, Option-cases, inl, inr, append-nil, arith,
}
use clustertest.Process.Types.{Bytes, Response, CmdResult}
use clustertest.Process.Sink.{Sink, SinkStep, waiting, broken, write, fail, range_end}
use clustertest.Process.Stream.{payload}
use clustertest.Process.Client.{
  Client, run, reading, put_stdout, cancelling, joining, stopped, receive, advance, start, message,
  Waits, take_result, caller_done, runner_done, Step, receives, advances, stdout_moves,
  stderr_moves, stdin_ends, waits, cancel_ctx, Reach, here, later,
}
use clustertest.Process.Client.Streams.{out_payload}
use clustertest.Process.Client.Shutdown.{Reach-Closing}

-- The loop has a chunk for a writer that has failed, and no result yet.
abbrev pub Wedged : Response → Bytes → Client → Type 0
Wedged m q s =
    (s.pc ≡ put_stdout m) × (s.stdout.pc ≡ broken q) × (s.stdout.closed ≡ false) × (s.result ≡ none)

broken-SinkStep : {x y : Sink} {q : Bytes} → SinkStep x y → x.pc ≡ broken q → ⊥
broken-SinkStep (write b p e) h = ground arith
broken-SinkStep (fail a b p e) h = ground arith
broken-SinkStep (range_end p c e) h = ground arith

module _ (m : Response) (q : Bytes) (more : is_nonempty m.stdout ≡ true) where
  Waits-Wedged : {s t : Client} {r : CmdResult} → Waits s r t → Wedged m q s → Wedged m q t
  Waits-Wedged (take_result p e) h = ground arith
  Waits-Wedged (caller_done x p e) h = ground arith
  Waits-Wedged (runner_done c p e) h = ground arith

  advance-Wedged : (s : Client) → Wedged m q s → advance s ≡ none
  unfolding advance
  advance-Wedged s h = ground arith

  Step-Wedged : {s t : Client} → Step s t → Wedged m q s → Wedged m q t
  Step-Wedged (receives i p e) h = ground arith
  Step-Wedged {s} (advances a) h = ground (arith, advance-Wedged s h)
  Step-Wedged (stdout_moves x w e) h = absurd (broken-SinkStep w h.1)
  Step-Wedged (stderr_moves x w e) h = ground arith
  Step-Wedged (stdin_ends e) h = ground arith
  Step-Wedged (waits r w) h = Waits-Wedged w h
  Step-Wedged (cancel_ctx e) h = ground arith

  Reach-Wedged_all : {s t : Client} → Wedged m q s → Reach s t → Wedged m q t
  Reach-Wedged_all h here = h
  Reach-Wedged_all h (later r st) = Step-Wedged st (Reach-Wedged_all h r)

-- When the stdout writer has failed and another chunk of stdout has come in, `readMessages` stays
-- at that chunk whatever happens next, the cancellation of the context included: no result is sent,
-- and its goroutines are never joined.
pub Reach-Wedged :
    {s t : Client} {m : Response} {q : Bytes}
    → is_nonempty m.stdout ≡ true
    → Wedged m q s
    → Reach s t
    → Wedged m q t
Reach-Wedged {m} {q} more h r = Reach-Wedged_all m q more h r

-- `shutdown` with both channels open and nothing in them.
abbrev Hung : Client → Type 0
Hung s =
    ((s.pc ≡ cancelling) ⊎ (s.pc ≡ joining))
    × (s.stdout.pc ≡ waiting)
    × (s.stdout.closed ≡ false)
    × (s.stderr.pc ≡ waiting)
    × (s.stderr.closed ≡ false)

waiting-SinkStep : {x y : Sink} → SinkStep x y → x.pc ≡ waiting → x.closed ≡ false → ⊥
waiting-SinkStep (write b p e) h c = ground arith
waiting-SinkStep (fail a b p e) h c = ground arith
waiting-SinkStep (range_end p c e) h d = ground arith

Waits-Hung : {s t : Client} {r : CmdResult} → Waits s r t → Hung s → Hung t
Waits-Hung (take_result p e) h = ground arith
Waits-Hung (caller_done x p e) h = ground arith
Waits-Hung (runner_done c p e) h = ground arith

advance-Hung : (s t : Client) → advance s ≡ some t → Hung s → Hung t
unfolding advance
advance-Hung s t a h = ground arith

Step-Hung : {s t : Client} → Step s t → Hung s → Hung t
Step-Hung (receives i p e) h = ground arith
Step-Hung {s} {t} (advances a) h = advance-Hung s t a h
Step-Hung (stdout_moves x w e) h = absurd (waiting-SinkStep w h.1 h.2)
Step-Hung (stderr_moves x w e) h = absurd (waiting-SinkStep w h.3 h.4)
Step-Hung (stdin_ends e) h = ground arith
Step-Hung (waits r w) h = Waits-Hung w h
Step-Hung (cancel_ctx e) h = ground arith

Reach-Hung : (e : Error) {t : Client} → Reach (run (some e)) t → Hung t
unfolding run
Reach-Hung e here = (inl refl, refl, refl, refl, refl)
Reach-Hung e (later r st) = Step-Hung st (Reach-Hung e r)

-- When the first message cannot be written, `StartProc` never returns: `shutdown` waits for the two
-- goroutines that write, and no sequence of steps, the cancellation of the context included, ends
-- that wait.
pub run-hangs : (e : Error) {t : Client} → Reach (run (some e)) t → t.pc ≢ stopped
run-hangs e r = let h = Reach-Hung e r in ground arith

-- A `Wait` that is called when the runner has stopped may return the result that lies in the
-- channel, and may as well return -1 and a cancellation, whatever that result is.
pub Waits-stopped :
    {s : Client} {r : CmdResult}
    → Reach start s
    → s.pc ≡ stopped
    → s.result ≡ some r
    → ((t : Client) × Waits s r t)
      × ((t : Client) × Waits s (record { code = negsuc 0; error = some canceled }) t)
Waits-stopped n e b =
    ((_, take_result b refl), (_, runner_done ((Reach-Closing n).cut (ground arith)) refl refl))

abbrev pub out_message : Bytes → Response
out_message b = record {
  stdout = b;
  stdout_done = false;
  stderr = [];
  stderr_done = false;
  exited = false;
  exit_code = ℤ.pos 0;
}

abbrev pub exit_message : ℤ → Response
exit_message c = record {
  stdout = [];
  stdout_done = false;
  stderr = [];
  stderr_done = false;
  exited = true;
  exit_code = c;
}

-- `readMessages` alone, for at most `n` actions.
unfoldable pub turns : ℕ → Client → Client
unfolding advance
turns zero s = s
turns (suc n) s = elim (advance s) [ none ↦ s | some t ↦ turns n t ]

pub Reach-turns : {a : Client} (n : ℕ) (s : Client) → Reach a s → Reach a (turns n s)
unfolding turns
Reach-turns zero s r = r
Reach-turns (suc n) s r = elim (Option-cases (advance s)) [
  | inl e ↦ rw (e, turns) r
  | inr (t, e) ↦ rw (e, turns) (Reach-turns n t (later r (advances e)))
]

-- The reader deals with one message, while no channel blocks it.
unfoldable pub handle : Response → Client → Client
unfolding turns receive
handle m s = turns 5 (receive (message m) s)

pub Reach-handle :
    {a : Client} (m : Response) (s : Client) → s.pc ≡ reading → Reach a s → Reach a (handle m s)
unfolding handle
Reach-handle m s e r = Reach-turns 5 (receive (message m) s) (later r (receives (message m) e refl))

-- For every chunk of output and every exit code there is a run in which `Wait` has returned that
-- code with no error while the writer has been given nothing of the chunk yet.
pub Waits-before_write :
    (x : ℕ) (b : Bytes) (c : ℤ)
    → (s : Client) × Reach start s
      × (s.answers ≡ record { code = c; error = none } ∷ [])
      × (out_payload s.past ≡ x ∷ b)
      × (s.stdout.written ≡ [])
unfolding handle payload
Waits-before_write x b c =
    let s1 = handle (out_message (x ∷ b)) start in
    let s2 = handle (exit_message c) s1 in
    let r1 = Reach-handle (out_message (x ∷ b)) start refl here in
    let r2 = Reach-turns 1 s2 (Reach-handle (exit_message c) s1 refl r1) in
    (_, later r2 (waits _ (take_result refl refl)), refl, append-nil (x ∷ b), refl)
