-- ===== src/Process/Client/Answers.antt =====
-- What `Wait` returns.
use clustertest.Prelude.{
  ◌≡◌, refl, ℤ, Bool, true, false, not, List, [], ◌∷◌, Option, none, some, if◌then◌else◌, All, ◌⊎◌,
  inl, inr, arith,
}
use clustertest.Process.Types.{Response, CmdResult}
use clustertest.Process.Client.{
  Client, Incoming, ReaderPc, reading, check_exit, report, receive, advance_at, advance, start,
  drop_channels, close_conn, message, peer_closed, failed, Waits, take_result, caller_done,
  runner_done, Step, receives, advances, stdout_moves, stderr_moves, stdin_ends, waits, cancel_ctx,
  Reach, here, later,
}
use clustertest.Process.Client.Streams.{in_loop}

-- The exit code that the latest message with `Exited` set carries.
unfoldable pub exit_of : List Response → Option ℤ
exit_of [] = none
exit_of (m ∷ past) = let before = exit_of past in if m.exited then some m.exit_code else before

pub exit_of-cons :
    (m : Response) (past : List Response)
    → exit_of (m ∷ past) ≡ (if m.exited then some m.exit_code else exit_of past)
unfolding exit_of
exit_of-cons m past = refl

-- A result with no error has the exit code that the server sent.
abbrev pub Reports : List Response → CmdResult → Type 0
Reports past r = r.error ≡ none → exit_of past ≡ some r.code

Reports-cons :
    (m : Response) (past : List Response) (r : CmdResult)
    → exit_of past ≡ none
    → Reports past r
    → Reports (m ∷ past) r
Reports-cons m past r q h e = ground (arith, h e)

All-Reports-cons :
    (m : Response) (past : List Response) (l : List CmdResult)
    → exit_of past ≡ none
    → All (Reports past) l
    → All (Reports (m ∷ past)) l
All-Reports-cons m past [] q h = tt
All-Reports-cons m past (r ∷ l) q h = (Reports-cons m past r q h.0, All-Reports-cons m past l q h.1)

All-Reports-eq :
    {past past' : List Response} {l l' : List CmdResult}
    → past' ≡ past
    → l' ≡ l
    → All (Reports past) l
    → All (Reports past') l'
All-Reports-eq p q h = rw (q, p) h

-- The result that the loop has left with and not yet sent.
abbrev pub unsent : ReaderPc → Option CmdResult
unsent (report r e) = some r
unsent _ = none

abbrev pub is_ready : ReaderPc → Bool
is_ready (report r e) = false
is_ready p = not (in_loop p)

pub record Answers (s : Client) : Type 0 where
  silent : is_ready s.pc ≡ false → s.result ≡ none
  pub running : in_loop s.pc ≡ true → exit_of s.past ≡ none
  coming : (r : CmdResult) → unsent s.pc ≡ some r → Reports s.past r
  buffered : (r : CmdResult) → s.result ≡ some r → Reports s.past r
  answered : All (Reports s.past) s.answers

Waits-rest :
    {s t : Client} {r : CmdResult}
    → Waits s r t
    → (t.pc ≡ s.pc) × (t.past ≡ s.past) × (t.answers ≡ r ∷ s.answers)
Waits-rest (take_result p e) = rw e (refl, refl, refl)
Waits-rest (caller_done x p e) = rw e (refl, refl, refl)
Waits-rest (runner_done c p e) = rw e (refl, refl, refl)

Waits-result :
    {s t : Client} {r : CmdResult} → Waits s r t → (t.result ≡ none) ⊎ (t.result ≡ s.result)
Waits-result (take_result p e) = inl (rw e refl)
Waits-result (caller_done x p e) = inr (rw e refl)
Waits-result (runner_done c p e) = inr (rw e refl)

module _ (s : Client) (h : Answers s) where
  advance_at-Answers : (p : ReaderPc) (t : Client) → s.pc ≡ p → advance_at p s ≡ some t → Answers t
  unfolding advance_at
  advance_at-Answers (check_exit m) t e a = record {
    silent = ground arith;
    running = ground (arith, exit_of-cons m s.past);
    coming = λ r. ground (arith, exit_of-cons m s.past);
    buffered = λ r. ground (arith, h.silent);
    answered =
        let x = All-Reports-cons m s.past s.answers (h.running (ground arith)) h.answered in
        ground arith;
  }
  advance_at-Answers (report r (close_conn c)) t e a = record {
    silent = ground arith;
    running = ground arith;
    coming = λ x. ground arith;
    buffered = λ x. ground (arith, h.coming r);
    answered = let x = h.answered in ground arith;
  }
  advance_at-Answers (report r drop_channels) t e a = record {
    silent = ground arith;
    running = ground arith;
    coming = λ x. ground arith;
    buffered = λ x. ground (arith, h.coming r);
    answered = let x = h.answered in ground arith;
  }
  advance_at-Answers _ t e a = record {
    silent = ground arith;
    running = ground arith;
    coming = λ r. ground arith;
    buffered = λ r. ground (arith, h.buffered r);
    answered = let x = h.answered in ground arith;
  }

  receive-Answers : (i : Incoming) → s.pc ≡ reading → Answers (receive i s)
  unfolding receive
  receive-Answers (message m) p = grind arith
  receive-Answers (peer_closed e) p = record {
    silent = ground arith;
    running = ground arith;
    coming = λ r. ground arith;
    buffered = h.buffered;
    answered = h.answered;
  }
  receive-Answers (failed e) p = record {
    silent = ground arith;
    running = ground arith;
    coming = λ r. ground arith;
    buffered = h.buffered;
    answered = h.answered;
  }

  -- Any answer of `Wait` with no error is the exit code that the server sent.
  Waits-Reports : {t : Client} {r : CmdResult} → Waits s r t → Reports s.past r
  Waits-Reports {r} (take_result p e) = h.buffered r p
  Waits-Reports (caller_done x p e) = ground arith
  Waits-Reports (runner_done c p e) = ground arith

  -- What leaves the reader and the results alone.
  same-Answers :
      (t : Client)
      → t.pc ≡ s.pc
      → t.past ≡ s.past
      → t.result ≡ s.result
      → t.answers ≡ s.answers
      → Answers t
  same-Answers t p q r a = record {
    silent = ground (arith, h.silent);
    running = ground (arith, h.running);
    coming = λ x. ground (arith, h.coming x);
    buffered = λ x. ground (arith, h.buffered x);
    answered = rw (a, q) h.answered;
  }

  Waits-Answers : {t : Client} (r : CmdResult) → Waits s r t → Answers t
  Waits-Answers {t} r w = record {
    silent = ground (arith, Waits-result w, h.silent);
    running = ground (arith, Waits-rest w, h.running);
    coming = λ x. ground (arith, Waits-rest w, h.coming x);
    buffered = λ x. ground (arith, Waits-rest w, Waits-result w, h.buffered x);
    answered =
        let (at, same, more) = Waits-rest w in
        All-Reports-eq same more (Waits-Reports w, h.answered);
  }

Step-Answers : {s t : Client} → Step s t → Answers s → Answers t
Step-Answers {s} (receives i p e) h = rw e (receive-Answers s h i p)
Step-Answers {s} {t} (advances a) h = unfold advance in advance_at-Answers s h s.pc t refl a
Step-Answers {s} (stdout_moves x w e) h = rw e (same-Answers s h _ refl refl refl refl)
Step-Answers {s} (stderr_moves x w e) h = rw e (same-Answers s h _ refl refl refl refl)
Step-Answers {s} (stdin_ends e) h = rw e (same-Answers s h _ refl refl refl refl)
Step-Answers {s} (waits r w) h = Waits-Answers s h r w
Step-Answers {s} (cancel_ctx e) h = rw e (same-Answers s h _ refl refl refl refl)

start-Answers : Answers start
unfolding exit_of
start-Answers = record {
  silent = λ l. refl;
  running = λ l. refl;
  coming = λ r. ground arith;
  buffered = λ r. ground arith;
  answered = tt;
}

pub Reach-Answers : {s : Client} → Reach start s → Answers s
Reach-Answers here = start-Answers
Reach-Answers (later r st) = Step-Answers st (Reach-Answers r)

-- In every state that the runner can reach, a call of `Wait` that returns no error returns the
-- exit code that the server's message carried, and that message had `Exited` set.
pub Waits-exit_code :
    {s t : Client} {r : CmdResult}
    → Reach start s
    → Waits s r t
    → r.error ≡ none
    → exit_of s.past ≡ some r.code
Waits-exit_code {s} n w e = Waits-Reports s (Reach-Answers n) w e
