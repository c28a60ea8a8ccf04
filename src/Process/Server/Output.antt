-- ===== src/Process/Server/Output.antt =====
-- What the server has sent, at any moment of a run.
use clustertest.Prelude.{
  ◌≡◌, refl, ℤ, false, List, [], ◌∷◌, ◌++◌, ◌||◌, Option, none, some, if◌then◌else◌, append-nil,
  arith,
}
use clustertest.Process.Types.{Bytes, Response}
use clustertest.Process.Stream.{payload, has_ended, payload-cons, has_ended-cons}
use clustertest.Process.Client.Streams.{out_payload, err_payload, out_ended, err_ended}
use clustertest.Process.Client.Answers.{exit_of, exit_of-cons}
use clustertest.Process.Server.{
  Server, ReaderPc, put_stdin, done_stdin, shutting, Incoming, message, to, receive, advance_at,
  advance, start, stdout_message, stderr_message, exit_message, Step, receives, advances,
  stdin_moves, writes_stdout, writes_stderr, exits, writes_exit, loses_exit, cancel_ctx, WaiterPc,
  waiting, exited, finished, Reach, here, later,
}

-- The responses `sent` carry these outputs, and the exit code only on top.
pub record Carries (sent : List Response) (out error_out : Bytes) : Type 0 where
  pub out_all : out_payload sent ≡ out
  pub err_all : err_payload sent ≡ error_out
  pub out_open : out_ended sent ≡ false
  pub err_open : err_ended sent ≡ false

sent_laws : (m : Response) (past : List Response) → record {
  out_more : out_payload (m ∷ past) ≡ out_payload past ++ (if out_ended past then [] else m.stdout);
  err_more : err_payload (m ∷ past) ≡ err_payload past ++ (if err_ended past then [] else m.stderr);
  out_over : out_ended (m ∷ past) ≡ (out_ended past || m.stdout_done);
  err_over : err_ended (m ∷ past) ≡ (err_ended past || m.stderr_done);
  out_none : out_payload past ++ [] ≡ out_payload past;
  err_none : err_payload past ++ [] ≡ err_payload past;
  code : exit_of (m ∷ past) ≡ (if m.exited then some m.exit_code else exit_of past);
}
sent_laws m past = record {
  out_more = payload-cons _ _ m past;
  err_more = payload-cons _ _ m past;
  out_over = has_ended-cons _ _ m past;
  err_over = has_ended-cons _ _ m past;
  out_none = append-nil _;
  err_none = append-nil _;
  code = exit_of-cons m past;
}

-- The exit code that the waiter knows of.
abbrev code_at : WaiterPc → Option ℤ → Option ℤ
code_at waiting c = none
code_at (exited k) c = some k
code_at finished c = c

pub record Output (s : Server) : Type 0 where
  pub carried : Carries s.sent s.out s.error_out
  pub code : s.code ≡ code_at s.waiter s.code
  pub silent : (s.waiter ≡ finished → ⊥) → exit_of s.sent ≡ none
  pub last :
      (c : ℤ)
      → exit_of s.sent ≡ some c
      → (s.code ≡ some c)
        × ((rest : List Response) × (s.sent ≡ exit_message c ∷ rest) × (exit_of rest ≡ none))

module _ (s : Server) where
  -- `readMessages` has nothing to do with the output.
  abbrev SameOutput : Server → Type 0
  SameOutput t =
      (t.sent ≡ s.sent)
      × (t.out ≡ s.out)
      × (t.error_out ≡ s.error_out)
      × (t.waiter ≡ s.waiter)
      × (t.code ≡ s.code)

  advance_at-SameOutput : (p : ReaderPc) (t : Server) → advance_at p s ≡ to t → SameOutput t
  unfolding advance_at
  advance_at-SameOutput (put_stdin m) t a = ground arith
  advance_at-SameOutput (done_stdin m) t a = ground arith
  advance_at-SameOutput (shutting none) t a = ground arith
  advance_at-SameOutput (shutting (some c)) t a = ground arith
  advance_at-SameOutput _ t a = ground arith

  receive-SameOutput : (i : Incoming) → SameOutput (receive i s)
  unfolding receive
  receive-SameOutput (message m) = (refl, refl, refl, refl, refl)
  receive-SameOutput _ = (refl, refl, refl, refl, refl)

  module _ (h : Output s) where
    same-Output : (t : Server) → SameOutput t → Output t
    same-Output t (p, q, r, w, c) = record {
      carried = ground (arith, h.carried);
      code = ground arith;
      silent = ground (arith, h.silent);
      last = rw (p, c) h.last;
    }

    writes_stdout-Output :
        (b : Bytes) (t : Server)
        → s.waiter ≡ waiting
        → t ≡ record s { sent = stdout_message b ∷ s.sent; out = s.out ++ b }
        → Output t
    writes_stdout-Output b t w e = record {
      carried = ground (arith, h.carried, sent_laws (stdout_message b) s.sent);
      code = ground (arith, h.code);
      silent = ground (arith, h.silent, sent_laws (stdout_message b) s.sent);
      last = λ c x. absurd (ground (arith, h.silent, sent_laws (stdout_message b) s.sent));
    }

    writes_stderr-Output :
        (b : Bytes) (t : Server)
        → s.waiter ≡ waiting
        → t ≡ record s { sent = stderr_message b ∷ s.sent; error_out = s.error_out ++ b }
        → Output t
    writes_stderr-Output b t w e = record {
      carried = ground (arith, h.carried, sent_laws (stderr_message b) s.sent);
      code = ground (arith, h.code);
      silent = ground (arith, h.silent, sent_laws (stderr_message b) s.sent);
      last = λ c x. absurd (ground (arith, h.silent, sent_laws (stderr_message b) s.sent));
    }

    exits-Output :
        (k : ℤ) (t : Server)
        → s.waiter ≡ waiting
        → t ≡ record s { waiter = exited k; code = some k }
        → Output t
    exits-Output k t w e = record {
      carried = ground (arith, h.carried);
      code = ground (arith, h.code);
      silent = ground (arith, h.silent);
      last = λ c x. absurd (ground (arith, h.silent));
    }

    writes_exit-Output :
        (k : ℤ) (t : Server)
        → s.waiter ≡ exited k
        → t ≡ record s { sent = exit_message k ∷ s.sent; waiter = finished }
        → Output t
    writes_exit-Output k t w e = record {
      carried = ground (arith, h.carried, sent_laws (exit_message k) s.sent);
      code = ground (arith, h.code);
      silent = λ n. absurd (n (ground arith));
      last = λ c x. (
        ground (arith, h.code, sent_laws (exit_message k) s.sent),
        (
          s.sent,
          ground (arith, h.code, sent_laws (exit_message k) s.sent),
          ground (arith, h.silent),
        ),
      );
    }

    loses_exit-Output :
        (k : ℤ) (t : Server) → s.waiter ≡ exited k → t ≡ record s { waiter = finished } → Output t
    loses_exit-Output k t w e = record {
      carried = ground (arith, h.carried);
      code = ground (arith, h.code);
      silent = λ n. absurd (n (ground arith));
      last = λ c x. absurd (ground (arith, h.silent));
    }

Step-Output : {s t : Server} → Step s t → Output s → Output t
unfolding advance
Step-Output {s} (receives i p e) h = rw e (same-Output s h _ (receive-SameOutput s i))
Step-Output {s} {t} (advances a) h = same-Output s h t (advance_at-SameOutput s s.pc t a)
Step-Output {s} (stdin_moves x w e) h = rw e (same-Output s h _ (refl, refl, refl, refl, refl))
Step-Output {s} {t} (writes_stdout b w e) h = writes_stdout-Output s h b t w e
Step-Output {s} {t} (writes_stderr b w e) h = writes_stderr-Output s h b t w e
Step-Output {s} {t} (exits c w e) h = exits-Output s h c t w e
Step-Output {s} {t} (writes_exit c w e) h = writes_exit-Output s h c t w e
Step-Output {s} {t} (loses_exit c w e) h = loses_exit-Output s h c t w e
Step-Output {s} (cancel_ctx e) h = rw e (same-Output s h _ (refl, refl, refl, refl, refl))

start-Output : Output start
unfolding payload has_ended exit_of
start-Output = record {
  carried = record { out_all = refl; err_all = refl; out_open = refl; err_open = refl };
  code = refl;
  silent = λ _. refl;
  last = λ c x. cc;
}

Reach-Output : {s : Server} → Reach start s → Output s
Reach-Output here = start-Output
Reach-Output (later r st) = Step-Output st (Reach-Output r)

-- At every moment of a run the responses that were sent carry, in order, what the process wrote to
-- stdout and to stderr.
pub sent-Carries : {s : Server} → Reach start s → Carries s.sent s.out s.error_out
sent-Carries r = (Reach-Output r).carried

-- If an exit code was sent it is that of the process, in the last message, and in no other.
pub exit_of-sent :
    {s : Server} {c : ℤ}
    → Reach start s
    → exit_of s.sent ≡ some c
    → (s.code ≡ some c)
      × ((rest : List Response) × (s.sent ≡ exit_message c ∷ rest) × (exit_of rest ≡ none))
exit_of-sent {c} r e = (Reach-Output r).last c e
