-- ===== src/Process/Client/Shutdown.antt =====
-- The end of a run: the goroutines are joined, nothing blocks while the writers take their bytes,
-- and what can go wrong when they do not.
use clustertest.Prelude.{
  ◌≡◌, refl, ◌≢◌, Bool, true, false, ◌++◌, none, some, ◌⊎◌, inl, inr, Bool-cases, Option-cases,
  arith,
}
use clustertest.Process.Types.{Bytes, CmdResult}
use clustertest.Process.Sink.{
  Sink, SinkPc, SinkStep, waiting, writing, broken, ended, write, fail, range_end, returned,
}
use clustertest.Process.Sink.Laws.{Delivered, Delivered-of_taken}
use clustertest.Process.Client.{
  Client, Incoming, ReaderPc, reading, report, leave_stderr, cancelling, joining, stopped, receive,
  advance_at, advance, start, drop_channels, close_conn, message, peer_closed, failed, Waits,
  take_result, caller_done, runner_done, Step, receives, advances, stdout_moves, stderr_moves,
  stdin_ends, waits, cancel_ctx, Reach, here, later,
}
use clustertest.Process.Client.Streams.{out_payload, err_payload, Reach-Streams}

abbrev pub out_is_shut : ReaderPc → Bool
out_is_shut leave_stderr = true
out_is_shut cancelling = true
out_is_shut joining = true
out_is_shut stopped = true
out_is_shut _ = false

abbrev pub err_is_shut : ReaderPc → Bool
err_is_shut cancelling = true
err_is_shut joining = true
err_is_shut stopped = true
err_is_shut _ = false

abbrev pub has_canceled : ReaderPc → Bool
has_canceled joining = true
has_canceled stopped = true
has_canceled _ = false

pub record Closing (s : Client) : Type 0 where
  out_ended : s.stdout.pc ≡ ended → s.stdout.closed ≡ true
  err_ended : s.stderr.pc ≡ ended → s.stderr.closed ≡ true
  out_shut : out_is_shut s.pc ≡ true → s.stdout.closed ≡ true
  err_shut : err_is_shut s.pc ≡ true → s.stderr.closed ≡ true
  pub cut : has_canceled s.pc ≡ true → s.canceled_ctx ≡ true
  pub joined :
      s.pc ≡ stopped
      → (returned s.stdout.pc ≡ true) × (returned s.stderr.pc ≡ true) × (s.stdin_done ≡ true)

module _ (s : Client) (h : Closing s) where
  advance_at-Closing : (p : ReaderPc) (t : Client) → s.pc ≡ p → advance_at p s ≡ some t → Closing t
  unfolding advance_at
  advance_at-Closing (report r (close_conn c)) t e a = ground arith
  advance_at-Closing (report r drop_channels) t e a = ground arith
  advance_at-Closing _ t e a = ground arith

  receive-Closing : (i : Incoming) → s.pc ≡ reading → Closing (receive i s)
  unfolding receive
  receive-Closing (message m) p = ground arith
  receive-Closing (peer_closed e) p = ground arith
  receive-Closing (failed e) p = ground arith

Waits-Closing : {s t : Client} {r : CmdResult} → Waits s r t → Closing s → Closing t
Waits-Closing (take_result p e) h = ground arith
Waits-Closing (caller_done x p e) h = ground arith
Waits-Closing (runner_done c p e) h = ground arith

-- The part of a sink's state that a step of it only lets grow.
SinkStep-grows :
    {x y : Sink}
    → SinkStep x y
    → (y.closed ≡ x.closed) × (y.pc ≡ ended → x.closed ≡ true) × (returned x.pc ≡ false)
SinkStep-grows (write b p e) = ground arith
SinkStep-grows (fail a b p e) = ground arith
SinkStep-grows (range_end p c e) = ground arith

Step-Closing : {s t : Client} → Step s t → Closing s → Closing t
Step-Closing {s} (receives i p e) h = rw e (receive-Closing s h i p)
Step-Closing {s} {t} (advances a) h = unfold advance in advance_at-Closing s h s.pc t refl a
Step-Closing (stdout_moves x w e) h = ground (arith, SinkStep-grows w)
Step-Closing (stderr_moves x w e) h = ground (arith, SinkStep-grows w)
Step-Closing (stdin_ends e) h = ground arith
Step-Closing (waits r w) h = Waits-Closing w h
Step-Closing (cancel_ctx e) h = ground arith

pub Reach-Closing : {s : Client} → Reach start s → Closing s
Reach-Closing here = ground arith
Reach-Closing (later r st) = Step-Closing st (Reach-Closing r)

-- Once `readMessages` has returned, each of the two writers has been given all the bytes that the
-- messages carry for it, in order, or it has failed, and then the bytes that it did not take are
-- the rest.
pub stopped-Delivered :
    {s : Client}
    → Reach start s
    → s.pc ≡ stopped
    → Delivered s.stdout (out_payload s.past) × Delivered s.stderr (err_payload s.past)
stopped-Delivered {s} r e =
    let ended = (Reach-Closing r).joined e in
    (
      Delivered-of_taken s.stdout _ ended.0 (ground (arith, (Reach-Streams r).out_bytes)),
      Delivered-of_taken s.stderr _ ended.1 (ground (arith, (Reach-Streams r).err_bytes)),
    )

-- Some goroutine can move: `readMessages`, or one of the two that write.
abbrev pub CanMove : Client → Type 0
CanMove s =
    ((t : Client) × (advance s ≡ some t))
    ⊎ ((x : Sink) × SinkStep s.stdout x)
    ⊎ ((x : Sink) × SinkStep s.stderr x)

-- A writer has failed.
abbrev pub IsBroken : SinkPc → Type 0
IsBroken (broken q) = Unit
IsBroken _ = ⊥

-- A goroutine that still writes can finish its `Write`.
write_moves : (x : Sink) (b : Bytes) → x.pc ≡ writing b → (y : Sink) × SinkStep x y
write_moves x b e = (record x { pc = waiting; written = x.written ++ b }, write b e refl)

-- A goroutine whose channel is closed has returned or can move.
shut_moves : (x : Sink) → x.closed ≡ true → (returned x.pc ≡ true) ⊎ ((y : Sink) × SinkStep x y)
shut_moves x c = at x.pc refl
  where
    at : (p : SinkPc) → x.pc ≡ p → (returned p ≡ true) ⊎ ((y : Sink) × SinkStep x y)
    at waiting e = inr (record x { pc = ended }, range_end e c refl)
    at (writing b) e = inr (write_moves x b e)
    at (broken q) e = inl refl
    at ended e = inl refl

module _ (s : Client) (h : Closing s) where
  -- `readMessages` waits for a channel or for the other goroutines only if a sink can move.
  blocked :
      (p : ReaderPc) (x y : SinkPc)
      → s.pc ≡ p
      → s.stdout.pc ≡ x
      → s.stderr.pc ≡ y
      → advance_at p s ≡ none
      → p ≢ reading
      → p ≢ stopped
      → s.stdin_done ≡ true
      → ¬ IsBroken x
      → ¬ IsBroken y
      → CanMove s
  unfolding advance_at
  blocked p (writing b) y e o r a _ _ d k l = inr (inl (write_moves s.stdout b o))
  blocked p x (writing b) e o r a _ _ d k l = inr (inr (write_moves s.stderr b r))
  blocked p (broken q) y e o r a _ _ d k l = absurd (k tt)
  blocked p x (broken q) e o r a _ _ d k l = absurd (l tt)
  blocked p waiting y e o r a n m d k l = elim (Bool-cases s.stdout.closed) [
    | inl c ↦ inr (inl (_, range_end o c refl))
    | inr c ↦ ground arith
  ]
  blocked p ended waiting e o r a n m d k l = elim (Bool-cases s.stderr.closed) [
    | inl c ↦ inr (inr (_, range_end r c refl))
    | inr c ↦ ground arith
  ]
  blocked p ended ended e o r a n m d k l = ground arith

-- No deadlock: as long as neither writer has failed and stdin is done, a runner that waits for no
-- message of the server and has not stopped can make a step of its own.
pub no_deadlock :
    {s : Client}
    → Reach start s
    → s.pc ≢ reading
    → s.pc ≢ stopped
    → s.stdin_done ≡ true
    → ¬ IsBroken s.stdout.pc
    → ¬ IsBroken s.stderr.pc
    → CanMove s
unfolding advance
no_deadlock {s} r n m d k l = elim (Option-cases (advance s)) [
  | inl e ↦ blocked s (Reach-Closing r) s.pc s.stdout.pc s.stderr.pc refl refl refl e n m d k l
  | inr (t, e) ↦ inl (t, e)
]
