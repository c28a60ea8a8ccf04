-- ===== src/Process/Session.antt =====
-- A client's runner and a server's runner on one connection, which delivers what was sent, in
-- order, as far as it has been read.
use clustertest.Prelude.{
  ◌≡◌, refl, sym, ap, ◌∙◌, ◌≢◌, ℤ, false, List, [], ◌∷◌, ◌++◌, none, some, Bool-cases, Option-cases,
  inl, inr, append-nil, append_assoc, arith,
}
use clustertest.Process.Types.{Bytes, Request, Response, CmdResult}
use clustertest.Process.Sink.{taken, held}
use clustertest.Process.Stream.{read_on, read_on-append, payload-read_on, payload-cons}
use clustertest.Process.Writer.{
  Wire, IsFaithful, StartProcRequest, contents, first_message, write_first_message, write_stdin,
}
use clustertest.Process.Writer.Stdin.{stdin_payload, source, write_stdin-prefix}
use clustertest.Process.Client
use clustertest.Process.Client.{Client, ReaderPc, Waits, report}
use clustertest.Process.Client.Streams.{
  in_loop, out_sent, err_sent, out_payload, err_payload, Reach-Streams,
}
use clustertest.Process.Client.Answers.{exit_of, exit_of-cons, Waits-exit_code, Reach-Answers}
use clustertest.Process.Server
use clustertest.Process.Server.{Server}
use clustertest.Process.Server.Stdin.{stdin_sent, Reach-Reading}
use clustertest.Process.Server.Output.{sent-Carries, exit_of-sent}

exit_of-append : (later past : List Response) → exit_of past ≢ none → exit_of (later ++ past) ≢ none
exit_of-append [] past h = h
exit_of-append (m ∷ later) past h =
    ground (arith, exit_of-cons m (later ++ past), exit_of-append later past h)

-- A client that has dealt with an exit message has dealt with all that was sent.
nothing_later :
    (later past : List Response) {sent rest : List Response} {m : Response}
    → sent ≡ later ++ past
    → sent ≡ m ∷ rest
    → exit_of rest ≡ none
    → exit_of past ≢ none
    → past ≡ sent
nothing_later [] past e q r h = sym e
nothing_later (x ∷ later) past e q r h = ground (arith, exit_of-append later past h)

out_sent_after :
    (p : ReaderPc) (past : List Response)
    → in_loop p ≡ false
    → (out_sent p past ≡ out_payload past) × (err_sent p past ≡ err_payload past)
out_sent_after (report r e) past l = (refl, refl)
out_sent_after _ past l = ground arith

not_in_loop :
    {c : Client} {k : ℤ}
    → Client.Reach Client.start c
    → exit_of c.past ≡ some k
    → in_loop c.pc ≡ false
not_in_loop {c} r e = elim (Bool-cases (in_loop c.pc)) [
  | inl l ↦ ground (arith, (Reach-Answers r).running)
  | inr l ↦ l
]

all_read :
    {v : Server} {k : ℤ} (later : List Response) {past : List Response}
    → Server.Reach Server.start v
    → v.sent ≡ later ++ past
    → exit_of past ≡ some k
    → past ≡ v.sent
all_read {v} {k} later {past} rv sent e = elim (Option-cases (exit_of v.sent)) [
  | inl x ↦ absurd (exit_of-append later past (λ q. cc (q, e)) (ap exit_of (sym sent) ∙ x))
  | inr (c, x) ↦
      let (rest, top, quiet) = (exit_of-sent rv x).1 in
      nothing_later later past sent top quiet (λ q. cc (q, e))
]

-- When `Wait` returns no error, its code is the exit code of the process, and the two goroutines
-- that write have taken from `readMessages` all that the process wrote to stdout and to stderr.
pub Waits-session :
    {v : Server} {c c' : Client} {r : CmdResult} (later : List Response)
    → Server.Reach Server.start v
    → Client.Reach Client.start c
    → v.sent ≡ later ++ c.past
    → Waits c r c'
    → r.error ≡ none
    → (v.code ≡ some r.code) × (taken c.stdout ≡ v.out) × (taken c.stderr ≡ v.error_out)
Waits-session {v} {c} {r} later rv rc sent w e =
    let k = Waits-exit_code rc w e in
    let all = all_read later rv sent k in
    let after = out_sent_after c.pc c.past (not_in_loop rc k) in
    let streams = Reach-Streams rc in
    let carried = sent-Carries rv in
    (
      (exit_of-sent rv (ap exit_of (sym all) ∙ k)).0,
      streams.out_bytes ∙ after.0 ∙ ap out_payload all ∙ carried.out_all,
      streams.err_bytes ∙ after.1 ∙ ap err_payload all ∙ carried.err_all,
    )

-- The requests that the server's loop has read, with the one that it is at.
abbrev pub read_by : Server.ReaderPc → List Request → List Request
read_by (Server.put_stdin m) past = m ∷ past
read_by (Server.done_stdin m) past = m ∷ past
read_by _ past = past

stdin_sent-read_by :
    (p : Server.ReaderPc) (past : List Request)
    → (more : Bytes) × (stdin_payload (read_by p past) ≡ stdin_sent p past ++ more)
stdin_sent-read_by (Server.put_stdin m) past =
    (_, payload-cons (λ (m : Request). m.stdin) (λ m. m.stdin_done) m past)
stdin_sent-read_by (Server.done_stdin m) past = ([], sym (append-nil _))
stdin_sent-read_by _ past = ([], sym (append-nil _))

regroup : (a b c d e : Bytes) → a ++ (b ++ (c ++ (d ++ e))) ≡ (((a ++ b) ++ c) ++ d) ++ e
regroup a b c d e = simp append_assoc

cons_tail : {m : Request} {k l : List Request} → m ∷ k ≡ m ∷ l → k ≡ l
cons_tail e = cc

-- At every moment what the process's stdin was given is a first part of what the reader holds that
-- `StartProc` was called with.
pub stdin-session :
    (W : Wire Request) (f : IsFaithful W) (q : StartProcRequest) (s : W.State) {v : Server}
    (read unread : List Request)
    → W.sent s ≡ []
    → (write_first_message W q s).0 ≡ none
    → Server.Reach Server.start v
    → W.sent (write_stdin W q.stdin (write_first_message W q s).1)
      ≡ first_message q ∷ (read ++ unread)
    → read_by v.pc v.past ≡ read_on read []
    → (rest : Bytes) × (v.stdin.written ++ rest ≡ contents (source q.stdin))
stdin-session W f q s {v} read unread fresh wrote rv sent past =
    let (rest, post, same, all) = write_stdin-prefix W f q s fresh wrote in
    let (later, grown) =
      payload-read_on (λ (m : Request). m.stdin) (λ m. m.stdin_done) unread (read_on read []) in
    let (more, current) = stdin_sent-read_by v.pc v.past in
    let held_now = held v.stdin.pc in
    (
      held_now ++ (more ++ (later ++ post)),
      regroup v.stdin.written held_now more later post
          ∙ ap (λ b. ((b ++ more) ++ later) ++ post) (Reach-Reading rv).bytes
          ∙ ap (λ b. (b ++ later) ++ post) (sym current ∙ ap stdin_payload past)
          ∙ ap (λ b. b ++ post) (sym grown ∙ ap stdin_payload (sym (read_on-append read unread [])))
          ∙ ap (λ l. stdin_payload (read_on l []) ++ post) (cons_tail (sym sent ∙ same))
          ∙ all,
    )
