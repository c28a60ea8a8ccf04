-- ===== src/Cluster/Local/Proc/Laws.antt =====
-- What `Wait` of a local process answers.
use clustertest.Prelude.{
  ◌≡◌, refl, sym, ◌⊎◌, inl, inr, ℤ, negsuc, true, Option, none, some, Error, All, All-map, subst,
  arith,
}
use clustertest.Process.Types.{CmdResult}
use clustertest.Cluster.Local.{WaitEnd, wait_result}
use clustertest.Cluster.Local.Proc.{
  WaiterPc, running, sending, returned, Answer, Proc, start, Waits, take_result, caller_done, Step,
  exits, sends, drops, kills, spares, cancels, waits, Reach, here, later,
}

-- The result of the process is somewhere on its way to `Wait`: not yet made, about to be sent or in
-- the buffer; or it is gone.
AtWaiter : WaiterPc → Option WaitEnd → Option CmdResult → Type 0
AtWaiter running e r = (e ≡ none) × (r ≡ none)
AtWaiter (sending x) e r = (w : WaitEnd) × (e ≡ some w) × (x ≡ wait_result w) × (r ≡ none)
AtWaiter returned e none = (w : WaitEnd) × (e ≡ some w)
AtWaiter returned e (some x) = (w : WaitEnd) × (e ≡ some w) × (x ≡ wait_result w)

-- The answer for a process that ended in this way.
abbrev pub AnswersEnd : WaitEnd → CmdResult → Type 0
AnswersEnd WaitEnd.success r = (r.code ≡ ℤ.pos 0) × (r.error ≡ none)
AnswersEnd (WaitEnd.exit_error code) r = (r.code ≡ code) × (r.error ≡ none)
AnswersEnd (WaitEnd.other_error e) r = (r.code ≡ negsuc 0) × (r.error ≡ some e)

-- The answer for the caller's context, which has ended.
abbrev pub AnswersCaller : Answer → Type 0
AnswersCaller a =
    (x : Error) × (a.caller ≡ some x) × (a.result.code ≡ negsuc 0) × (a.result.error ≡ some x)

-- An answer is that for the process, which has exited, or that for the caller's context.
abbrev pub IsAnswer : Option WaitEnd → Answer → Type 0
IsAnswer e a = ((w : WaitEnd) × (e ≡ some w) × AnswersEnd w a.result) ⊎ AnswersCaller a

wait_result-AnswersEnd : (w : WaitEnd) → AnswersEnd w (wait_result w)
unfolding wait_result
wait_result-AnswersEnd WaitEnd.success = (refl, refl)
wait_result-AnswersEnd (WaitEnd.exit_error code) = (refl, refl)
wait_result-AnswersEnd (WaitEnd.other_error e) = (refl, refl)

record Inv (p : Proc) : Type 0 where
  at_waiter : AtWaiter p.waiter p.exited p.result
  answered : All (IsAnswer p.exited) p.answers

AtWaiter-taken :
    (pc : WaiterPc) (e : Option WaitEnd) (x : CmdResult) (r : Option CmdResult)
    → r ≡ some x
    → AtWaiter pc e r
    → AtWaiter pc e none × ((w : WaitEnd) × (e ≡ some w) × AnswersEnd w x)
unfolding AtWaiter
AtWaiter-taken running e x r q h = absurd (ground arith)
AtWaiter-taken (sending y) e x r q h = absurd (ground arith)
AtWaiter-taken returned e x none q h = absurd (ground arith)
AtWaiter-taken returned e x (some y) q (w, ended, same) =
    let known : x ≡ wait_result w = ground arith in
    ((w, ended), (w, ended, subst (AnswersEnd w) (sym known) (wait_result-AnswersEnd w)))

IsAnswer-exits :
    (w : WaitEnd) (e : Option WaitEnd) (r : Answer) → e ≡ none → IsAnswer e r → IsAnswer (some w) r
IsAnswer-exits w e r q (inl (x, ended, same)) = absurd (ground arith)
IsAnswer-exits w e r q (inr h) = inr h

module _ (p : Proc) (i : Inv p) where
  at_pc : (pc : WaiterPc) → p.waiter ≡ pc → AtWaiter pc p.exited p.result
  at_pc pc e = subst (λ x. AtWaiter x p.exited p.result) e i.at_waiter

  exits-Inv :
      (w : WaitEnd)
      → p.waiter ≡ running
      → Inv (record p { waiter = sending (wait_result w); exited = some w })
  unfolding AtWaiter
  exits-Inv w e =
      let (unended, empty) = at_pc running e in
      record {
        at_waiter = (w, refl, refl, empty);
        answered = All-map (λ r h. IsAnswer-exits w p.exited r unended h) p.answers i.answered;
      }

  sends-Inv :
      (r : CmdResult) → p.waiter ≡ sending r → Inv (record p { waiter = returned; result = some r })
  unfolding AtWaiter
  sends-Inv r e =
      let (w, ended, same, empty) = at_pc (sending r) e in
      record { at_waiter = (w, ended, same); answered = i.answered }

  drops-Inv : (r : CmdResult) → p.waiter ≡ sending r → Inv (record p { waiter = returned })
  unfolding AtWaiter
  drops-Inv r e =
      let (w, ended, same, empty) = at_pc (sending r) e in
      record {
        at_waiter = subst (λ x. AtWaiter returned p.exited x) (sym empty) (w, ended);
        answered = i.answered;
      }

  Waits-Inv : (caller : Option Error) (q : Proc) → Waits p caller q → Inv q
  Waits-Inv caller q (take_result r e s) =
      let (left, answer) = AtWaiter-taken p.waiter p.exited r p.result e i.at_waiter in
      rw s (record { at_waiter = left; answered = (inl answer, i.answered) })
  Waits-Inv caller q (caller_done x e s) =
      rw s (record { at_waiter = i.at_waiter; answered = (inr (x, e, refl, refl), i.answered) })

  Step-Inv : (q : Proc) → Step p q → Inv q
  Step-Inv q (exits w e s) = rw s (exits-Inv w e)
  Step-Inv q (sends r e empty s) = rw s (sends-Inv r e)
  Step-Inv q (drops r e c s) = rw s (drops-Inv r e)
  Step-Inv q (kills k c s) = rw s (record { at_waiter = i.at_waiter; answered = i.answered })
  Step-Inv q (spares w k e s) = rw s (record { at_waiter = i.at_waiter; answered = i.answered })
  Step-Inv q (cancels s) = rw s (record { at_waiter = i.at_waiter; answered = i.answered })
  Step-Inv q (waits caller w) = Waits-Inv caller q w

start-Inv : Inv start
unfolding AtWaiter
start-Inv = record { at_waiter = (refl, refl); answered = tt }

Reach-Inv : (p : Proc) → Reach start p → Inv p
Reach-Inv p here = start-Inv
Reach-Inv p (later {q = m} r s) = Step-Inv m (Reach-Inv m r) p s

-- In every reachable state of a local process, each answer of its `Wait` is that for the process, which
-- has exited, or that for its caller's context, which has ended: code 0 without an error for a
-- success, the exit code without an error for an exit with one, and -1 with the error for another
-- error of `cmd.Wait`; and -1 with the error of the caller's context.
pub Reach-IsAnswer : (p : Proc) → Reach start p → All (IsAnswer p.exited) p.answers
Reach-IsAnswer p r = (Reach-Inv p r).answered

-- A process that has exited while the context of `StartProc` was done, and whose result was dropped.
abbrev pub lost : WaitEnd → Proc
lost w = record start { waiter = returned; exited = some w; canceled_ctx = true }

lost-Reach : (w : WaitEnd) → Reach start (lost w)
lost-Reach w =
    later (later (later here (cancels refl)) (exits w refl refl))
      (drops (wait_result w) refl refl refl)

-- There is no result, and none comes.
record IsLost (p : Proc) : Type 0 where
  gone : p.waiter ≡ returned
  empty : p.result ≡ none
  failed : All AnswersCaller p.answers

Step-IsLost : (p q : Proc) → Step p q → IsLost p → IsLost q
Step-IsLost p q (exits w e s) i = absurd (ground arith)
Step-IsLost p q (sends r e empty s) i = absurd (ground arith)
Step-IsLost p q (drops r e c s) i = absurd (ground arith)
Step-IsLost p q (kills k c s) i =
    rw s (record { gone = i.gone; empty = i.empty; failed = i.failed })
Step-IsLost p q (spares w k e s) i =
    rw s (record { gone = i.gone; empty = i.empty; failed = i.failed })
Step-IsLost p q (cancels s) i = rw s (record { gone = i.gone; empty = i.empty; failed = i.failed })
Step-IsLost p q (waits caller (take_result r e s)) i = absurd (ground arith)
Step-IsLost p q (waits caller (caller_done x e s)) i =
    rw s (record { gone = i.gone; empty = i.empty; failed = ((x, e, refl, refl), i.failed) })

Reach-IsLost : (p q : Proc) → Reach p q → IsLost p → IsLost q
Reach-IsLost p q here i = i
Reach-IsLost p q (later {q = m} r s) i = Step-IsLost m q s (Reach-IsLost p m r i)

-- Once the context of `StartProc` is done the result of a process may be lost, however it ends: the
-- state in which it is can be reached, and from there every `Wait` answers -1 with the error of its
-- caller's context, which has ended, or does not return.
pub Reach-lost :
    (w : WaitEnd) (p : Proc) → Reach (lost w) p → Reach start (lost w) × All AnswersCaller p.answers
Reach-lost w p r = (
  lost-Reach w,
  (Reach-IsLost (lost w) p r (record { gone = refl; empty = refl; failed = tt })).failed,
)
