-- ===== src/Cluster/Local/Tests.antt =====
-- A local process that is waited for twice, one whose result is lost, and the theorems there.
use clustertest.Prelude.{refl, All, ℤ, [], ◌∷◌, none, some, canceled}
use clustertest.Process.Types.{CmdResult}
use clustertest.Cluster.Local.{WaitEnd, wait_result}
use clustertest.Cluster.Local.Proc.{
  Answer, Proc, start, Reach, here, later, exits, sends, waits, take_result, caller_done, cancels,
}
use clustertest.Cluster.Local.Proc.Laws.{IsAnswer, AnswersCaller, Reach-IsAnswer, lost, Reach-lost}

abbrev exit_one : CmdResult
exit_one = wait_result (WaitEnd.exit_error (ℤ.pos 1))

-- An answer to a caller whose context was canceled.
abbrev too_late : Answer
too_late = record {
  caller = some canceled;
  result = record { code = ℤ.negsuc 0; error = some canceled };
}

abbrev waited_twice : Proc
waited_twice = record start {
  waiter = clustertest.Cluster.Local.Proc.returned;
  exited = some (WaitEnd.exit_error (ℤ.pos 1));
  answers = too_late ∷ record { caller = none; result = exit_one } ∷ [];
}

-- The process exits with code 1, a first `Wait` has that, a second one its caller's context.
waited_twice-Reach : Reach start waited_twice
unfolding wait_result
waited_twice-Reach =
    later
      (later
        (later (later here (exits (WaitEnd.exit_error (ℤ.pos 1)) refl refl))
          (sends exit_one refl refl refl))
        (waits none (take_result exit_one refl refl)))
      (waits (some canceled) (caller_done canceled refl refl))

Reach-IsAnswer_example : All (IsAnswer waited_twice.exited) waited_twice.answers
Reach-IsAnswer_example = Reach-IsAnswer waited_twice waited_twice-Reach

Reach-lost_example : Reach start (lost WaitEnd.success) × All AnswersCaller (too_late ∷ [])
Reach-lost_example =
    Reach-lost WaitEnd.success (record (lost WaitEnd.success) { answers = too_late ∷ [] })
      (later here (waits (some canceled) (caller_done canceled refl refl)))
