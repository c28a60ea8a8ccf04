-- ===== src/Cluster/Local/Proc.antt =====
-- cluster/local/node.go: `StartProc`, the goroutine that waits for the process, the one that kills
-- it, and `Wait`.
pub mod Laws
use clustertest.Prelude.{
  ◌≡◌, ℤ, negsuc, Bool, true, false, String, List, [], ◌∷◌, ◌++◌, Option, none, some, Error, Result,
  ok, err, wrap, is_nonempty, if◌then◌else◌,
}
use clustertest.Process.Types.{CmdResult}
use clustertest.Process.Writer.{Reader, StartProcRequest}
use clustertest.Cluster.Local.{WaitEnd, wait_result}

-- The `exec.Cmd` of `StartProc`; an environment of `none` is the host's own, and `some` goes on top
-- of it.
pub record Cmd : Type 0 where
  pub path : String
  pub args : List String
  pub env : Option (List String)
  pub dir : String
  pub stdin : Option Reader

unfoldable pub cmd_of : List String → StartProcRequest → Cmd
cmd_of environ req = record {
  path = req.command;
  args = req.args;
  env = if is_nonempty req.env then some (environ ++ req.env) else none;
  dir = req.wd;
  stdin = req.stdin;
}

-- The goroutine that waits: in `cmd.Wait`, in its `select`, or returned.
pub data WaiterPc : Type 0 where
  running : WaiterPc
  sending : CmdResult → WaiterPc
  returned : WaiterPc

-- An answer of `Wait`, with the error of its caller's context at that time, if it had ended.
pub record Answer : Type 0 where
  pub caller : Option Error
  pub result : CmdResult

-- `exited` is how `cmd.Wait` ended, once it has; `result` the buffer of `resultChan`; `killing` is
-- false once the goroutine that kills has returned. `answers` are those of `Wait`, newest first.
pub record Proc : Type 0 where
  pub waiter : WaiterPc
  pub exited : Option WaitEnd
  pub killing : Bool
  pub killed : Bool
  pub canceled_ctx : Bool
  pub result : Option CmdResult
  pub answers : List Answer

abbrev pub start : Proc
start = record {
  waiter = running;
  exited = none;
  killing = true;
  killed = false;
  canceled_ctx = false;
  result = none;
  answers = [];
}

-- `StartProc`, with what `cmd.Start` gives.
unfoldable pub start_proc : List String → (Cmd → Option Error) → StartProcRequest → Result Proc
unfolding cmd_of
start_proc environ start_cmd req = elim (start_cmd (cmd_of environ req)) [
  | some e ↦ err (wrap "running command" [] e)
  | none ↦ ok start
]

-- The function that `Wait` calls, with the error of its caller's context, if that has ended: the case
-- of the result, which the `select` may take in any event, or that of the caller's context.
pub data Waits (p : Proc) (caller : Option Error) (q : Proc) : Type 0 where
  take_result :
      (r : CmdResult)
      → p.result ≡ some r
      → q ≡ record p { result = none; answers = record { caller = caller; result = r } ∷ p.answers }
      → Waits p caller q
  caller_done :
      (e : Error)
      → caller ≡ some e
      → q ≡ record p {
        answers =
            record { caller = caller; result = record { code = negsuc 0; error = some e } }
            ∷ p.answers;
      }
      → Waits p caller q

-- `exits` ends `cmd.Wait` and closes `procExitedChan`, which only the killer receives from.
pub data Step (p q : Proc) : Type 0 where
  exits :
      (w : WaitEnd)
      → p.waiter ≡ running
      → q ≡ record p { waiter = sending (wait_result w); exited = some w }
      → Step p q
  sends :
      (r : CmdResult)
      → p.waiter ≡ sending r
      → p.result ≡ none
      → q ≡ record p { waiter = returned; result = some r }
      → Step p q
  drops :
      (r : CmdResult)
      → p.waiter ≡ sending r
      → p.canceled_ctx ≡ true
      → q ≡ record p { waiter = returned }
      → Step p q
  kills :
      p.killing ≡ true
      → p.canceled_ctx ≡ true
      → q ≡ record p { killing = false; killed = true }
      → Step p q
  spares :
      (w : WaitEnd)
      → p.killing ≡ true
      → p.exited ≡ some w
      → q ≡ record p { killing = false }
      → Step p q
  cancels : q ≡ record p { canceled_ctx = true } → Step p q
  waits : (caller : Option Error) → Waits p caller q → Step p q

pub data Reach (p : Proc) : Proc → Type 0 where
  here : Reach p p
  later : {q r : Proc} → Reach p q → Step q r → Reach p r
