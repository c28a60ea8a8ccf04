-- ===== src/Agent/Command.antt =====
-- agent/agent.go: `command`, the handler that runs a process and answers with all of its output.
use clustertest.Prelude.{
  ◌≡◌, refl, ℤ, String, true, false, List, Option, none, some, Error, Result, ok, err, str_eq,
  if◌then◌else◌, arith, inl, inr, Bool-cases,
}
use clustertest.Agent.Http.{Response, Body, http_error, text}

pub record PostCommandRequest : Type 0 where
  pub command : String
  pub args : List String
  pub stdin : String
  pub env : List String
  pub working_dir : String

pub record PostCommandResponse : Type 0 where
  pub exit_code : ℤ
  pub stdout : String
  pub stderr : String

-- The `exec.Cmd` that the handler builds; no directory is the agent's, no stdin the null device.
pub record Cmd : Type 0 where
  pub path : String
  pub args : List String
  pub dir : Option String
  pub env : List String
  pub stdin : Option String

-- A text field that is left out when it is empty.
unfoldable pub if_nonempty : String → Option String
if_nonempty s = if str_eq s "" then none else some s

unfoldable pub command_of : PostCommandRequest → Cmd
unfolding if_nonempty
command_of req = record {
  path = req.command;
  args = req.args;
  dir = if_nonempty req.working_dir;
  env = req.env;
  stdin = if_nonempty req.stdin;
}

-- The system that the commands run on: `cmd.Start`, then `cmd.Wait` with the code and the output
-- that it leaves; and `json.Marshal` of the response.
pub record Runner : Type 1 where
  pub State : Type 0
  pub start : Cmd → State → Option Error × State
  pub wait : Cmd → State → PostCommandResponse × State
  pub marshal : PostCommandResponse → Result Body

module _ (R : Runner) where
  -- What the handler answers once the process has ended.
  answer : PostCommandResponse → Response
  answer resp = elim (R.marshal resp) [
    | err e ↦ http_error e 500
    | ok b ↦ record { status = 200; body = b }
  ]

  run_command : Cmd → R.State → Response × R.State
  unfolding answer
  run_command cmd s =
      let (e, t) = R.start cmd s in
      elim e [ some x ↦ (http_error x 500, t) | none ↦ (answer (R.wait cmd t).0, (R.wait cmd t).1) ]

  -- `command`, with what the decoder makes of the request's body. `Wait` drops its error.
  unfoldable pub command : Result PostCommandRequest → R.State → Response × R.State
  unfolding run_command command_of
  command (err e) s = (http_error e 400, s)
  command (ok req) s =
      if str_eq req.command ""
      then (record { status = 400; body = text "request contained no command" }, s)
      else run_command (command_of req) s

  run_command_ok :
      (cmd : Cmd) (s : R.State)
      → (run_command cmd s).0.status ≡ 200
      → ((R.start cmd s).0 ≡ none)
        × (R.marshal (R.wait cmd (R.start cmd s).1).0 ≡ ok (run_command cmd s).0.body)
  unfolding run_command
  run_command_ok cmd s e = ground arith

  -- If `command` answers 200 to a decoded request then the request names a command, its process was
  -- started, and the body is the code and the output that the process left.
  pub command-ran :
      (req : PostCommandRequest) (s : R.State)
      → (command (ok req) s).0.status ≡ 200
      → (str_eq req.command "" ≡ false)
        × ((R.start (command_of req) s).0 ≡ none)
        × (R.marshal (R.wait (command_of req) (R.start (command_of req) s).1).0
            ≡ ok (command (ok req) s).0.body)
  unfolding command
  command-ran req s e = elim (Bool-cases (str_eq req.command "")) [
    | inl h ↦ absurd (refused h)
    | inr h ↦
        let (started, body) = run_command_ok (command_of req) s (rw h at e) in
        rw h (refl, started, body)
  ]
    where
      refused : str_eq req.command "" ≡ true → ⊥
      refused h = ground arith
