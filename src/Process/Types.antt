-- ===== src/Process/Types.antt =====
-- agent/process/types.go: the two messages of the protocol, and the result of a process.
use clustertest.Prelude.{ℕ, ℤ, String, Bool, List, Option, Error}

-- `[]byte`
abbrev pub Bytes : Type 0
Bytes = List ℕ

-- `procRequestMessage`
pub record Request : Type 0 where
  pub stdin : Bytes
  pub stdin_done : Bool
  pub stop_sending_stderr : Bool
  pub stop_sending_stdout : Bool
  pub command : String
  pub args : List String
  pub env : List String
  pub wd : String

-- `procResponseMessage`
pub record Response : Type 0 where
  pub stdout : Bytes
  pub stdout_done : Bool
  pub stderr : Bytes
  pub stderr_done : Bool
  pub exited : Bool
  pub exit_code : ℤ

-- `cmdResult`
pub record CmdResult : Type 0 where
  pub code : ℤ
  pub error : Option Error

-- The `websocket.StatusCode` values that this package closes with.
pub data Status : Type 0 where
  normal_closure internal_error : Status
