-- ===== src/Agent/App.antt =====
-- cmd/agent/main.go: the command's flags, its action as a whole, and how the program ends.
pub mod Laws
use clustertest.Prelude.{
  ◌≡◌, ℕ, String, ◌<>◌, Bool, true, false, ◌&&◌, ◌||◌, not, List, [], ◌∷◌, Option, none, some,
  Error, Result, ok, err, str_eq, if◌then◌else◌, All, Env,
}
use clustertest.Process.Types.{Bytes}
use clustertest.Agent.Main.{
  NodeAgent, Flags, FailureHandler, Handled, host_stops, goes_on, agent_exits, handle, build_agent,
}
use clustertest.Agent.Link.{Tls, ServeEnd, run_http_server}

-- A `cli.StringFlag`.
pub record StringFlag : Type 0 where
  pub name : String
  pub usage : String
  pub value : String
  pub required : Bool

-- The command's flags.
abbrev pub flags : List StringFlag
flags =
    record {
      name = "on-heartbeat-failure";
      usage = "Action to take on a heartbeat failure. One of [shutdown,exit,none].";
      value = "none";
      required = false;
    }
    ∷ record {
      name = "heartbeat-timeout";
      usage = "Duration to wait for a heartbeat before shutting down.";
      value = "1m";
      required = false;
    }
    ∷ record {
      name = "listen-addr";
      usage = "The address for the HTTP server to listen on.";
      value = "0.0.0.0:8080";
      required = false;
    }
    ∷ record {
      name = "ca-cert-pem";
      usage = "The CA cert PEM bytes to use (base64-encoded).";
      value = "";
      required = true;
    }
    ∷ record {
      name = "cert-pem";
      usage = "The cert PEM bytes to use (base64-encoded).";
      value = "";
      required = true;
    }
    ∷ record {
      name = "key-pem";
      usage = "The key PEM bytes to use (base64-encoded).";
      value = "";
      required = true;
    }
    ∷ []

-- What `App.Run` of `urfave/cli` does with the arguments: it runs the action on something, or it
-- shows the help and returns no error, or it returns an error.
pub data Parsed (A : Type 0) : Type 0 where
  acts : A → Parsed A
  shows_help : Parsed A
  fails : Error → Parsed A

-- `App.Run` up to the action, which reads the values of the flags.
abbrev pub Parser : Type 0
Parser = List StringFlag → List String → Parsed (String → String)

-- The arguments that give flags their values, as two arguments each.
abbrev pub given_args : Env → List String
given_args [] = []
given_args ((k, v) ∷ given) = ("--" <> k) ∷ v ∷ given_args given

abbrev pub given_or : String → String → Env → String
given_or default name [] = default
given_or default name ((k, v) ∷ given) =
    let rest = given_or default name given in if str_eq k name then v else rest

abbrev pub has_name : String → List StringFlag → Bool
has_name k [] = false
has_name k (f ∷ fs) = str_eq k f.name || has_name k fs

abbrev pub is_given : String → Env → Bool
is_given name [] = false
is_given name ((k, v) ∷ given) = str_eq k name || is_given name given

-- Each of the given names is that of a flag and is given once.
abbrev pub are_known : List StringFlag → Env → Bool
are_known fs [] = true
are_known fs ((k, v) ∷ given) = has_name k fs && not (is_given k given) && are_known fs given

abbrev pub have_required : List StringFlag → Env → Bool
have_required [] given = true
have_required (f ∷ fs) given = (not f.required || is_given f.name given) && have_required fs given

-- What the parser documents of arguments that give the command's flags their values, the required
-- ones among them: a flag has the value that is given, or else its default.
abbrev pub ReadsFlags : Parser → Type 0
ReadsFlags parse =
    (program : String) (given : Env)
    → are_known flags given ≡ true
    → have_required flags given ≡ true
    → (values : String → String) × (parse flags (program ∷ given_args given) ≡ acts values)
      × All (λ (f : StringFlag). values f.name ≡ given_or f.value f.name given) flags

-- The action's first six statements.
abbrev pub flags_of : (String → String) → Flags
flags_of values = record {
  on_heartbeat_failure = values "on-heartbeat-failure";
  heartbeat_timeout = values "heartbeat-timeout";
  listen_addr = values "listen-addr";
  ca_cert_pem = values "ca-cert-pem";
  cert_pem = values "cert-pem";
  key_pem = values "key-pem";
}

-- 1 is the exit code of `log.Fatal`.
abbrev pub exit_code : Option Error → ℕ
exit_code none = 0
exit_code (some e) = 1

-- `Run` of an agent, with how listening to an address and serving end; it starts the check of the
-- heartbeats before, which `Agent.Heartbeat` models.
unfoldable pub run_agent : (T : Tls) → (String → Option Error) → ServeEnd → NodeAgent → Option Error
unfolding run_http_server
run_agent T listen end n =
    (run_http_server T (listen n.listen_addr) n.ca_cert_pem n.cert_pem n.key_pem end).0

-- The exit code of a program that the outcome of the handler ends. The end of the host, which ends
-- all its programs, is left aside.
abbrev pub code_of : Handled → Option ℕ
code_of host_stops = none
code_of (goes_on e) = none
code_of (agent_exits code) = some code

-- The same of an agent whose handler was called before `Run` returned, with the outcome of the
-- command `shutdown`, or was not called.
abbrev pub ended_by : Option (Option Error) → Option FailureHandler → Option ℕ
ended_by none handler = none
ended_by (some outcome) none = none
ended_by (some outcome) (some h) = code_of (handle h outcome)

-- The action up to `Run`.
abbrev pub action : Result NodeAgent → Parsed NodeAgent
action (err e) = fails e
action (ok n) = acts n

module _ (parse : Parser) (decode : String → Result Bytes)
    (parse_duration : String → Result ℕ) where
  -- The agent that the program builds from its arguments, or what `App.Run` does without one.
  unfoldable pub agent_of : List String → Parsed NodeAgent
  agent_of args = elim (parse flags args) [
    | fails e ↦ fails e
    | shows_help ↦ shows_help
    | acts values ↦ action (build_agent decode parse_duration (flags_of values))
  ]

  -- What `App.Run` returns, with how listening to an address and serving end. `Run` returns no
  -- `ErrServerClosed`, so that the action's test of it lets every error through.
  unfoldable pub run_app :
      (T : Tls) → (String → Option Error) → ServeEnd → List String → Option Error
  unfolding agent_of run_agent
  run_app T listen end args = elim (agent_of args) [
    | fails e ↦ some e
    | shows_help ↦ none
    | acts n ↦ run_agent T listen end n
  ]

  -- The exit code if a call of the handler ends the program.
  unfoldable pub alarm_code : Option (Option Error) → List String → Option ℕ
  unfolding agent_of handle
  alarm_code alarm args = elim (agent_of args) [
    | fails e ↦ none
    | shows_help ↦ none
    | acts n ↦ ended_by alarm n.heartbeat_failure_handler
  ]

  -- `main`: the exit code of the program.
  unfoldable pub main :
      (T : Tls) → (String → Option Error) → ServeEnd → Option (Option Error) → List String → ℕ
  unfolding run_app alarm_code
  main T listen end alarm args = elim (alarm_code alarm args) [
    | some code ↦ code
    | none ↦ exit_code (run_app T listen end args)
  ]
