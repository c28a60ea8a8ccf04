-- ===== src/Agent/AppTests.antt =====
-- A program that is given its three certificates, and how it ends.
use clustertest.Prelude.{
  ◌≡◌, ◌↔◌, ◌⊎◌, refl, ℕ, String, List, [], ◌∷◌, Option, none, some, ok, Error, Env, str_eq,
  if◌then◌else◌,
}
use clustertest.Agent.Main.{build_agent}
use clustertest.Agent.Link.{server_closed}
use clustertest.Agent.App.{Parser, shows_help, given_args, agent_of, alarm_code, run_app, main}
use clustertest.Agent.App.Laws.{EndsWell, main-EndsWell}
use clustertest.Agent.Samples.{pairs, parser, encode, decode}

abbrev given : Env
given =
    ("ca-cert-pem", encode (1 ∷ []))
    ∷ ("cert-pem", encode (2 ∷ []))
    ∷ ("key-pem", encode (3 ∷ []))
    ∷ []

abbrev given_exit : Env
given_exit = ("on-heartbeat-failure", "exit") ∷ given

abbrev first_arg : List String → String
first_arg [] = ""
first_arg (program ∷ []) = ""
first_arg (program ∷ (arg ∷ args)) = arg

-- A parser that knows the help.
abbrev helping : Parser
helping fs args = if str_eq (first_arg args) "--help" then shows_help else parser fs args

abbrev code : Option (Option Error) → List String → ℕ
code = main helping (λ s. ok (decode s)) (λ s. ok 60000) pairs (λ a. none) server_closed

-- The help, and a handler that exits.
code_help : code none ("nodeagent" ∷ "--help" ∷ []) ≡ 0
unfolding main run_app agent_of alarm_code
code_help = refl

code_alarm : code (some none) ("nodeagent" ∷ given_args given_exit) ≡ 1
unfolding main run_app agent_of alarm_code build_agent
code_alarm = refl

main-EndsWell_example :
    ((code none ("nodeagent" ∷ given_args given_exit) ≡ 0)
      ↔ EndsWell helping
          (λ s. ok (decode s))
          (λ s. ok 60000)
          pairs
          (λ a. none)
          server_closed
          none
          ("nodeagent" ∷ given_args given_exit))
    × ((code none ("nodeagent" ∷ given_args given_exit) ≡ 0)
        ⊎ (code none ("nodeagent" ∷ given_args given_exit) ≡ 1))
main-EndsWell_example =
    main-EndsWell helping (λ s. ok (decode s)) (λ s. ok 60000) pairs (λ a. none) server_closed none
      ("nodeagent" ∷ given_args given_exit)
