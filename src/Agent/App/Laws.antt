-- ===== src/Agent/App/Laws.antt =====
-- The agent that the command of cmd/agent/main.go builds from its arguments, its heartbeats, and
-- the exit code.
use clustertest.Prelude.{
  ◌≡◌, ◌↔◌, ◌⊎◌, Error, inl, inr, refl, ap, sym, ◌∙◌, ℕ, ◌+◌, ◌≤◌, ◌<◌, String, Bool, true, false,
  List, ◌∷◌, Option, none, some, Result, ok, Env, arith,
}
use clustertest.Process.Types.{Bytes}
use clustertest.Agent.Heartbeat.{Agent, new_agent, Reach}
use clustertest.Agent.Heartbeat.Silence.{Quiet, HasStarted, HasAlarm, Quiet-HasAlarm, Reach-options}
use clustertest.Agent.Main.{
  NodeAgent, FailureHandler, shuts_down, exits, handle, Flags, build_agent, decode_certs,
  failure_handler, new_node_agent, with_heartbeat_timeout, with_heartbeat_failure_handler,
  with_listen_addr,
}
use clustertest.Agent.Link.{Tls, ServeEnd, server_closed, run_http_server-closed}
use clustertest.Agent.App.{
  Parser, Parsed, action, acts, shows_help, fails, ended_by, alarm_code, ReadsFlags, given_args,
  given_or, are_known, have_required, flags, flags_of, agent_of, exit_code, run_agent, run_app,
  main,
}

-- The heartbeats' part of an agent, before `Run`, at some time.
abbrev has_handler : Option FailureHandler → Bool
has_handler none = false
has_handler (some h) = true

abbrev pub heart_of : NodeAgent → ℕ → Agent
heart_of n time = new_agent n.heartbeat_timeout (has_handler n.heartbeat_failure_handler) time

-- An agent that has a handler calls it, if no heartbeat comes, by the third action of its goroutine
-- after its timeout has passed since the last one.
pub heart_of-HasAlarm :
    (n : NodeAgent) (h : FailureHandler) (time i k : ℕ) (a b c : Agent)
    → n.heartbeat_failure_handler ≡ some h
    → Reach (heart_of n time) a
    → HasStarted a.check
    → Quiet a i b
    → a.last_heartbeat + n.heartbeat_timeout < b.now
    → Quiet b k c
    → 3 ≤ k
    → HasAlarm c.alarms
heart_of-HasAlarm n h time i k a b c set run started before late after enough =
    let (timeout, handler) = Reach-options (heart_of n time) a run in
    Quiet-HasAlarm i k a b c started (handler ∙ ap has_handler set) before (rw timeout late) after
      enough

module _ (parse : Parser) (decode : String → Result Bytes)
    (parse_duration : String → Result ℕ) where
  built_with :
      (f : Flags) (n : NodeAgent)
      → failure_handler f.on_heartbeat_failure ≡ ok n.heartbeat_failure_handler
      → parse_duration f.heartbeat_timeout ≡ ok n.heartbeat_timeout
      → f.listen_addr ≡ n.listen_addr
      → decode f.ca_cert_pem ≡ ok n.ca_cert_pem
      → decode f.cert_pem ≡ ok n.cert_pem
      → decode f.key_pem ≡ ok n.key_pem
      → build_agent decode parse_duration f ≡ ok n
  unfolding build_agent decode_certs new_node_agent with_heartbeat_timeout
      with_heartbeat_failure_handler with_listen_addr
  built_with f n h t l a b c = rw (a, b, c, h, t, l, build_agent) refl

  -- From arguments that give known flags their values, the required ones among them, the command
  -- builds the agent that has the decoded certificates, the named handler, the parsed timeout and the
  -- address, those that are not given being "none", "1m" and "0.0.0.0:8080".
  pub agent_of-given_args :
      (program : String) (given : Env) (n : NodeAgent)
      → ReadsFlags parse
      → are_known flags given ≡ true
      → have_required flags given ≡ true
      → failure_handler (given_or "none" "on-heartbeat-failure" given)
        ≡ ok n.heartbeat_failure_handler
      → parse_duration (given_or "1m" "heartbeat-timeout" given) ≡ ok n.heartbeat_timeout
      → given_or "0.0.0.0:8080" "listen-addr" given ≡ n.listen_addr
      → decode (given_or "" "ca-cert-pem" given) ≡ ok n.ca_cert_pem
      → decode (given_or "" "cert-pem" given) ≡ ok n.cert_pem
      → decode (given_or "" "key-pem" given) ≡ ok n.key_pem
      → agent_of parse decode parse_duration (program ∷ given_args given) ≡ acts n
  unfolding agent_of
  agent_of-given_args program given n reads known required h t l x y z =
      let (values, parsed, all) = reads program given known required in
      let (failure, (timeout, (listen, (of_ca, (of_cert, (of_key, end)))))) = all in
      rw (parsed, agent_of)
        (ap action (
          built_with (flags_of values) n (ap failure_handler failure ∙ h)
            (ap parse_duration timeout ∙ t) (listen ∙ l) (ap decode of_ca ∙ x)
            (ap decode of_cert ∙ y) (ap decode of_key ∙ z)))

  Parsed-cases :
      {A : Type 0} (p : Parsed A)
      → ((a : A) × (p ≡ acts a)) ⊎ ((p ≡ shows_help) ⊎ ((e : Error) × (p ≡ fails e)))
  Parsed-cases (acts a) = inl (a, refl)
  Parsed-cases shows_help = inr (inl refl)
  Parsed-cases (fails e) = inr (inr (e, refl))

  -- A handler that ends the program does so with code 1.
  ended_by_one :
      (alarm : Option (Option Error)) (h : Option FailureHandler)
      → (ended_by alarm h ≡ none) ⊎ (ended_by alarm h ≡ some 1)
  unfolding handle
  ended_by_one none h = inl refl
  ended_by_one (some o) none = inl refl
  ended_by_one (some none) (some shuts_down) = inl refl
  ended_by_one (some (some e)) (some shuts_down) = inl refl
  ended_by_one (some o) (some exits) = inr refl

  exit_code_none : (o : Option Error) → (exit_code o ≡ 0) ↔ (o ≡ none)
  exit_code_none none = (λ _. refl, λ _. refl)
  exit_code_none (some e) = (λ h. absurd (omega (arith, h)), λ h. absurd (ground arith))

  exit_code_small : (o : Option Error) → (exit_code o ≡ 0) ⊎ (exit_code o ≡ 1)
  exit_code_small none = inl refl
  exit_code_small (some e) = inr refl

  module _ (T : Tls) (listen : String → Option Error) (end : ServeEnd)
      (alarm : Option (Option Error)) where
    main_of :
        (args : List String)
        → alarm_code parse decode parse_duration alarm args ≡ none
        → main parse decode parse_duration T listen end alarm args
          ≡ exit_code (run_app parse decode parse_duration T listen end args)
    unfolding main
    main_of args quiet = rw (quiet, main) refl

    -- The exit code of the program, by what its arguments give.
    main_acts :
        (args : List String) (n : NodeAgent)
        → agent_of parse decode parse_duration args ≡ acts n
        → ended_by alarm n.heartbeat_failure_handler ≡ none
        → main parse decode parse_duration T listen end alarm args
          ≡ exit_code (run_agent T listen end n)
    unfolding run_app alarm_code
    main_acts args n h quiet =
        main_of args (rw (h, alarm_code) quiet) ∙ ap exit_code (rw (h, run_app) refl)

    main_exits :
        (args : List String) (n : NodeAgent)
        → agent_of parse decode parse_duration args ≡ acts n
        → ended_by alarm n.heartbeat_failure_handler ≡ some 1
        → main parse decode parse_duration T listen end alarm args ≡ 1
    unfolding main alarm_code
    main_exits args n h loud =
        let code : alarm_code parse decode parse_duration alarm args ≡ some 1 =
          rw (h, alarm_code) loud in
        rw (code, main) refl

    main_helps :
        (args : List String)
        → agent_of parse decode parse_duration args ≡ shows_help
        → main parse decode parse_duration T listen end alarm args ≡ 0
    unfolding run_app alarm_code
    main_helps args h =
        main_of args (rw (h, alarm_code) refl) ∙ ap exit_code {y = none} (rw (h, run_app) refl)

    main_fails :
        (args : List String) (x : Error)
        → agent_of parse decode parse_duration args ≡ fails x
        → main parse decode parse_duration T listen end alarm args ≡ 1
    unfolding run_app alarm_code
    main_fails args x h =
        main_of args (rw (h, alarm_code) refl) ∙ ap exit_code {y = some x} (rw (h, run_app) refl)

    -- An agent whose run ends well: no call of its handler ends the program, it could listen, its
    -- certificate and its key make a pair, and its server was closed.
    abbrev pub RunsWell : NodeAgent → Type 0
    RunsWell n =
        (ended_by alarm n.heartbeat_failure_handler ≡ none)
        × (listen n.listen_addr ≡ none)
        × ((pair : T.Pair) × (T.x509_key_pair n.cert_pem n.key_pem ≡ ok pair))
        × (end ≡ server_closed)

    -- What makes the command's program exit with code 0: its arguments ask for the help, or they give
    -- an agent whose run ends well.
    abbrev pub EndsWell : List String → Type 0
    EndsWell args =
        (agent_of parse decode parse_duration args ≡ shows_help)
        ⊎ ((n : NodeAgent) × (agent_of parse decode parse_duration args ≡ acts n) × RunsWell n)

    -- The code of an agent's run is 0 exactly if it ends well.
    main-RunsWell :
        (args : List String) (n : NodeAgent)
        → agent_of parse decode parse_duration args ≡ acts n
        → (main parse decode parse_duration T listen end alarm args ≡ 0) ↔ RunsWell n
    unfolding run_agent
    main-RunsWell args n h = elim (ended_by_one alarm n.heartbeat_failure_handler) [
      | inr loud ↦ (
        λ e. absurd (omega (arith, e, main_exits args n h loud)),
        λ (quiet, heard, paired, ended). absurd (ground (arith, loud, quiet)),
      )
      | inl quiet ↦
          let code = main_acts args n h quiet in
          let zero = exit_code_none (run_agent T listen end n) in
          let closed =
            run_http_server-closed T (listen n.listen_addr) n.ca_cert_pem n.cert_pem n.key_pem
              end in
          (
            λ e.
                let (heard, paired, ended) = closed.0 (zero.0 (sym code ∙ e)) in
                (quiet, heard, paired, ended),
            λ (q, heard, paired, ended). code ∙ zero.1 (closed.1 (heard, paired, ended)),
          )
    ]

    main_small :
        (args : List String)
        → (main parse decode parse_duration T listen end alarm args ≡ 0)
          ⊎ (main parse decode parse_duration T listen end alarm args ≡ 1)
    main_small args = elim (Parsed-cases (agent_of parse decode parse_duration args)) [
      | inr (inl h) ↦ inl (main_helps args h)
      | inr (inr (x, h)) ↦ inr (main_fails args x h)
      | inl (n, h) ↦ elim (ended_by_one alarm n.heartbeat_failure_handler) [
        | inr loud ↦ inr (main_exits args n h loud)
        | inl quiet ↦ rw (main_acts args n h quiet) (exit_code_small (run_agent T listen end n))
      ]
    ]

    EndsWell-main :
        (args : List String)
        → EndsWell args
        → main parse decode parse_duration T listen end alarm args ≡ 0
    EndsWell-main args (inl help) = main_helps args help
    EndsWell-main args (inr (n, built, well)) = (main-RunsWell args n built).1 well

    main_ended :
        (args : List String)
        → main parse decode parse_duration T listen end alarm args ≡ 0
        → EndsWell args
    main_ended args e = elim (Parsed-cases (agent_of parse decode parse_duration args)) [
      | inr (inl h) ↦ inl h
      | inr (inr (x, h)) ↦ absurd (omega (arith, e, main_fails args x h))
      | inl (n, h) ↦ inr (n, h, (main-RunsWell args n h).0 e)
    ]

    -- The program exits with code 0 exactly if its arguments ask for the help, or give an agent that
    -- could listen, whose certificate and key make a pair, whose server was closed, and whose handler
    -- did not exit; and else it exits with code 1. The host's shutdown, which ends the program with
    -- it, is left aside.
    pub main-EndsWell :
        (args : List String)
        → ((main parse decode parse_duration T listen end alarm args ≡ 0) ↔ EndsWell args)
          × ((main parse decode parse_duration T listen end alarm args ≡ 0)
              ⊎ (main parse decode parse_duration T listen end alarm args ≡ 1))
    main-EndsWell args = ((main_ended args, EndsWell-main args), main_small args)
