-- ===== src/Agent/Main.antt =====
-- cmd/agent/main.go: the command that starts an agent; and `NewNodeAgent` of agent/agent.go.
use clustertest.Prelude.{
  ◌≡◌, ℕ, String, List, [], ◌∷◌, Option, none, some, Error, errorf, str, Result, ok, err, or_wrap,
  ◌>>=◌, str_eq, if◌then◌else◌, arith,
}
use clustertest.Process.Types.{Bytes}

-- The failure handlers; `none` in place of one is nil.
pub data FailureHandler : Type 0 where
  shuts_down : FailureHandler
  exits : FailureHandler

-- What comes of a call of the handler: the host shuts down, or the command that should do it fails
-- and the agent goes on, or the agent exits.
pub data Handled : Type 0 where
  host_stops : Handled
  goes_on : Error → Handled
  agent_exits : ℕ → Handled

-- `HeartbeatFailureShutdown`, with what `shutdown now` gives, and `HeartbeatFailureExit`.
unfoldable pub handle : FailureHandler → Option Error → Handled
handle shuts_down none = host_stops
handle shuts_down (some e) = goes_on e
handle exits outcome = agent_exits 1

-- The options of a `NodeAgent` but its logger; a duration is in milliseconds.
pub record NodeAgent : Type 0 where
  pub ca_cert_pem : Bytes
  pub cert_pem : Bytes
  pub key_pem : Bytes
  pub heartbeat_failure_handler : Option FailureHandler
  pub heartbeat_timeout : ℕ
  pub listen_addr : String

-- `NewNodeAgent`, without an error of the logger.
unfoldable pub new_node_agent : Bytes → Bytes → Bytes → List (NodeAgent → NodeAgent) → NodeAgent
new_node_agent ca_cert cert key opts = apply opts (record {
  ca_cert_pem = ca_cert;
  cert_pem = cert;
  key_pem = key;
  heartbeat_failure_handler = none;
  heartbeat_timeout = 60000;
  listen_addr = "0.0.0.0:8080";
})
  where
    apply : List (NodeAgent → NodeAgent) → NodeAgent → NodeAgent
    apply [] n = n
    apply (o ∷ opts) n = apply opts (o n)

unfoldable pub with_heartbeat_timeout : ℕ → NodeAgent → NodeAgent
with_heartbeat_timeout d n = record n { heartbeat_timeout = d }

unfoldable pub with_heartbeat_failure_handler : Option FailureHandler → NodeAgent → NodeAgent
with_heartbeat_failure_handler f n = record n { heartbeat_failure_handler = f }

unfoldable pub with_listen_addr : String → NodeAgent → NodeAgent
with_listen_addr s n = record n { listen_addr = s }

-- The values of the command's flags.
pub record Flags : Type 0 where
  pub on_heartbeat_failure : String
  pub heartbeat_timeout : String
  pub listen_addr : String
  pub ca_cert_pem : String
  pub cert_pem : String
  pub key_pem : String

-- The `switch` on the flag `on-heartbeat-failure`.
unfoldable pub failure_handler : String → Result (Option FailureHandler)
failure_handler flag =
    if str_eq flag "shutdown"
    then ok (some shuts_down)
    else if str_eq flag "exit"
    then ok (some exits)
    else if str_eq flag "none"
    then ok none
    else err (errorf "unsupported on-heartbeat-failure %q" (str flag ∷ []))

module _ (decode : String → Result Bytes) (parse_duration : String → Result ℕ) where
  -- The three certificates, decoded from base64.
  unfoldable pub decode_certs : Flags → Result (Bytes × (Bytes × Bytes))
  decode_certs flags = or_wrap (decode flags.ca_cert_pem) "decoding CA cert PEM" [] >>= λ ca.
      or_wrap (decode flags.cert_pem) "decoding cert PEM" [] >>= λ cert.
      or_wrap (decode flags.key_pem) "decoding key PEM" [] >>= λ key. ok (ca, (cert, key))

  -- The command's action up to the call of `Run`.
  unfoldable pub build_agent : Flags → Result NodeAgent
  unfolding decode_certs failure_handler new_node_agent with_heartbeat_timeout with_listen_addr
      with_heartbeat_failure_handler
  build_agent flags = decode_certs flags >>= λ certs.
      failure_handler flags.on_heartbeat_failure >>= λ handler.
      or_wrap (parse_duration flags.heartbeat_timeout) "parsing heartbeat timeout" [] >>= λ timeout.
      ok (
        new_node_agent certs.0 certs.1.0 certs.1.1 (
          with_heartbeat_timeout timeout
          ∷ with_listen_addr flags.listen_addr
          ∷ with_heartbeat_failure_handler handler
          ∷ []))

  -- If the action builds an agent then its certificates are the decoded flags, its handler the one
  -- that the flag names, its timeout the parsed duration and its address that of the flag.
  pub build_agent-parts :
      (flags : Flags) (n : NodeAgent)
      → build_agent flags ≡ ok n
      → (decode flags.ca_cert_pem ≡ ok n.ca_cert_pem)
        × (decode flags.cert_pem ≡ ok n.cert_pem)
        × (decode flags.key_pem ≡ ok n.key_pem)
        × (failure_handler flags.on_heartbeat_failure ≡ ok n.heartbeat_failure_handler)
        × (parse_duration flags.heartbeat_timeout ≡ ok n.heartbeat_timeout)
        × (n.listen_addr ≡ flags.listen_addr)
  unfolding build_agent
  build_agent-parts flags n e = ground arith
