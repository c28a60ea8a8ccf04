-- ===== src/Agent/Link.antt =====
-- agent/tls.go, agent/client.go and agent/agent.go: the two TLS configurations, `NewClient`, and the
-- server that `Run` runs.
use clustertest.Prelude.{
  ◌≡◌, ◌↔◌, refl, ap, sym, ◌∙◌, ℕ, String, ◌<>◌, itoa, Bool, true, false, List, [], ◌∷◌, Option,
  none, some, Error, wrap, Result, ok, err, or_wrap, ◌>>=◌, arith, Result-cases, inl, inr,
}
use clustertest.Process.Types.{Bytes}
use clustertest.Agent.Certs.{Crypto, Certs, returns, generate_certs}
use clustertest.Agent.Certs.Laws.{IsSigned, generate_certs-IsSigned}

-- The parts of a `tls.Config` that the program sets: `Pool` is a set of certificates to trust, `Pair`
-- a certificate with its key.
pub record TlsConfig (Pool Pair : Type 0) : Type 0 where
  pub root_cas : Option Pool
  pub client_cas : Option Pool
  pub certificate : Pair
  pub requires_client_cert : Bool
  pub only_version_13 : Bool

-- crypto/x509 and crypto/tls: `append_certs` of an empty pool, which drops what does not parse, and
-- `x509_key_pair`.
pub record Tls : Type 1 where
  pub Pool : Type 0
  pub Pair : Type 0
  pub append_certs : Bytes → Pool
  pub x509_key_pair : Bytes → Bytes → Result Pair

-- How `Serve` ends: by `Close`, which is `ErrServerClosed`, or by an error.
pub data ServeEnd : Type 0 where
  server_closed : ServeEnd
  serve_failed : Error → ServeEnd

serve_error : ServeEnd → Option Error
serve_error server_closed = none
serve_error (serve_failed e) = some e

-- What `Stop` does with the field `httpServer`, if it is set: `none` is the nil dereference.
unfoldable pub stop : Bool → Option Error → Option (Option Error)
stop false closed = none
stop true closed = some closed

serve_error-none : (end : ServeEnd) → serve_error end ≡ none → end ≡ server_closed
unfolding serve_error
serve_error-none server_closed e = refl
serve_error-none (serve_failed x) e = absurd (ground arith)

module _ (T : Tls) where
  -- `ClientTLSConfig`
  unfoldable pub client_tls_config : Bytes → Bytes → Bytes → Result (TlsConfig T.Pool T.Pair)
  client_tls_config ca cert key =
      or_wrap (T.x509_key_pair cert key) "parsing client key pair" [] >>= λ pair. ok (record {
        root_cas = some (T.append_certs ca);
        client_cas = none;
        certificate = pair;
        requires_client_cert = false;
        only_version_13 = false;
      })

  -- `ServerTLSConfig`
  unfoldable pub server_tls_config : Bytes → Bytes → Bytes → Result (TlsConfig T.Pool T.Pair)
  server_tls_config ca cert key =
      or_wrap (T.x509_key_pair cert key) "parsing server key pair" [] >>= λ pair. ok (record {
        root_cas = none;
        client_cas = some (T.append_certs ca);
        certificate = pair;
        requires_client_cert = true;
        only_version_13 = true;
      })

  -- A client: where every connection of it goes, whatever the host of the URL, the base of its URLs, the
  -- wait between two heartbeats of `WaitForServer` in milliseconds, and its configuration. The HTTP
  -- client around it makes ten retries, 10 ms apart.
  pub record Client : Type 0 where
    pub dial_addr : String
    pub host : String
    pub base_url : String
    pub command_url : String
    pub wait_interval : ℕ
    pub tls_config : TlsConfig T.Pool T.Pair

  abbrev pub client_of : String → ℕ → TlsConfig T.Pool T.Pair → Client
  client_of ip port config = record {
    dial_addr = ip <> ":" <> itoa port;
    host = "nodeagent";
    base_url = "https://nodeagent:" <> itoa port;
    command_url = "https://nodeagent:" <> itoa port <> "/command";
    wait_interval = 100;
    tls_config = config;
  }

  apply : List (Client → Client) → Client → Client
  apply [] c = c
  apply (o ∷ opts) c = apply opts (o c)

  -- `WithClientWaitInterval`
  unfoldable pub with_client_wait_interval : ℕ → Client → Client
  with_client_wait_interval d c = record c { wait_interval = d }

  -- `NewClient`
  unfoldable pub new_client :
      {K : Type 0} → Certs K → String → ℕ → List (Client → Client) → Result Client
  unfolding apply client_tls_config
  new_client certs ip port opts =
      or_wrap (client_tls_config certs.ca.cert_pem certs.client.cert_pem certs.client.key_pem)
        "building client TLS config" []
      >>= λ config. ok (apply opts (client_of ip port config))

  -- The client that `NewClient` gives with an interval has the configuration of its certificates,
  -- connects to the address of its arguments, and has that interval.
  pub new_client_ok :
      {K : Type 0} (certs : Certs K) (ip : String) (port d : ℕ) (c : Client)
      → new_client certs ip port (with_client_wait_interval d ∷ []) ≡ ok c
      → (client_tls_config certs.ca.cert_pem certs.client.cert_pem certs.client.key_pem
          ≡ ok c.tls_config)
        × (c.dial_addr ≡ ip <> ":" <> itoa port)
        × (c.wait_interval ≡ d)
  unfolding new_client with_client_wait_interval
  new_client_ok certs ip port d c e =
      elim (Result-cases
        (client_tls_config certs.ca.cert_pem certs.client.cert_pem certs.client.key_pem)) [
          | inl (config, h) ↦
              let made : record (client_of ip port config) { wait_interval = d } ≡ c =
                ground (arith, rw (h, new_client) at e) in
              (
                h ∙ ap (λ x. ok x.tls_config) made,
                ap (λ x. x.dial_addr) (sym made),
                ap (λ x. x.wait_interval) (sym made),
              )
          | inr (x, h) ↦ absurd (ground (arith, rw (h, new_client) at e))
        ]

  -- What `runHTTPServer` returns, and whether it has set `httpServer`, with what listening gives.
  unfoldable pub run_http_server :
      Option Error → Bytes → Bytes → Bytes → ServeEnd → Option Error × Bool
  unfolding serve_error server_tls_config
  run_http_server (some e) ca cert key end = (some (wrap "listening TCP" [] e), false)
  run_http_server none ca cert key end = elim (server_tls_config ca cert key) [
    | err e ↦ (some (wrap "building server TLS config" [] e), false)
    | ok config ↦ (serve_error end, true)
  ]

  run_paired :
      (ca cert key : Bytes) (end : ServeEnd)
      → (run_http_server none ca cert key end).0 ≡ none
      → ((pair : T.Pair) × (T.x509_key_pair cert key ≡ ok pair)) × (serve_error end ≡ none)
  unfolding run_http_server
  run_paired ca cert key end e = elim (Result-cases (T.x509_key_pair cert key)) [
    | inl (pair, h) ↦ ((pair, h), ground arith)
    | inr (x, h) ↦ absurd (ground arith)
  ]

  -- `runHTTPServer` returns no error exactly when it could listen, the certificate and the key make a
  -- pair, and the server was closed.
  pub run_http_server-closed :
      (listen : Option Error) (ca cert key : Bytes) (end : ServeEnd)
      → ((run_http_server listen ca cert key end).0 ≡ none) ↔ (
          (listen ≡ none)
          × ((pair : T.Pair) × (T.x509_key_pair cert key ≡ ok pair))
          × (end ≡ server_closed))
  unfolding run_http_server
  run_http_server-closed (some x) ca cert key end =
      (λ e. absurd (ground arith), λ h. absurd (ground (arith, h.0)))
  run_http_server-closed none ca cert key end = (
    λ e. (
      refl,
      (run_paired ca cert key end e).0,
      serve_error-none end (run_paired ca cert key end e).1,
    ),
    λ h. ground (arith, h.1.1, h.2),
  )

  -- The key pairs of the two sides.
  client_tls_config_ok :
      (ca cert key : Bytes) (c : TlsConfig T.Pool T.Pair)
      → client_tls_config ca cert key ≡ ok c
      → (c.root_cas ≡ some (T.append_certs ca)) × (T.x509_key_pair cert key ≡ ok c.certificate)
  unfolding client_tls_config
  client_tls_config_ok ca cert key c e = ground arith

  server_tls_config_ok :
      (ca cert key : Bytes) (c : TlsConfig T.Pool T.Pair)
      → server_tls_config ca cert key ≡ ok c
      → (c.client_cas ≡ some (T.append_certs ca))
        × (c.requires_client_cert ≡ true)
        × (c.only_version_13 ≡ true)
        × (T.x509_key_pair cert key ≡ ok c.certificate)
  unfolding server_tls_config
  server_tls_config_ok ca cert key c e = ground arith

  -- From the certificates of `GenerateCerts` each side gets a configuration that presents a certificate
  -- signed by the CA and trusts that CA for the other side, whose certificate the server requires.
  pub tls_config-IsSigned :
      (C : Crypto) (s : C.State) (certs : Certs C.CaKey) (client server : TlsConfig T.Pool T.Pair)
      → (generate_certs C s).0 ≡ returns certs
      → client_tls_config certs.ca.cert_pem certs.client.cert_pem certs.client.key_pem ≡ ok client
      → server_tls_config certs.ca.cert_pem certs.server.cert_pem certs.server.key_pem ≡ ok server
      → IsSigned C certs.ca certs.client
        × IsSigned C certs.ca certs.server
        × (client.root_cas ≡ some (T.append_certs certs.ca.cert_pem))
        × (server.client_cas ≡ client.root_cas)
        × (server.requires_client_cert ≡ true)
        × (T.x509_key_pair certs.client.cert_pem certs.client.key_pem ≡ ok client.certificate)
        × (T.x509_key_pair certs.server.cert_pem certs.server.key_pem ≡ ok server.certificate)
  tls_config-IsSigned C s certs client server g c v =
      let (made, signed_server, signed_client) = generate_certs-IsSigned C s certs g in
      let (roots, pair) = client_tls_config_ok _ _ _ client c in
      let (cas, required, version, server_pair) = server_tls_config_ok _ _ _ server v in
      (signed_client, signed_server, roots, cas ∙ sym roots, required, pair, server_pair)
