-- ===== src/Agent/Certs/Laws.antt =====
-- `GenerateCerts` signs both certificates with the CA that it returns.
use clustertest.Prelude.{
  ◌≡◌, ◌⊎◌, refl, ap, ◌∙◌, sym, ℕ, String, false, [], ◌∷◌, Error, ok, err, arith, Result-cases, inl,
  inr,
}
use clustertest.Agent.Certs.{
  Crypto, CaCert, Cert, Certs, Outcome, returns, fails, nil_dereference, template, sign_cert,
  key_cert, build_cert, client_cert, server_cert, generate_certs, build_ca_cert,
}

Outcome-cases :
    {A : Type 0} (o : Outcome A)
    → ((a : A) × (o ≡ returns a)) ⊎ (((x : Error) × (o ≡ fails x)) ⊎ (o ≡ nil_dereference))
Outcome-cases (returns a) = inl (a, refl)
Outcome-cases (fails x) = inr (inl (x, refl))
Outcome-cases nil_dereference = inr (inr refl)

module _ (C : Crypto) where
  -- A certificate for the agents that the CA has signed.
  pub record IsSigned (ca : CaCert C.CaKey) (c : Cert) : Type 0 where
    at : C.State
    key : C.Key
    signed : (C.create c.x509_cert ca.x509_cert key ca.priv_key at).0 ≡ ok c.cert_der
    pem : c.cert_pem ≡ C.encode_pem "CERTIFICATE" c.cert_der
    dns : c.x509_cert.dns_names ≡ "nodeagent" ∷ []
    not_ca : c.x509_cert.is_ca ≡ false

  sign_cert-IsSigned :
      (ca : CaCert C.CaKey) (n : ℕ) (name : String) (key : C.Key) (s : C.State) (c : Cert)
      → (sign_cert C ca (template C n name) key s).0 ≡ returns c
      → IsSigned ca c
  unfolding sign_cert
  sign_cert-IsSigned ca n name key s c e = record {
    at = s;
    key = key;
    signed = ground arith;
    pem = ground arith;
    dns = ground arith;
    not_ca = ground arith;
  }

  key_cert-IsSigned :
      (ca : CaCert C.CaKey) (n : ℕ) (name : String) (s : C.State) (c : Cert)
      → (key_cert C ca (template C n name) s).0 ≡ returns c
      → IsSigned ca c
  unfolding key_cert
  key_cert-IsSigned ca n name s c e = elim (Result-cases (C.ecdsa_key s).0) [
    | inl (k, h) ↦ sign_cert-IsSigned ca n name k _ c (rw (h, key_cert) at e)
    | inr (x, h) ↦ absurd (no_key x h)
  ]
    where
      no_key : (x : Error) → (C.ecdsa_key s).0 ≡ err x → ⊥
      no_key x h = ground arith

  build_cert-IsSigned :
      (ca : CaCert C.CaKey) (name : String) (s : C.State) (c : Cert)
      → (build_cert C ca name s).0 ≡ returns c
      → IsSigned ca c
  unfolding build_cert
  build_cert-IsSigned ca name s c e = elim (Result-cases (C.rand_int s).0) [
    | inl (n, h) ↦ key_cert-IsSigned ca n name _ c (rw (h, build_cert) at e)
    | inr (x, h) ↦ absurd (no_serial x h)
  ]
    where
      no_serial : (x : Error) → (C.rand_int s).0 ≡ err x → ⊥
      no_serial x h = ground arith

  -- The certificates that the rest of `GenerateCerts` returns are the two that it has built.
  client_cert_parts :
      (ca : CaCert C.CaKey) (server : Cert) (s : C.State) (certs : Certs C.CaKey)
      → (client_cert C ca server s).0 ≡ returns certs
      → (certs.ca ≡ ca)
        × (certs.server ≡ server)
        × ((build_cert C ca "nodeagent" s).0 ≡ returns certs.client)
  unfolding client_cert
  client_cert_parts ca server s certs e = ground arith

  server_cert_parts :
      (ca : CaCert C.CaKey) (s : C.State) (certs : Certs C.CaKey)
      → (server_cert C ca s).0 ≡ returns certs
      → (certs.ca ≡ ca)
        × ((build_cert C ca "nodeagent" s).0 ≡ returns certs.server)
        × ((build_cert C ca "nodeagent" (build_cert C ca "nodeagent" s).1).0 ≡ returns certs.client)
  unfolding server_cert
  server_cert_parts ca s certs e = elim (Outcome-cases (build_cert C ca "nodeagent" s).0) [
    | inl (c, h) ↦
        let (same, server, client) = client_cert_parts ca c _ certs (rw (h, server_cert) at e) in
        (same, h ∙ ap returns (sym server), client)
    | inr (inl (x, h)) ↦ absurd (ground (arith, rw (h, server_cert) at e))
    | inr (inr h) ↦ absurd (ground (arith, rw (h, server_cert) at e))
  ]

  -- `GenerateCerts` builds the CA certificate first, and then the two others with it.
  generate_certs_parts :
      (s : C.State) (certs : Certs C.CaKey)
      → (generate_certs C s).0 ≡ returns certs
      → (ca : CaCert C.CaKey) × (u : C.State) × ((build_ca_cert C "ClustertestCA" s).0 ≡ ok ca)
        × ((server_cert C ca u).0 ≡ returns certs)
  unfolding generate_certs
  generate_certs_parts s certs e = elim (Result-cases (build_ca_cert C "ClustertestCA" s).0) [
    | inl (ca, h) ↦ (ca, (build_ca_cert C "ClustertestCA" s).1, h, rw (h, generate_certs) at e)
    | inr (x, h) ↦ absurd (no_ca x h)
  ]
    where
      no_ca : (x : Error) → (build_ca_cert C "ClustertestCA" s).0 ≡ err x → ⊥
      no_ca x h = ground (arith, rw (h, generate_certs) at e)

  -- If `GenerateCerts` returns certificates then the CA's is the one that it has built, and the
  -- server's and the client's are certificates for "nodeagent" that this CA has signed, none a CA's.
  pub generate_certs-IsSigned :
      (s : C.State) (certs : Certs C.CaKey)
      → (generate_certs C s).0 ≡ returns certs
      → ((build_ca_cert C "ClustertestCA" s).0 ≡ ok certs.ca)
        × IsSigned certs.ca certs.server
        × IsSigned certs.ca certs.client
  generate_certs-IsSigned s certs e =
      let (ca, u, made, rest) = generate_certs_parts s certs e in
      let (same, server, client) = server_cert_parts ca u certs rest in
      rw same (
        made,
        build_cert-IsSigned ca "nodeagent" u certs.server server,
        build_cert-IsSigned ca "nodeagent" _ certs.client client,
      )
