-- ===== src/Agent/Certs.antt =====
-- agent/tls.go: the certificates of a cluster, with the cryptography as operations on the source of
-- randomness.
pub mod Laws
use clustertest.Prelude.{
  ℕ, String, Bool, true, false, List, [], ◌∷◌, Option, none, some, Error, errorf, wrap, Result, ok,
  err, is_nonempty, if◌then◌else◌,
}
use clustertest.Process.Types.{Bytes}

-- The parts of an `x509.Certificate` that the two kinds of certificates differ in.
pub record Template : Type 0 where
  pub serial : ℕ
  pub common_name : String
  pub dns_names : List String
  pub is_ca : Bool
  pub signs : Bool

-- crypto/rand, crypto/rsa, crypto/ecdsa, crypto/x509 and encoding/pem. An encoder that fails gives
-- nil, here no byte.
pub record Crypto : Type 1 where
  pub State : Type 0
  pub CaKey : Type 0
  pub Key : Type 0
  pub rand_int : State → Result ℕ × State
  pub rsa_key : State → Result CaKey × State
  pub ecdsa_key : State → Result Key × State
  -- The template, its parent's, the public key's owner and the key that signs.
  pub create_ca : Template → CaKey → State → Result Bytes × State
  pub create : Template → Template → Key → CaKey → State → Result Bytes × State
  pub encode_pem : String → Bytes → Bytes
  pub marshal_ca_key : CaKey → Bytes
  pub marshal_key : Key → Result Bytes

pub record CaCert (K : Type 0) : Type 0 where
  pub cert_pem : Bytes
  pub key_pem : Bytes
  pub x509_cert : Template
  pub priv_key : K

pub record Cert : Type 0 where
  pub x509_cert : Template
  pub cert_der : Bytes
  pub cert_pem : Bytes
  pub key_pem : Bytes

pub record Certs (K : Type 0) : Type 0 where
  pub server : Cert
  pub client : Cert
  pub ca : CaCert K

-- A function that may also dereference nil.
pub data Outcome (A : Type 0) : Type 0 where
  returns : A → Outcome A
  fails : Error → Outcome A
  nil_dereference : Outcome A

module _ (C : Crypto) where
  -- The end of `buildCACert`: the two encodings.
  encode_ca : Template → C.CaKey → Bytes → Result (CaCert C.CaKey)
  encode_ca t key der =
      let cert_pem = C.encode_pem "CERTIFICATE" der in
      let key_pem = C.encode_pem "RSA PRIVATE KEY" (C.marshal_ca_key key) in
      if is_nonempty cert_pem
      then if is_nonempty key_pem
        then ok (record { cert_pem = cert_pem; key_pem = key_pem; x509_cert = t; priv_key = key })
        else err (errorf "unable to encode CA private key" [])
      else err (errorf "unable to encode CA cert" [])

  -- The middle of `buildCACert`, once there is a key.
  sign_ca : Template → C.CaKey → C.State → Result (CaCert C.CaKey) × C.State
  unfolding encode_ca
  sign_ca t key s =
      let (der, u) = C.create_ca t key s in
      elim der [ err e ↦ (err (wrap "creating x509 cert" [] e), u) | ok b ↦ (encode_ca t key b, u) ]

  abbrev pub ca_template : ℕ → String → Template
  ca_template serial name = record {
    serial = serial;
    common_name = name;
    dns_names = [];
    is_ca = true;
    signs = true;
  }

  -- The start of `buildCACert`, once there is a serial number.
  key_ca : Template → C.State → Result (CaCert C.CaKey) × C.State
  unfolding sign_ca
  key_ca t s =
      let (key, u) = C.rsa_key s in
      elim key [ err e ↦ (err (wrap "generating CA private key" [] e), u) | ok k ↦ sign_ca t k u ]

  -- `buildCACert`
  unfoldable pub build_ca_cert : String → C.State → Result (CaCert C.CaKey) × C.State
  unfolding key_ca
  build_ca_cert name s =
      let (serial, u) = C.rand_int s in
      elim serial [
        | err e ↦ (err (wrap "getting random serial number" [] e), u)
        | ok n ↦ key_ca (ca_template n name) u
      ]

  abbrev pub template : ℕ → String → Template
  template serial name = record {
    serial = serial;
    common_name = name;
    dns_names = "nodeagent" ∷ [];
    is_ca = false;
    signs = false;
  }

  -- The end of `buildCert`; an encoding of the key that fails is not noticed.
  encode_cert : Template → C.Key → Bytes → Outcome Cert
  encode_cert t key der =
      if is_nonempty (C.encode_pem "CERTIFICATE" der)
      then elim (C.marshal_key key) [
        | err e ↦ fails (wrap "marshaling pkcs8" [] e)
        | ok b ↦ returns (record {
          x509_cert = t;
          cert_der = der;
          cert_pem = C.encode_pem "CERTIFICATE" der;
          key_pem = C.encode_pem "PRIVATE KEY" b;
        })
      ]
      else fails (errorf "unable to encode certificate to PEM" [])

  sign_cert : CaCert C.CaKey → Template → C.Key → C.State → Outcome Cert × C.State
  unfolding encode_cert
  sign_cert ca t key s =
      let (der, u) = C.create t ca.x509_cert key ca.priv_key s in
      elim der [ err e ↦ (fails (wrap "creating cert" [] e), u) | ok b ↦ (encode_cert t key b, u) ]

  -- The error of `ecdsa.GenerateKey` is overwritten, and the next line uses the key, then nil.
  key_cert : CaCert C.CaKey → Template → C.State → Outcome Cert × C.State
  unfolding sign_cert
  key_cert ca t s =
      let (key, u) = C.ecdsa_key s in
      elim key [ err e ↦ (nil_dereference, u) | ok k ↦ sign_cert ca t k u ]

  -- `buildCert`
  unfoldable pub build_cert : CaCert C.CaKey → String → C.State → Outcome Cert × C.State
  unfolding key_cert
  build_cert ca name s =
      let (serial, u) = C.rand_int s in
      elim serial [
        | err e ↦ (fails (wrap "getting random serial number" [] e), u)
        | ok n ↦ key_cert ca (template n name) u
      ]

  -- The rest of `GenerateCerts`, once there is a server's certificate.
  client_cert : CaCert C.CaKey → Cert → C.State → Outcome (Certs C.CaKey) × C.State
  unfolding build_cert
  client_cert ca server s =
      let (client, u) = build_cert ca "nodeagent" s in
      elim client [
        | returns c ↦ (returns (record { server = server; client = c; ca = ca }), u)
        | fails e ↦ (fails (wrap "building client cert" [] e), u)
        | nil_dereference ↦ (nil_dereference, u)
      ]

  server_cert : CaCert C.CaKey → C.State → Outcome (Certs C.CaKey) × C.State
  unfolding client_cert
  server_cert ca s =
      let (server, u) = build_cert ca "nodeagent" s in
      elim server [
        | returns c ↦ client_cert ca c u
        | fails e ↦ (fails (wrap "building server cert" [] e), u)
        | nil_dereference ↦ (nil_dereference, u)
      ]

  -- `GenerateCerts`
  unfoldable pub generate_certs : C.State → Outcome (Certs C.CaKey) × C.State
  unfolding build_ca_cert server_cert
  generate_certs s =
      let (ca, u) = build_ca_cert "ClustertestCA" s in
      elim ca [ err e ↦ (fails (wrap "building CA cert" [] e), u) | ok c ↦ server_cert c u ]
