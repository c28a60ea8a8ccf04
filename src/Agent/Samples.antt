-- ===== src/Agent/Samples.antt =====
-- Test data of several modules: cryptography, its certificates and their TLS configurations, a parser
-- of flags, and a code of bytes as text.
use clustertest.Prelude.{
  true, false, ◌++◌, none, some, ◌≡◌, refl, ap, ◌∙◌, sym, ℕ, zero, suc, ◌+◌, String, ◌<>◌, List, [],
  ◌∷◌, ok, str_eq, eq_iff, if◌then◌else◌, Env, Bool-cases, inl, inr, arith,
}
use Prim.Native.Char.{Char, code, nul}
use text.Mathlib.TextLemmas.{append_cancel_left}
use clustertest.Process.Types.{Bytes}
use clustertest.Agent.Link.{Tls, TlsConfig}
use clustertest.Agent.App.{StringFlag, Parser, acts, ReadsFlags, given_args, given_or, flags}
use clustertest.Agent.Certs.{Crypto, Certs, template, ca_template}

-- Cryptography that succeeds; its state counts the random numbers.
abbrev pub clockwork : Crypto
clockwork = record {
  State = ℕ;
  CaKey = ℕ;
  Key = ℕ;
  rand_int = λ s. (ok s, s + 1);
  rsa_key = λ s. (ok s, s + 1);
  ecdsa_key = λ s. (ok s, s + 1);
  create_ca = λ t k s. (ok (k ∷ []), s + 1);
  create = λ t p k c s. (ok (k ∷ c ∷ []), s + 1);
  encode_pem = λ kind b. b;
  marshal_ca_key = λ k. k ∷ [];
  marshal_key = λ k. ok (k ∷ []);
}

abbrev pub some_certs : Certs ℕ
some_certs = record {
  server = record {
    x509_cert = template clockwork 3 "nodeagent";
    cert_der = 4 ∷ 1 ∷ [];
    cert_pem = 4 ∷ 1 ∷ [];
    key_pem = 4 ∷ [];
  };
  client = record {
    x509_cert = template clockwork 6 "nodeagent";
    cert_der = 7 ∷ 1 ∷ [];
    cert_pem = 7 ∷ 1 ∷ [];
    key_pem = 7 ∷ [];
  };
  ca = record {
    cert_pem = 1 ∷ [];
    key_pem = 1 ∷ [];
    x509_cert = ca_template clockwork 0 "ClustertestCA";
    priv_key = 1;
  };
}

abbrev pub arg_value : String → String → List String → String
arg_value default name [] = default
arg_value default name (f ∷ []) = default
arg_value default name (f ∷ v ∷ args) =
    let rest = arg_value default name args in if str_eq f ("--" <> name) then v else rest

abbrev pub default_of : String → List StringFlag → String
default_of name [] = ""
default_of name (f ∷ fs) =
    let rest = default_of name fs in if str_eq f.name name then f.value else rest

abbrev pub arguments : List String → List String
arguments [] = []
arguments (program ∷ args) = args

-- A parser that looks for each flag in the arguments.
abbrev pub parser : Parser
parser fs args = acts (λ name. arg_value (default_of name fs) name (arguments args))

dashed : (k name : String) → str_eq ("--" <> k) ("--" <> name) ≡ str_eq k name
dashed k name = elim (Bool-cases (str_eq k name)) [
  | inl h ↦ (eq_iff _ _).1 (ap (λ x. "--" <> x) ((eq_iff k name).0 h)) ∙ sym h
  | inr h ↦ elim (Bool-cases (str_eq ("--" <> k) ("--" <> name))) [
    | inr g ↦ g ∙ sym h
    | inl g ↦
        let same = (eq_iff k name).1 (append_cancel_left "--" k name ((eq_iff _ _).0 g)) in
        absurd (ground (arith, same, h))
  ]
]

arg_value-given_args :
    (default name : String) (given : Env)
    → arg_value default name (given_args given) ≡ given_or default name given
arg_value-given_args default name [] = refl
arg_value-given_args default name ((k, v) ∷ given) =
    rw (dashed k name) (rw (arg_value-given_args default name given) refl)

pub parser-ReadsFlags : ReadsFlags parser
parser-ReadsFlags program given known required = (
  λ name. arg_value (default_of name flags) name (given_args given),
  refl,
  (
    arg_value-given_args _ _ given,
    (
      arg_value-given_args _ _ given,
      (
        arg_value-given_args _ _ given,
        (
          arg_value-given_args _ _ given,
          (arg_value-given_args _ _ given, (arg_value-given_args _ _ given, tt)),
        ),
      ),
    ),
  ),
)

-- Bytes in unary, where the character 0 ends a number.
abbrev pub mark : Char
mark = "x"

abbrev pub unary : ℕ → String → String
unary zero rest = String.◌∷◌ nul rest
unary (suc n) rest = String.◌∷◌ mark (unary n rest)

abbrev pub encode : Bytes → String
encode [] = ""
encode (n ∷ b) = unary n (encode b)

abbrev pub counted : ℕ → Bytes → Bytes
counted zero b = 0 ∷ b
counted (suc c) [] = []
counted (suc c) (n ∷ b) = suc n ∷ b

abbrev pub decode : String → Bytes
decode String.[] = []
decode (String.◌∷◌ c s) = counted (code c) (decode s)

decode-unary : (n : ℕ) (s : String) → decode (unary n s) ≡ n ∷ decode s
decode-unary zero s = refl
decode-unary (suc n) s = ap (counted (code mark)) (decode-unary n s)

pub decode-encode : (b : Bytes) → decode (encode b) ≡ b
decode-encode [] = refl
decode-encode (n ∷ b) = decode-unary n (encode b) ∙ ap (λ l. n ∷ l) (decode-encode b)

abbrev pub pairs : Tls
pairs = record {
  Pool = Bytes;
  Pair = Bytes;
  append_certs = λ b. b;
  x509_key_pair = λ c k. ok (c ++ k);
}

abbrev pub client_config : TlsConfig Bytes Bytes
client_config = record {
  root_cas = some (1 ∷ []);
  client_cas = none;
  certificate = 7 ∷ 1 ∷ 7 ∷ [];
  requires_client_cert = false;
  only_version_13 = false;
}

abbrev pub server_config : TlsConfig Bytes Bytes
server_config = record {
  root_cas = none;
  client_cas = some (1 ∷ []);
  certificate = 4 ∷ 1 ∷ 4 ∷ [];
  requires_client_cert = true;
  only_version_13 = true;
}
