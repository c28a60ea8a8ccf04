-- ===== src/Kubo/LocalTests.antt =====
-- A local Kubo node whose config file is a coded one and whose archive is cached, and the theorems there.
use clustertest.Prelude.{
  ◌∙◌, ◌≡◌, refl, ap, append-nil, ℤ, zero, suc, Bool, true, false, [], ◌∷◌, ◌++◌, none, some,
  not_exist, Result, ok, err, String, arith, if◌then◌else◌, Bool-cases, inl, inr, sym, ◌&&◌,
}
use clustertest.Process.Types.{Bytes}
use clustertest.Process.Writer.{contents}
use clustertest.Paths.{names_eq, names_eq→eq, bool_eq, bool_eq→eq, FilePath, at}
use clustertest.Agent.Files.{Web, Os, Disk, copy_to}
use clustertest.Cluster.Local.NodeFiles.{send_file}
use clustertest.Kubo.Config.{Config, Coder, IsInverse, for_local, for_remote}
use clustertest.Cluster.{run}
use clustertest.Kubo.Versions.{VersionMap, lookup}
use clustertest.Kubo.Archive.{fetch_archive_with_caching}
use clustertest.Kubo.Node.{load_binary, get_archive}
use clustertest.Kubo.OnLocal.{Installed, load_binary-Installed}

abbrev pub Cfg : Type 0
Cfg = Config Bool

abbrev pub base_config : Cfg
base_config = record {
  bootstrap = "b" ∷ [];
  swarm = [];
  api = [];
  gateway = [];
  disable_nat_port_map = false;
  mdns_enabled = true;
  rest = true;
}

-- A config as it is written, when it is one of the three that the example meets.
unfoldable pub same_config : Cfg → Cfg → Bool
unfolding names_eq bool_eq
same_config c d =
    names_eq c.bootstrap d.bootstrap
    && names_eq c.swarm d.swarm
    && names_eq c.api d.api
    && names_eq c.gateway d.gateway
    && bool_eq c.disable_nat_port_map d.disable_nat_port_map
    && bool_eq c.mdns_enabled d.mdns_enabled
    && bool_eq c.rest d.rest

and_true : (a b : Bool) → (a && b) ≡ true → (a ≡ true) × (b ≡ true)
and_true true b e = (refl, e)
and_true false b e = absurd (ground arith)

same_config_eq : (c d : Cfg) → same_config c d ≡ true → c ≡ d
unfolding same_config
same_config_eq c d e =
    let (e5, a6) = and_true _ (bool_eq c.rest d.rest) e in
    let (e4, a5) = and_true _ (bool_eq c.mdns_enabled d.mdns_enabled) e5 in
    let (e3, a4) = and_true _ (bool_eq c.disable_nat_port_map d.disable_nat_port_map) e4 in
    let (e2, a3) = and_true _ (names_eq c.gateway d.gateway) e3 in
    let (e1, a2) = and_true _ (names_eq c.api d.api) e2 in
    let (a0, a1) = and_true (names_eq c.bootstrap d.bootstrap) (names_eq c.swarm d.swarm) e1 in
    λ i. record {
      bootstrap = names_eq→eq c.bootstrap d.bootstrap a0 i;
      swarm = names_eq→eq c.swarm d.swarm a1 i;
      api = names_eq→eq c.api d.api a2 i;
      gateway = names_eq→eq c.gateway d.gateway a3 i;
      disable_nat_port_map = bool_eq→eq c.disable_nat_port_map d.disable_nat_port_map a4 i;
      mdns_enabled = bool_eq→eq c.mdns_enabled d.mdns_enabled a5 i;
      rest = bool_eq→eq c.rest d.rest a6 i;
    }

abbrev written : Cfg → Result Bytes
written c =
    if same_config c base_config
    then ok (0 ∷ [])
    else if same_config c (for_local base_config)
    then ok (1 ∷ [])
    else if same_config c (for_remote base_config)
    then ok (2 ∷ [])
    else err not_exist

abbrev decoded : Bytes → Result Cfg
decoded (zero ∷ []) = ok base_config
decoded (suc zero ∷ []) = ok (for_local base_config)
decoded (suc (suc n) ∷ []) = ok (for_remote base_config)
decoded b = err not_exist

abbrev pub coder : Coder Cfg
coder = record { decode = λ r. decoded (contents r.chunks); marshal = λ c. written c }

decoded_as :
    (c d : Cfg) (b k : Bytes) → same_config c d ≡ true → k ≡ b → decoded k ≡ ok d → decoded b ≡ ok c
decoded_as c d b k h same e = ap decoded (sym same) ∙ e ∙ ap ok (sym (same_config_eq c d h))

decoded_written : (c : Cfg) (b : Bytes) → written c ≡ ok b → decoded b ≡ ok c
decoded_written c b e = elim (Bool-cases (same_config c base_config)) [
  | inl h ↦ decoded_as c base_config b (0 ∷ []) h (ground (arith, rw h at e)) refl
  | inr n ↦ elim (Bool-cases (same_config c (for_local base_config))) [
    | inl h ↦
        decoded_as c (for_local base_config) b (1 ∷ []) h (ground (arith, rw (n, h) at e)) refl
    | inr o ↦ elim (Bool-cases (same_config c (for_remote base_config))) [
      | inl h ↦
          decoded_as c (for_remote base_config) b (2 ∷ []) h (ground (arith, rw (n, o, h) at e))
            refl
      | inr p ↦ absurd (ground (arith, rw (n, o, p) at e))
    ]
  ]
]

pub coder-IsInverse : IsInverse coder
coder-IsInverse c b r m h = ap decoded h ∙ decoded_written c b m

abbrev pub config_os : Os
config_os = record {
  State = Bytes;
  mkdir_all = λ p s. (none, s);
  create = λ p s. (none, []);
  append = λ p b s. (none, s ++ b);
  open_file = λ p s. ok (record { chunks = s ∷ []; fault = none });
}

pub held_by : (s b : Bytes) → some s ≡ some b → s ≡ b
held_by s b e = ground arith

abbrev pub config_disk : Disk config_os
config_disk = record {
  file = λ p s. some s;
  file-create = λ p s h. refl;
  file-append = λ p b c s e h. ap (λ x. some (x ++ c)) (held_by s b e);
  open_file-file =
      λ p b s e. (record { chunks = s ∷ []; fault = none }, refl, append-nil s ∙ held_by s b e);
}

abbrev home : FilePath
home = at true ("0" ∷ "tmp" ∷ [])

abbrev no_dial : String → String → Bytes → Result Bytes × Bytes
no_dial network addr s = (err not_exist, s)

-- The archive is in the cache, of which any path is the one file.
abbrev pub no_web : Web
no_web = record { new_request = λ u. none; get = λ u. err not_exist }

abbrev pub releases : VersionMap
releases = ("v0.17.0", record { url = "u"; cid = "c" }) ∷ []

load_binary-Installed_example :
    Installed config_os config_disk
      (λ p. "path")
      0
      home
      (λ q s. (ok (record { code = ℤ.pos 0; error = none }), s))
      no_dial
      no_web
      (λ p s. none)
      home
      releases
      "v0.17.0"
      (5 ∷ [])
unfolding load_binary get_archive lookup run fetch_archive_with_caching send_file copy_to
load_binary-Installed_example =
    load_binary-Installed config_os config_disk (λ p. "path") 0 home
      (λ q s. (ok (record { code = ℤ.pos 0; error = none }), s)) no_dial no_web (λ p s. none) home
      releases "v0.17.0" (5 ∷ []) refl
