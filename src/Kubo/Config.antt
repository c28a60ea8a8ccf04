-- ===== src/Kubo/Config.antt =====
-- examples/kubo/kubo.go: the node's config file, which is read, changed and written back.
use clustertest.Prelude.{
  ◌>>=◌, append-nil, ◌≡◌, refl, ap, sym, ◌∙◌, String, Bool, true, false, List, [], ◌∷◌, Option,
  none, some, Error, Result, ok, err, arith, Result-cases, inl, inr,
}
use clustertest.Process.Types.{Bytes}
use clustertest.Process.Writer.{Reader, contents}
use clustertest.Paths.{FilePath, join}
use clustertest.Agent.Files.{Os}
use clustertest.Cluster.Nodes.{IsKept}
use clustertest.Kubo.Node.{Host, ipfs_path}

-- The part of go-ipfs's `config.Config` that the program changes, and the rest of it.
pub record Config (Rest : Type 0) : Type 0 where
  pub bootstrap : List String
  pub swarm : List String
  pub api : List String
  pub gateway : List String
  pub disable_nat_port_map : Bool
  pub mdns_enabled : Bool
  pub rest : Rest

-- The function that `ConfigureForLocal` gives to `UpdateConfig`, and that of `ConfigureForRemote`.
unfoldable pub for_local : {Rest : Type 0} → Config Rest → Config Rest
for_local c = record c {
  bootstrap = [];
  swarm = "/ip4/127.0.0.1/tcp/0" ∷ [];
  api = "/ip4/127.0.0.1/tcp/0" ∷ [];
  gateway = "/ip4/127.0.0.1/tcp/0" ∷ [];
  disable_nat_port_map = true;
  mdns_enabled = false;
}

unfoldable pub for_remote : {Rest : Type 0} → Config Rest → Config Rest
for_remote c = record c {
  bootstrap = [];
  swarm = "/ip4/0.0.0.0/tcp/0" ∷ [];
  api = "/ip4/127.0.0.1/tcp/0" ∷ [];
  gateway = "/ip4/127.0.0.1/tcp/0" ∷ [];
  disable_nat_port_map = true;
  mdns_enabled = false;
}

-- A second configuration leaves nothing of the first.
for_remote-for_local : {Rest : Type 0} (c : Config Rest) → for_remote (for_local c) ≡ for_remote c
unfolding for_local for_remote
for_remote-for_local c = refl

-- The decoder of encoding/json, and `config.Marshal`.
pub record Coder (C : Type 0) : Type 0 where
  pub decode : Reader → Result C
  pub marshal : C → Result Bytes

-- What is marshalled is decoded from any reader that gives all of it.
abbrev pub IsInverse : {C : Type 0} → Coder C → Type 0
IsInverse {C} J =
    (c : C) (b : Bytes) (r : Reader)
    → J.marshal c ≡ ok b
    → contents r.chunks ≡ b
    → J.decode r ≡ ok c

-- A node that keeps its files.
abbrev HostKeeps : {O : Os} → Host O → Type 0
HostKeeps H = IsKept H.send_file H.read_file

module _ {O : Os} (H : Host O) {C : Type 0} (J : Coder C) where
  abbrev config_path : FilePath
  config_path = join (ipfs_path H) "config"

  abbrev bytes_reader : Bytes → Reader
  bytes_reader b = record { chunks = b ∷ []; fault = none }

  -- `ReadConfig`
  unfoldable pub read_config : O.State → Result C × O.State
  read_config s = let (rc, t) = H.read_file config_path s in (rc >>= λ r. J.decode r, t)

  -- `WriteConfig`
  unfoldable pub write_config : C → O.State → Option Error × O.State
  write_config c s = elim (J.marshal c) [
    | err e ↦ (some e, s)
    | ok b ↦ H.send_file config_path (bytes_reader b) s
  ]

  -- `UpdateConfig`
  unfoldable pub update_config : (C → C) → O.State → Option Error × O.State
  unfolding read_config write_config
  update_config f s =
      let (read, t) = read_config s in
      elim read [ err e ↦ (some e, t) | ok c ↦ write_config (f c) t ]

  write_config_ok :
      (c : C) (s : O.State)
      → (write_config c s).0 ≡ none
      → (b : Bytes) × (J.marshal c ≡ ok b)
        × (write_config c s ≡ H.send_file config_path (bytes_reader b) s)
  unfolding write_config
  write_config_ok c s h = elim (Result-cases (J.marshal c)) [
    | inl (b, e) ↦ (b, e, rw (e, write_config) refl)
    | inr (x, e) ↦ absurd (ground (arith, rw (e, write_config) at h))
  ]

  update_config_ok :
      (f : C → C) (s : O.State)
      → (update_config f s).0 ≡ none
      → (c : C) × ((read_config s).0 ≡ ok c)
        × (update_config f s ≡ write_config (f c) (read_config s).1)
  unfolding update_config
  update_config_ok f s h = elim (Result-cases (read_config s).0) [
    | inl (c, e) ↦ (c, e, rw (e, update_config) refl)
    | inr (x, e) ↦ absurd (ground (arith, rw (e, update_config) at h))
  ]

  module _ (keeps : HostKeeps H) (inverse : IsInverse J) where
    read_config-write_config :
        (c : C) (s : O.State)
        → (write_config c s).0 ≡ none
        → (read_config (write_config c s).1).0 ≡ ok c
    unfolding read_config
    read_config-write_config c s h =
        let (b, marshalled, same) = write_config_ok c s h in
        let (r, opened, whole) = keeps config_path (bytes_reader b) s (rw same at h) in
        rw same (rw (opened, read_config) (inverse c b r marshalled (whole ∙ append-nil b)))

    -- If `UpdateConfig` of a node that keeps its files returns no error then `ReadConfig` had given a
    -- config and gives then what the function makes of it.
    read_config-update_config :
        (f : C → C) (s : O.State)
        → (update_config f s).0 ≡ none
        → (c : C) × ((read_config s).0 ≡ ok c) × ((read_config (update_config f s).1).0 ≡ ok (f c))
    read_config-update_config f s h =
        let (c, before, same) = update_config_ok f s h in
        (c, before, rw same (read_config-write_config (f c) (read_config s).1 (rw same at h)))

-- `ConfigureForLocal` and `ConfigureForRemote`
module _ {O : Os} (H : Host O) {Rest : Type 0} (J : Coder (Config Rest)) where
  unfoldable pub configure_for_local : O.State → Option Error × O.State
  unfolding update_config for_local
  configure_for_local = update_config H J for_local

  unfoldable pub configure_for_remote : O.State → Option Error × O.State
  unfolding update_config for_remote
  configure_for_remote = update_config H J for_remote

  -- When `ConfigureForLocal` and then `ConfigureForRemote` of a node that keeps its files return no
  -- error, the config file was readable, and is then what `ConfigureForRemote` alone makes of it.
  pub configured_twice :
      (s : O.State)
      → HostKeeps H
      → IsInverse J
      → (configure_for_local s).0 ≡ none
      → (configure_for_remote (configure_for_local s).1).0 ≡ none
      → let t = (configure_for_remote (configure_for_local s).1).1 in
        (c : Config Rest) × ((read_config H J s).0 ≡ ok c)
        × ((read_config H J t).0 ≡ ok (for_remote c))
  unfolding configure_for_local configure_for_remote
  configured_twice s keeps inverse first second =
      let (c, before, between) = read_config-update_config H J keeps inverse for_local s first in
      let (d, again, after) = read_config-update_config H J keeps inverse for_remote _ second in
      let same : for_local c ≡ d = ground (arith, between, again) in
      (c, before, after ∙ ap (λ x. ok (for_remote x)) (sym same) ∙ ap ok (for_remote-for_local c))
