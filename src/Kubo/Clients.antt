-- ===== src/Kubo/Clients.antt =====
-- examples/kubo/kubo.go: the two RPC clients that a node keeps, and `AddrInfo`.
use clustertest.Prelude.{
  ◌≡◌, refl, ap, ◌∙◌, String, ◌<>◌, List, [], ◌∷◌, map, Option, none, some, Error, wrap, str,
  Result, ok, err, or_wrap, ◌>>=◌, arith, Result-cases, inl, inr,
}
use clustertest.Process.Writer.{Reader}
use clustertest.Kubo.Addrs.{Multiaddrs, ProtocolValue, value, not_found, other_error}
use clustertest.Kubo.Api.{Wires, api_addr, kept}

-- What `ID` of go-ipfs-api gives.
pub record IdOutput : Type 0 where
  pub id : String
  pub addresses : List String

-- The constructors of the clients of go-ipfs-http-client and go-ipfs-api, `ID`, and the parsers of
-- go-libp2p and go-multiaddr.
pub record Rpc (M : Multiaddrs) : Type 1 where
  pub HttpApi : Type 0
  pub Shell : Type 0
  pub PeerId : Type 0
  pub new_api : M.Addr → Result HttpApi
  pub new_shell : String → Shell
  pub fetch_id : Shell → Result IdOutput
  pub decode_peer : String → Result PeerId
  pub parse_addr : String → Result M.Addr
  pub protocol_not_found : Error

module _ {M : Multiaddrs} (P : Wires M) (R : Rpc M) where
  -- The part of `Node` that is kept between calls.
  pub record Kept : Type 0 where
    pub addr : Option M.Addr
    pub api_client : Option R.Shell
    pub http_client : Option R.HttpApi

  -- `peer.AddrInfo`
  pub record AddrInfo : Type 0 where
    pub id : R.PeerId
    pub addrs : List M.Addr

  -- The node's address after `APIAddr`.
  abbrev pub with_addr : Kept → Result M.Addr → Kept
  with_addr k a = record k { addr = kept P a }

  abbrev pub required_value : String → ProtocolValue → Result String
  required_value message (value v) = ok v
  required_value message not_found = err (wrap message [] R.protocol_not_found)
  required_value message (other_error e) = err (wrap message [] e)

  -- The address that the API client is made for.
  abbrev pub shell_addr : Result M.Addr → Result String
  shell_addr a = do
    addr ← or_wrap a "getting API address" []
    ip ← required_value "getting ipv4 address" (M.value_for_protocol addr P.ip4)
    port ← required_value "getting TCP port" (M.value_for_protocol addr P.tcp)
    ok (ip <> ":" <> port)

  abbrev pub keep_shell : Kept → Result String → Result R.Shell × Kept
  keep_shell k (err e) = (err e, k)
  keep_shell k (ok url) = (ok (R.new_shell url), record k { api_client = some (R.new_shell url) })

  abbrev pub shell_or : Option R.Shell → Result Reader → Kept → Result R.Shell × Kept
  shell_or (some c) file k = (ok c, k)
  shell_or none file k = let a = api_addr P k.addr file in keep_shell (with_addr k a) (shell_addr a)

  -- `RPCAPIClient`, with what `ReadFile` gives for the file "api".
  unfoldable pub rpc_api_client : Result Reader → Kept → Result R.Shell × Kept
  unfolding api_addr
  rpc_api_client file k = shell_or k.api_client file k

  abbrev pub keep_api : Kept → Result R.HttpApi → Result R.HttpApi × Kept
  keep_api k (err e) = (err e, k)
  keep_api k (ok c) = (ok c, record k { http_client = some c })

  -- `RPCHTTPClient`
  unfoldable pub rpc_http_client : Result Reader → Kept → Result R.HttpApi × Kept
  unfolding api_addr
  rpc_http_client file k = elim k.http_client [
    | some c ↦ (ok c, k)
    | none ↦
        let a = api_addr P k.addr file in
        keep_api (with_addr k a) (or_wrap a "getting API address" [] >>= R.new_api)
  ]

  -- The loop of `AddrInfo`.
  unfoldable pub decode_addrs : List String → Result (List M.Addr)
  decode_addrs [] = ok []
  decode_addrs (a ∷ texts) =
      let rest = decode_addrs texts in
      or_wrap (R.parse_addr a) "decoding multiaddr %q" (str a ∷ []) >>= λ ma.
      rest >>= λ l. ok (ma ∷ l)

  -- The part of `AddrInfo` after `RPCAPIClient`.
  unfoldable pub info_from : Result R.Shell → Result AddrInfo
  unfolding decode_addrs
  info_from client = do
    sh ← or_wrap client "building API client" []
    output ← or_wrap (R.fetch_id sh) "fetching id" []
    peer ← or_wrap (R.decode_peer output.id) "decoding peer ID" []
    addrs ← decode_addrs output.addresses
    ok (record { id = peer; addrs = addrs })

  -- `AddrInfo`
  unfoldable pub addr_info : Result Reader → Kept → Result AddrInfo × Kept
  unfolding rpc_api_client info_from
  addr_info file k = let (client, next) = rpc_api_client file k in (info_from client, next)

  keep_shell-kept :
      (k : Kept) (url : Result String) (c : R.Shell)
      → (keep_shell k url).0 ≡ ok c
      → (keep_shell k url).1.api_client ≡ some c
  keep_shell-kept k (ok url) c e = ground arith
  keep_shell-kept k (err x) c e = absurd (ground arith)

  shell_or-kept :
      (x : Option R.Shell) (file : Result Reader) (k : Kept) (c : R.Shell)
      → k.api_client ≡ x
      → (shell_or x file k).0 ≡ ok c
      → (shell_or x file k).1.api_client ≡ some c
  shell_or-kept (some d) file k c same e = same ∙ ground arith
  shell_or-kept none file k c same e =
      let a = api_addr P k.addr file in keep_shell-kept (with_addr k a) (shell_addr a) c e

  -- Once `RPCAPIClient` has returned a client, every later call returns the same client and changes
  -- nothing, whatever the file "api" holds by then.
  pub rpc_api_client-kept :
      (file later : Result Reader) (k : Kept) (c : R.Shell)
      → (rpc_api_client file k).0 ≡ ok c
      → rpc_api_client later (rpc_api_client file k).1 ≡ (ok c, (rpc_api_client file k).1)
  unfolding rpc_api_client
  rpc_api_client-kept file later k c e =
      let next = (rpc_api_client file k).1 in
      ap (λ x. shell_or x later next) (shell_or-kept k.api_client file k c refl e)

  -- The texts, all of them, parse to the addresses.
  pub Parses : List String → List M.Addr → Type 0
  Parses texts l = map R.parse_addr texts ≡ map (λ a. ok a) l

  decode_addrs_ok :
      (texts : List String) (l : List M.Addr) → decode_addrs texts ≡ ok l → Parses texts l
  unfolding decode_addrs Parses
  decode_addrs_ok [] l e = let same : l ≡ [] = ground arith in rw same refl
  decode_addrs_ok (a ∷ texts) l e =
      let (ma, rest, parsed, more, same) = decoded (R.parse_addr a) (decode_addrs texts) e in
      rw same (
        ap (λ r. r ∷ map R.parse_addr texts) parsed
        ∙ ap (λ t. ok ma ∷ t) (decode_addrs_ok texts rest more))
    where
      decoded :
          (r : Result M.Addr) (q : Result (List M.Addr))
          → (or_wrap r "decoding multiaddr %q" (str a ∷ []) >>= λ ma. q >>= λ l. ok (ma ∷ l)) ≡ ok l
          → (ma : M.Addr) × (rest : List M.Addr) × (r ≡ ok ma) × (q ≡ ok rest) × (l ≡ ma ∷ rest)
      decoded (ok ma) (ok rest) h = (ma, rest, refl, refl, ground arith)
      decoded (ok ma) (err x) h = absurd (ground arith)
      decoded (err x) q h = absurd (ground arith)

  info_from_ok :
      (client : Result R.Shell) (info : AddrInfo)
      → info_from client ≡ ok info
      → (sh : R.Shell) × (output : IdOutput) × (client ≡ ok sh)
        × (R.fetch_id sh ≡ ok output)
        × (R.decode_peer output.id ≡ ok info.id)
        × Parses output.addresses info.addrs
  unfolding info_from
  info_from_ok (err x) info e = absurd (ground arith)
  info_from_ok (ok sh) info e = elim (Result-cases (R.fetch_id sh)) [
    | inl (output, f) ↦ elim (Result-cases (R.decode_peer output.id)) [
      | inl (peer, d) ↦ elim (Result-cases (decode_addrs output.addresses)) [
        | inl (addrs, g) ↦
            let same : record { id = peer; addrs = addrs } ≡ info = ground arith in
            (
              sh,
              output,
              refl,
              f,
              d ∙ ap (λ x. ok x.id) same,
              decode_addrs_ok output.addresses info.addrs (g ∙ ap (λ x. ok x.addrs) same),
            )
        | inr (x, g) ↦ absurd (ground arith)
      ]
      | inr (x, d) ↦ absurd (ground arith)
    ]
    | inr (x, f) ↦ absurd (ground arith)
  ]

  -- If `AddrInfo` returns no error then the node keeps an API client, and the result has the peer and,
  -- in order, all the addresses that the client's `ID` gives, each of which parses.
  pub addr_info-Parses :
      (file : Result Reader) (k : Kept) (info : AddrInfo)
      → (addr_info file k).0 ≡ ok info
      → (sh : R.Shell) × (output : IdOutput) × ((addr_info file k).1.api_client ≡ some sh)
        × (R.fetch_id sh ≡ ok output)
        × (R.decode_peer output.id ≡ ok info.id)
        × Parses output.addresses info.addrs
  unfolding addr_info rpc_api_client
  addr_info-Parses file k info e =
      let (sh, output, client, fetched, peer, addrs) =
        info_from_ok (rpc_api_client file k).0 info e in
      (sh, output, shell_or-kept k.api_client file k sh refl client, fetched, peer, addrs)
