-- ===== src/Kubo/OnAgent/Loading.antt =====
-- `LoadBinary` of examples/kubo/kubo.go on a Docker node and on an AWS node.
use clustertest.Prelude.{
  ℕ, ◌≡◌, refl, ap, sym, ◌∙◌, String, Option, none, some, Error, Result, ok, err, arith,
}
use clustertest.Process.Writer.{Reader, contents}
use clustertest.Paths.{FilePath}
use clustertest.Agent.Http.{IsHonest}
use clustertest.Agent.Files.{Os, Disk, Web, Download}
use clustertest.Agent.Client.{Link, url_path, send_file}
use clustertest.Agent.RoundTrip.{file-send_file, send_file_routed}
use clustertest.Agent.Fetching.{file-fetch}
use clustertest.Cluster.Nodes.{AgentClient, beside, node_fetch}
use clustertest.Kubo.Versions.{VersionInfo, VersionMap, lookup}
use clustertest.Kubo.Archive.{fetch_archive_with_caching}
use clustertest.Kubo.Node.{Host, sent, archive_path, tar, get_archive, load_binary, fetched_to}
use clustertest.Kubo.Node.Laws.{Succeeds, load_binary-Loaded, unpack_error, unpack-Succeeds}
use clustertest.Kubo.OnAgent.{docker_host, aws_host}

module _ (Own Remote : Os) (L : Link Remote) {Conn : Type 0}
    (C : AgentClient (Own.State × Remote.State) Conn) (show : FilePath → String)
    (stop : Own.State × Remote.State → Option Error × (Own.State × Remote.State)) (D : Disk Remote)
    (honest : IsHonest L.transport) (Releases : Web) (id : ℕ)
    (stat : FilePath → Own.State × Remote.State → Option Error) (temp : FilePath) where
  abbrev docker : Host (beside Own Remote.State)
  docker = docker_host Own Remote L C show stop id

  sent_file :
      (x : Result Reader × (Own.State × Remote.State))
      → (sent docker Releases stat temp x).0 ≡ none
      → (r : Reader) × (x.0 ≡ ok r)
        × (q : FilePath) × (L.param (url_path (archive_path docker Releases stat temp)) ≡ some q)
        × (D.file q (sent docker Releases stat temp x).1.1 ≡ some (contents r.chunks))
  sent_file (err e, s) h = absurd (ground arith)
  sent_file (ok r, s) h =
      let p = archive_path docker Releases stat temp in
      let e = ap (λ x. (x, (send_file Remote L p r s.1).1)) h in
      let (q, k) = send_file_routed Remote L p r s.1 _ honest e in
      (r, refl, q, k, file-send_file Remote D L p q r s.1 _ k honest e)

  -- What `LoadBinary` of a Docker node did if it returns no error: the whole archive that
  -- `FetchArchiveWithCaching` gave was the file under the path that the agent's router makes of
  -- the archive's, and then `tar` was started there and its `Wait` gave code 0.
  pub record Copied (m : VersionMap) (version : String) (s : Own.State × Remote.State)
      : Type 0 where
    pub archive : Reader
    pub path : FilePath
    pub before_tar : Own.State × Remote.State
    pub given :
        (fetch_archive_with_caching (beside Own Remote.State) Releases stat show temp m version s).0
        ≡ ok archive
    pub routed : L.param (url_path (archive_path docker Releases stat temp)) ≡ some path
    pub stored : D.file path before_tar.1 ≡ some (contents archive.chunks)
    pub unpacked : Succeeds (C.start_proc (tar docker) before_tar).0

  -- If `LoadBinary` of a Docker node returns no error then the whole archive that the cache gave
  -- was stored by the node's agent, and `tar` was then started and its `Wait` gave code 0, with an
  -- error or without.
  pub load_binary-Copied :
      (m : VersionMap) (version : String) (s : Own.State × Remote.State)
      → (load_binary docker Releases stat temp (ok m) version s).0 ≡ none
      → Copied m version s
  unfolding load_binary get_archive
  load_binary-Copied m version s h =
      let got = get_archive docker Releases stat temp m version s in
      let (archive, given, path, routed, file) =
        sent_file
          (fetch_archive_with_caching (beside Own Remote.State) Releases stat show temp m version s)
          (unpack_error docker Releases stat temp got h) in
      record {
        archive = archive;
        path = path;
        before_tar = got.1;
        given = given;
        routed = routed;
        stored = file;
        unpacked = unpack-Succeeds docker Releases stat temp got h;
      }

  module _ (W : Web) (region account instance_id : String) where
    abbrev aws : Host (beside Own Remote.State)
    aws = aws_host Own Remote L C show stop W region account instance_id

    -- What `LoadBinary` of an AWS node did if it returns no error: the body that the web answered
    -- the agent with, whatever its status, was the file in the node's root that `tar`
    -- was started on, and the `Wait` of it gave code 0.
    pub record Fetched (m : VersionMap) (version : String) (s : Own.State × Remote.State)
        : Type 0 where
      pub info : VersionInfo
      pub listed : lookup version m ≡ some info
      pub answer : Download
      pub answered : W.get info.url ≡ ok answer
      pub before_tar : Own.State × Remote.State
      pub stored :
          D.file (archive_path aws Releases stat temp) before_tar.1
          ≡ some (contents answer.body.chunks)
      pub unpacked : Succeeds (C.start_proc (tar aws) before_tar).0

    -- `LoadBinary` of a listed version gets the archive by the node's `Fetch`.
    get_archive_fetched :
        (m : VersionMap) (version : String) (info : VersionInfo) (s : Own.State × Remote.State)
        → lookup version m ≡ some info
        → get_archive aws Releases stat temp m version s
          ≡ node_fetch Own Remote L C W info.url (archive_path aws Releases stat temp) s
    unfolding get_archive
    get_archive_fetched m version info s h = rw (h, get_archive, fetched_to) refl

    -- If `LoadBinary` of an AWS node returns no error then the map lists the node's version, the
    -- web answered the agent, and the whole body of the answer was stored in the node's root, where
    -- `tar` was then started and its `Wait` gave code 0, with an error or without.
    pub load_binary-Fetched :
        (m : VersionMap) (version : String) (s : Own.State × Remote.State)
        → (load_binary aws Releases stat temp (ok m) version s).0 ≡ none
        → Fetched m version s
    unfolding load_binary
    load_binary-Fetched m version s h =
        let l = load_binary-Loaded aws Releases stat temp m version s h in
        let got = get_archive aws Releases stat temp m version s in
        let same = get_archive_fetched m version l.info s l.listed in
        let fine = ap (λ x. x.0) (sym same) ∙ unpack_error aws Releases stat temp got h in
        let (d, answered, file) =
          file-fetch Remote D L W honest
            (record { url = l.info.url; dest = archive_path aws Releases stat temp }) s.1 fine in
        record {
          info = l.info;
          listed = l.listed;
          answer = d;
          answered = answered;
          before_tar = got.1;
          stored = rw same file;
          unpacked = l.unpacked;
        }
