-- ===== src/Kubo/Node.antt =====
-- examples/kubo/kubo.go: `Node`, the commands that it runs and how it gets Kubo's archive.
pub mod Laws
use clustertest.Prelude.{
  ◌≡◌, ℤ, is_zero, String, ◌<>◌, Bool, true, false, List, [], ◌∷◌, ◌++◌, Option, none, some, Error,
  errorf, wrap, str, int, Result, ok, err, if◌then◌else◌,
}
use clustertest.Process.Types.{CmdResult}
use clustertest.Process.Writer.{Reader, StartProcRequest}
use clustertest.Cluster.{run, root_dir}
use clustertest.Cluster.Nodes.{Node}
use clustertest.Paths.{FilePath, join}
use clustertest.Agent.Files.{Os, Web}
use clustertest.Kubo.Versions.{VersionMap, Dist, lookup, fetch_versions}
use clustertest.Kubo.Archive.{required, fetch_archive, fetch_archive_with_caching}

-- The node under a Kubo node, in the world of the program that uses it, whose files are those of `O`.
-- `exec` is `StartProc` with what `Wait` returns; `caches` tells whether the node is a local or a
-- Docker one, and `fetcher` is its `Fetch` if it has one.
pub record Host (O : Os) : Type 0 where
  pub root_dir : FilePath
  pub show : FilePath → String
  pub exec : StartProcRequest → O.State → Result CmdResult × O.State
  pub send_file : FilePath → Reader → O.State → Option Error × O.State
  pub read_file : FilePath → O.State → Result Reader × O.State
  pub caches : Bool
  pub fetcher : Option (String → FilePath → O.State → Option Error × O.State)

-- A node of a cluster as the node under a Kubo node; without a `RootDir` its root is "/".
abbrev pub host_of :
    {O : Os} {Conn : Type 0} → (FilePath → String) → Bool → Node O.State Conn → Host O
host_of show caches n = record {
  root_dir = root_dir n.root_dir;
  show = show;
  exec = n.start_proc;
  send_file = n.send_file;
  read_file = n.read_file;
  caches = caches;
  fetcher = n.fetch;
}

-- What `err != nil` and `code != 0` make of the outcome of `Run`.
abbrev pub failed : String → ℤ × Option Error → Option Error
failed message (code, some e) = some e
failed message (code, none) = if is_zero code then none else some (errorf message (int code ∷ []))

abbrev pub wrapped : String → Option Error → Option Error
wrapped message none = none
wrapped message (some e) = some (wrap message [] e)

module _ {O : Os} (H : Host O) where
  -- `IPFSPath`
  abbrev pub ipfs_path : FilePath
  ipfs_path = join H.root_dir ".ipfs"

  -- `filepath.Join(n.RootDir(), "kubo", "ipfs")`
  abbrev pub ipfs_binary : String
  ipfs_binary = H.show (join (join H.root_dir "kubo") "ipfs")

  -- The request of `RunKubo`.
  abbrev pub kubo_request : StartProcRequest → StartProcRequest
  kubo_request req = record req {
    env = req.env ++ (("IPFS_PATH=" <> H.show ipfs_path) ∷ []);
    command = ipfs_binary;
  }

  -- `RunKubo`
  unfoldable pub run_kubo : StartProcRequest → O.State → Option Error × O.State
  unfolding run
  run_kubo req s =
      let (p, t) = H.exec (kubo_request req) s in
      (failed "kubo had non-zero exit code %d" (run p), t)

  abbrev pub with_args : List String → StartProcRequest
  with_args l = record { command = ""; args = l; env = []; wd = ""; stdin = none }

  -- `Init`
  unfoldable pub init : O.State → Option Error × O.State
  unfolding run_kubo
  init s = let (e, t) = run_kubo (with_args ("init" ∷ [])) s in (wrapped "initializing Kubo" e, t)

  -- `SetConfig`, with the pairs in the order in which the map is ranged over.
  unfoldable pub set_config : List (String × String) → O.State → Option Error × O.State
  unfolding run_kubo
  set_config [] s = (none, s)
  set_config ((k, v) ∷ cfg) s =
      let (e, t) = run_kubo (with_args ("config" ∷ "--json" ∷ k ∷ v ∷ [])) s in
      let rest = set_config cfg t in
      elim e [
        | none ↦ rest
        | some x ↦ (some (wrap "setting config %q when initializing" (str k ∷ []) x), t)
      ]

  abbrev pub daemon_error : CmdResult → Option Error
  daemon_error r = failed "non-zero daemon exit code %d" (r.code, r.error)

  -- `RunDaemon`
  unfoldable pub run_daemon : O.State → Option Error × O.State
  run_daemon s =
      let (p, t) =
        H.exec
          (record {
            command = ipfs_binary;
            args = "daemon" ∷ [];
            env = ("IPFS_PATH=" <> H.show ipfs_path) ∷ [];
            wd = "";
            stdin = none;
          })
          s in
      (elim p [ err e ↦ some e | ok r ↦ daemon_error r ], t)

  -- The command that unpacks the archive.
  abbrev pub tar : StartProcRequest
  tar = record {
    command = "tar";
    args = "xzf" ∷ "kubo.tar.gz" ∷ [];
    env = [];
    wd = H.show H.root_dir;
    stdin = none;
  }

  -- `getOrFetchVersions`: what the node has then, and its outcome.
  unfoldable pub get_or_fetch_versions :
      Dist → (List String → List String) → Option VersionMap → Result VersionMap
  unfolding fetch_versions
  get_or_fetch_versions D schedule (some m) = ok m
  get_or_fetch_versions D schedule none = elim (fetch_versions D schedule) [
    | err e ↦ err (wrap "fetching versions" [] e)
    | ok m ↦ ok m
  ]

  -- What the program has besides the node: the web, `os.Stat`, the directory of temporary files.
  module _ (W : Web) (stat : FilePath → O.State → Option Error) (temp : FilePath) where
    abbrev pub archive_path : FilePath
    archive_path = join H.root_dir "kubo.tar.gz"

    abbrev pub sent : Result Reader × O.State → Option Error × O.State
    sent (err e, s) = (some e, s)
    sent (ok body, s) = H.send_file archive_path body s

    abbrev pub fetched_to :
        (String → FilePath → O.State → Option Error × O.State)
        → VersionMap
        → String
        → O.State
        → Option Error × O.State
    fetched_to fetch m version s = elim (required version (lookup version m)) [
      | err e ↦ (some e, s)
      | ok info ↦ fetch info.url archive_path s
    ]

    abbrev pub without_fetcher : Result Reader → O.State → Option Error × O.State
    without_fetcher (err e) s = (some e, s)
    without_fetcher (ok body) s = (none, s)

    -- The part of `LoadBinary` that gets the archive; its last branch gives the archive to nobody.
    unfoldable pub get_archive : VersionMap → String → O.State → Option Error × O.State
    unfolding fetch_archive fetch_archive_with_caching lookup
    get_archive m version s =
        if H.caches
        then sent (fetch_archive_with_caching O W stat H.show temp m version s)
        else elim H.fetcher [
          | some fetch ↦ fetched_to fetch m version s
          | none ↦ without_fetcher (fetch_archive W m version) s
        ]

    abbrev pub unpack : Option Error × O.State → Option Error × O.State
    unpack (some e, s) = (some e, s)
    unpack (none, s) =
        let (p, t) = H.exec tar s in (failed "non-zero exit code %d when unarchiving" (run p), t)

    -- `LoadBinary`, with what `getOrFetchVersions` gives.
    unfoldable pub load_binary : Result VersionMap → String → O.State → Option Error × O.State
    unfolding get_archive run
    load_binary (err e) version s = (some (wrap "fetching versions" [] e), s)
    load_binary (ok m) version s = unpack (get_archive m version s)
