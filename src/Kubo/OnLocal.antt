-- ===== src/Kubo/OnLocal.antt =====
-- A Kubo node over a node of the local cluster: examples/kubo/kubo.go on cluster/local/node.go.
use clustertest.Prelude.{
  Error, err, ℕ, refl, some, Option, String, ◌≡◌, true, none, Result, ok, arith,
}
use clustertest.Process.Types.{CmdResult}
use clustertest.Process.Writer.{StartProcRequest, Reader, contents}
use clustertest.Paths.{FilePath}
use clustertest.Agent.Files.{Os, Disk, Web}
use clustertest.Cluster.Local.NodeFiles.{file-send_file_local}
use clustertest.Cluster.Nodes.{local_node, local_node-KeepsFiles}
use clustertest.Kubo.Versions.{VersionMap}
use clustertest.Kubo.Archive.{fetch_archive_with_caching}
use clustertest.Kubo.Node.{Host, host_of, sent, archive_path, tar, get_archive, load_binary}
use clustertest.Kubo.Node.Laws.{Succeeds, unpack_error, unpack-Succeeds}
use clustertest.Kubo.Config.{
  Config, for_remote, Coder, IsInverse, read_config, configure_for_local, configure_for_remote,
  configured_twice,
}

module _ (O : Os) (D : Disk O) (show : FilePath → String) (id : ℕ) (dir : FilePath)
    (exec : StartProcRequest → O.State → Result CmdResult × O.State) {Conn : Type 0}
    (net_dial : String → String → O.State → Result Conn × O.State) where
  -- The local node as the node under a Kubo node.
  abbrev pub local_host : Host O
  local_host = host_of show true (local_node O show id dir exec net_dial)

  -- On a local node, when `ConfigureForLocal` and then `ConfigureForRemote` return no error, the
  -- config file was readable, and is then what `ConfigureForRemote` alone makes of it.
  pub configure_for_remote-configure_for_local :
      {Rest : Type 0} (J : Coder (Config Rest)) (s : O.State)
      → IsInverse J
      → (configure_for_local local_host J s).0 ≡ none
      → (configure_for_remote local_host J (configure_for_local local_host J s).1).0 ≡ none
      → let t = (configure_for_remote local_host J (configure_for_local local_host J s).1).1 in
        (c : Config Rest) × ((read_config local_host J s).0 ≡ ok c)
        × ((read_config local_host J t).0 ≡ ok (for_remote c))
  configure_for_remote-configure_for_local J s inverse first second =
      configured_twice local_host J s (local_node-KeepsFiles O D show id dir exec net_dial) inverse
        first second

  module _ (W : Web) (stat : FilePath → O.State → Option Error) (temp : FilePath) where
    sent-file :
        (x : Result Reader × O.State)
        → (sent local_host W stat temp x).0 ≡ none
        → (r : Reader) × (x.0 ≡ ok r)
          × (D.file (archive_path local_host W stat temp) (sent local_host W stat temp x).1
              ≡ some (contents r.chunks))
    sent-file (err e, s) h = absurd (ground arith)
    sent-file (ok r, s) h =
        (r, refl, file-send_file_local O show D (archive_path local_host W stat temp) r s h)

    -- What `LoadBinary` of a local node did if it returns no error: the whole archive that
    -- `FetchArchiveWithCaching` gave was the file in the node's directory that `tar` then unpacked.
    pub record Installed (m : VersionMap) (version : String) (s : O.State) : Type 0 where
      pub archive : Reader
      pub before_tar : O.State
      pub given : (fetch_archive_with_caching O W stat show temp m version s).0 ≡ ok archive
      pub stored :
          D.file (archive_path local_host W stat temp) before_tar ≡ some (contents archive.chunks)
      pub unpacked : Succeeds (exec (tar local_host) before_tar).0

    -- If `LoadBinary` of a local node returns no error then the whole archive that the cache gave was
    -- stored in the node's directory, where `tar` then started and exited with code 0.
    pub load_binary-Installed :
        (m : VersionMap) (version : String) (s : O.State)
        → (load_binary local_host W stat temp (ok m) version s).0 ≡ none
        → Installed m version s
    unfolding load_binary get_archive
    load_binary-Installed m version s h =
        let got = get_archive local_host W stat temp m version s in
        let (archive, given, file) =
          sent-file (fetch_archive_with_caching O W stat show temp m version s)
            (unpack_error local_host W stat temp got h) in
        record {
          archive = archive;
          before_tar = got.1;
          given = given;
          stored = file;
          unpacked = unpack-Succeeds local_host W stat temp got h;
        }
