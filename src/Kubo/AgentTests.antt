-- ===== src/Kubo/AgentTests.antt =====
-- A Docker and an AWS node whose agents answer every request, and the theorems on Kubo there.
use clustertest.Prelude.{
  ◌≡◌, refl, ℤ, String, true, Option, none, some, Error, not_exist, Result, ok, err, [], ◌∷◌, arith,
}
use clustertest.Process.Types.{Bytes, CmdResult}
use clustertest.Process.Writer.{StartProcRequest}
use clustertest.Paths.{FilePath, at}
use clustertest.Agent.Http.{Transport, IsHonest, IsCalm}
use clustertest.Agent.Files.{Web, post_file, copy_to}
use clustertest.Agent.Files
use clustertest.Agent.Client.{Link, send_file, read_file, fetch}
use clustertest.Cluster.{run}
use clustertest.Cluster.Nodes.{AgentClient}
use clustertest.Kubo.Versions.{lookup}
use clustertest.Kubo.Node.{get_archive, load_binary}
use clustertest.Kubo.Config.{
  for_local, for_remote, read_config, configure_for_local, configure_for_remote,
}
use clustertest.Kubo.OnAgent.{agent_host, configured_twice_remotely}
use clustertest.Kubo.OnAgent.Loading.{Fetched, load_binary-Fetched}
use clustertest.Kubo.LocalTests.{
  config_os, config_disk, coder, coder-IsInverse, Cfg, same_config, releases, no_web,
}

abbrev direct : Transport Bytes
direct = record { exchange = λ h s. (ok (h s).0, (h s).1) }

direct-IsHonest : IsHonest direct
direct-IsHonest h s t r e = (s, ground arith)

direct-IsCalm : IsCalm direct
direct-IsCalm h s e = refl

abbrev link : Link config_os
link = record { transport = direct; build = λ p. none; param = λ p. some p; body_text = λ b. "" }

abbrev exec : StartProcRequest → Bytes × Bytes → Result CmdResult × (Bytes × Bytes)
exec q s = (ok (record { code = ℤ.pos 0; error = none }), s)

abbrev client : AgentClient (Bytes × Bytes) Bytes
client = record {
  start_proc = exec;
  dial_context = λ network addr s. (err not_exist, s);
  encode = λ b. [];
}

abbrev stop : Bytes × Bytes → Option Error × (Bytes × Bytes)
stop s = (none, s)

abbrev show : FilePath → String
show p = "path"

abbrev site : Web
site = record {
  new_request = λ u. none;
  get = λ u. ok (record { status = 404; body = record { chunks = (7 ∷ []) ∷ []; fault = none } });
}

configured_twice_remotely_example :
    let H = agent_host config_os config_os link client show stop true none "docker" in
    let t = (configure_for_remote H coder (configure_for_local H coder ([], 0 ∷ [])).1).1 in
    (c : Cfg) × ((read_config H coder ([], 0 ∷ [])).0 ≡ ok c)
    × ((read_config H coder t).0 ≡ ok (for_remote c))
unfolding configure_for_local configure_for_remote read_config send_file read_file post_file copy_to
    for_local for_remote same_config Files.read_file
configured_twice_remotely_example =
    configured_twice_remotely config_os config_os link client show stop config_disk true none
      "docker" coder ([], 0 ∷ []) direct-IsHonest direct-IsCalm coder-IsInverse refl refl

load_binary-Fetched_example :
    Fetched config_os config_os link client show stop config_disk direct-IsHonest no_web 0
      (λ p s. none)
      (at true ("tmp" ∷ []))
      site
      "us-east-1"
      "1"
      "i-1"
      releases
      "v0.17.0"
      ([], [])
unfolding load_binary get_archive lookup run fetch copy_to Files.fetch
load_binary-Fetched_example =
    load_binary-Fetched config_os config_os link client show stop config_disk direct-IsHonest no_web
      0 (λ p s. none) (at true ("tmp" ∷ [])) site "us-east-1" "1" "i-1" releases "v0.17.0" ([], [])
      refl
