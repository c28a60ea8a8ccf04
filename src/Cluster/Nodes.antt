-- ===== src/Cluster/Nodes.antt =====
-- cluster/node.go: the interface that a node implements; and cluster/local/node.go,
-- cluster/docker/node.go and cluster/aws/node.go, which implement it.
use clustertest.Prelude.{
  ◌≡◌, ap, append-nil, ℕ, String, ◌<>◌, itoa, [], ◌∷◌, Option, none, some, Error, Result, ok, err,
}
use clustertest.Process.Types.{Bytes, CmdResult}
use clustertest.Process.Writer.{Reader, StartProcRequest, contents}
use clustertest.Paths.{FilePath}
use clustertest.Agent.Http.{Body, bytes, error_text, text, IsHonest, IsCalm}
use clustertest.Agent.Files.{Os, Disk, Web}
use clustertest.Agent.Client.{Link, send_file, read_file, fetch}
use clustertest.Agent.RoundTrip.{read_file-send_file}
use clustertest.Cluster.Local.NodeFiles.{read_file-send_file_local}
use clustertest.Cluster.Local.NodeFiles

-- `cluster.Node`, with the optional methods `RootDir` and `Fetch`. The world is that of the program
-- that uses the node; `start_proc` is `StartProc` with what `Wait` returns.
pub record Node (World Conn : Type 0) : Type 0 where
  pub start_proc : StartProcRequest → World → Result CmdResult × World
  pub send_file : FilePath → Reader → World → Option Error × World
  pub read_file : FilePath → World → Result Reader × World
  pub stop : World → Option Error × World
  pub dial : String → String → World → Result Conn × World
  pub string : String
  pub root_dir : Option FilePath
  pub fetch : Option (String → FilePath → World → Option Error × World)

-- What a caller may rely on: what was sent with no error can be read.
abbrev pub IsKept :
    {World : Type 0}
    → (FilePath → Reader → World → Option Error × World)
    → (FilePath → World → Result Reader × World)
    → Type 0
IsKept {World} send read =
    (p : FilePath) (body : Reader) (s : World)
    → (send p body s).0 ≡ none
    → (r : Reader) × ((read p (send p body s).1).0 ≡ ok r)
      × (contents r.chunks ≡ contents body.chunks)

abbrev pub KeepsFiles : {World Conn : Type 0} → Node World Conn → Type 0
KeepsFiles n = IsKept n.send_file n.read_file

-- The files of the program's own host, beside the state of a node.
abbrev pub beside : Os → Type 0 → Os
beside O N = record {
  State = O.State × N;
  mkdir_all = λ p s. let (e, t) = O.mkdir_all p s.0 in (e, (t, s.1));
  create = λ p s. let (e, t) = O.create p s.0 in (e, (t, s.1));
  append = λ p b s. let (e, t) = O.append p b s.0 in (e, (t, s.1));
  open_file = λ p s. O.open_file p s.0;
}

module _ {Conn : Type 0} where
  -- A local node, with os/exec and `net.Dial`.
  abbrev pub local_node :
      (O : Os) (show : FilePath → String) (id : ℕ) (dir : FilePath)
      (exec : StartProcRequest → O.State → Result CmdResult × O.State)
      (net_dial : String → String → O.State → Result Conn × O.State)
      → Node O.State Conn
  local_node O show id dir exec net_dial = record {
    start_proc = exec;
    send_file = NodeFiles.send_file O show;
    read_file = λ p s. (NodeFiles.read_file O show p s, s);
    stop = λ s. (none, s);
    dial = net_dial;
    string = "local node id=" <> itoa id;
    root_dir = some dir;
    fetch = none;
  }

  pub local_node-KeepsFiles :
      (O : Os) (D : Disk O) (show : FilePath → String) (id : ℕ) (dir : FilePath)
      (exec : StartProcRequest → O.State → Result CmdResult × O.State)
      (net_dial : String → String → O.State → Result Conn × O.State)
      → KeepsFiles (local_node O show id dir exec net_dial)
  local_node-KeepsFiles O D show id dir exec net_dial = read_file-send_file_local O show D

-- What the client of a node's agent does beside the files: `StartProc` with what `Wait` returns,
-- `DialContext`, and the reader of a body that is no data.
pub record AgentClient (World Conn : Type 0) : Type 0 where
  pub start_proc : StartProcRequest → World → Result CmdResult × World
  pub dial_context : String → String → World → Result Conn × World
  pub encode : Body → Bytes

module _ (Own Remote : Os) (L : Link Remote) {Conn : Type 0}
    (C : AgentClient (Own.State × Remote.State) Conn) where
  abbrev pub World : Type 0
  World = Own.State × Remote.State

  abbrev body_bytes : Body → Bytes
  body_bytes (bytes b) = b
  body_bytes (error_text e) = C.encode (error_text e)
  body_bytes (text t) = C.encode (text t)

  abbrev body_reader : Result Body → Result Reader
  body_reader (err e) = err e
  body_reader (ok b) = ok (record { chunks = body_bytes b ∷ []; fault = none })

  abbrev node_send_file : FilePath → Reader → World → Option Error × World
  node_send_file p body s = let (e, t) = send_file Remote L p body s.1 in (e, (s.0, t))

  abbrev node_read_file : FilePath → World → Result Reader × World
  node_read_file p s = let (b, t) = read_file Remote L p s.1 in (body_reader b, (s.0, t))

  -- `Fetch` of an AWS node, whose agent asks `W`.
  abbrev pub node_fetch : Web → String → FilePath → World → Option Error × World
  node_fetch W url path s =
      let (e, t) = fetch Remote L W (record { url = url; dest = path }) s.1 in (e, (s.0, t))

  abbrev fetch_of : Option Web → Option (String → FilePath → World → Option Error × World)
  fetch_of none = none
  fetch_of (some W) = some (node_fetch W)

  -- A node that passes the calls on to its agent's client; it has a `Fetch` if its agent asks a web.
  abbrev pub agent_node : Option Web → (World → Option Error × World) → String → Node World Conn
  agent_node W stop string = record {
    start_proc = C.start_proc;
    send_file = node_send_file;
    read_file = node_read_file;
    stop = stop;
    dial = C.dial_context;
    string = string;
    root_dir = none;
    fetch = fetch_of W;
  }

  -- A Docker node, with its `Stop`. Its text is that of a local one.
  abbrev pub docker_node : ℕ → (World → Option Error × World) → Node World Conn
  docker_node id stop = agent_node none stop ("local node id=" <> itoa id)

  -- An AWS node, with its `Stop`, its region, its account and its instance.
  abbrev pub aws_node :
      Web → (World → Option Error × World) → String → String → String → Node World Conn
  aws_node W stop region account instance_id =
      agent_node (some W) stop (
        "EC2 instance region=" <> region <> " account=" <> account <> " instanceID=" <> instance_id)

  module _ (D : Disk Remote) (honest : IsHonest L.transport) (calm : IsCalm L.transport) where
    sent_whole :
        (p : FilePath) (body : Reader) (s : World)
        → (send_file Remote L p body s.1).0 ≡ none
        → read_file Remote L p (send_file Remote L p body s.1).1
          ≡ (ok (bytes (contents body.chunks)), (send_file Remote L p body s.1).1)
    sent_whole p body s e =
        read_file-send_file Remote D L p body s.1 _ honest calm
          (ap (λ x. (x, (send_file Remote L p body s.1).1)) e)

    -- Over an honest network that fails no request, a node with an agent keeps its files.
    pub agent_node-KeepsFiles :
        (W : Option Web) (stop : World → Option Error × World) (string : String)
        → KeepsFiles (agent_node W stop string)
    agent_node-KeepsFiles W stop string p body s e = (
      record { chunks = contents body.chunks ∷ []; fault = none },
      ap (λ x. body_reader x.0) (sent_whole p body s e),
      append-nil (contents body.chunks),
    )
