-- ===== src/Agent/Store.antt =====
-- The files of a node over any sequence of `SendFile`, `ReadFile` and `Fetch` of agent/client.go,
-- against a map from paths to what is known of them.
pub mod Frames
pub mod Laws
use clustertest.Prelude.{
  ◌≡◌, false, List, [], ◌∷◌, Option, none, some, Error, Result, ok, err, wrap, if◌then◌else◌,
}
use clustertest.Process.Types.{Bytes}
use clustertest.Process.Writer.{Reader, contents}
use clustertest.Paths.{FilePath, path_eq}
use clustertest.Agent.Http.{Response, Body, bytes, Transport}
use clustertest.Agent.Files.{Os, Disk, Web, Download, FetchRequest}
use clustertest.Agent.Client
use clustertest.Agent.Client.{Link, url_path, send_file, read_file}

-- An operation on a file leaves the other files; no path is a link to another.
pub record Frame {O : Os} (D : Disk O) : Type 0 where
  pub file-mkdir_all : (p q : FilePath) (s : O.State) → D.file q (O.mkdir_all p s).1 ≡ D.file q s
  pub file-create_other :
      (p q : FilePath) (s : O.State) → path_eq p q ≡ false → D.file q (O.create p s).1 ≡ D.file q s
  pub file-append_other :
      (p q : FilePath) (b : Bytes) (s : O.State)
      → path_eq p q ≡ false
      → D.file q (O.append p b s).1 ≡ D.file q s

-- Where a node stands after some attempts of a request.
pub data Tried {N : Type 0} (h : N → Response × N) (s : N) : N → Type 0 where
  untried : Tried h s s
  again : {t : N} → Tried h s t → Tried h s (h t).1

-- The retrying client only makes attempts, also when it returns an error.
abbrev pub OnlyTries : {N : Type 0} → Transport N → Type 0
OnlyTries {N} T = (h : N → Response × N) (s : N) → Tried h s (T.exchange h s).1

-- The calls of a client, and what they return.
pub data Call : Type 0 where
  sends : FilePath → Reader → Call
  reads : FilePath → Call
  fetches : FetchRequest → Call

pub data Outcome : Type 0 where
  was_sent : Option Error → Outcome
  was_read : Result Body → Outcome

-- What is known of the files of a node: the content, or nothing.
abbrev pub Known : Type 0
Known = FilePath → Option Bytes

abbrev pub set : FilePath → Option Bytes → Known → Known
set p b m q = if path_eq p q then b else m q

-- `W` is the web that the node's requests go to.
module _ (O : Os) (L : Link O) (W : Web) where
  unfoldable pub call : Call → O.State → Outcome × O.State
  call (sends p body) s = let (e, t) = send_file O L p body s in (was_sent e, t)
  call (reads p) s = let (b, t) = read_file O L p s in (was_read b, t)
  call (fetches req) s = let (e, t) = Client.fetch O L W req s in (was_sent e, t)

  unfoldable pub run : List Call → O.State → List Outcome × O.State
  unfolding call
  run [] s = ([], s)
  run (c ∷ calls) s = let (o, t) = call c s in let (outcomes, u) = run calls t in (o ∷ outcomes, u)

  -- What is sent is known if the call returned no error; if it did, nothing is known of the file.
  abbrev pub sent_content : Reader → Option Error → Option Bytes
  sent_content body none = some (contents body.chunks)
  sent_content body (some e) = none

  -- What is fetched is the body of the web's answer, if the call returned no error.
  abbrev pub fetched_content : Result Download → Option Error → Option Bytes
  fetched_content (ok d) none = some (contents d.body.chunks)
  fetched_content (err x) none = none
  fetched_content r (some e) = none

  -- The path that the router passes to the handlers, if it has a route.
  abbrev pub set_at : Option FilePath → Option Bytes → Known → Known
  set_at none b m = m
  set_at (some p) b m = set p b m

  abbrev pub known_at : Option FilePath → Known → Option Bytes
  known_at none m = none
  known_at (some p) m = m p

  abbrev pub learn : Call → Outcome → Known → Known
  learn (sends p body) (was_sent e) m = set_at (L.param (url_path p)) (sent_content body e) m
  learn (sends p body) (was_read r) m = m
  learn (reads p) o m = m
  learn (fetches req) (was_sent e) m = set req.dest (fetched_content (W.get req.url) e) m
  learn (fetches req) (was_read r) m = m

  -- What a read returns where the request cannot be built, where the content of the file is known,
  -- and where it is not.
  abbrev pub IsReadOf : Option Error → Option Bytes → Result Body → Type 0
  IsReadOf (some e) known r = r ≡ err (wrap "building request" [] e)
  IsReadOf none (some b) r = r ≡ ok (bytes b)
  IsReadOf none none r = Unit

  abbrev pub Expected : Call → Outcome → Known → Type 0
  Expected (sends p body) (was_sent e) m = Unit
  Expected (sends p body) (was_read r) m = ⊥
  Expected (fetches req) (was_sent e) m = Unit
  Expected (fetches req) (was_read r) m = ⊥
  Expected (reads p) (was_sent e) m = ⊥
  Expected (reads p) (was_read r) m =
      IsReadOf (L.build (url_path p)) (known_at (L.param (url_path p)) m) r

  -- The specification: each read returns what the last `SendFile` or `Fetch` to the path stored, if
  -- that one returned no error.
  abbrev pub Replays : List Call → List Outcome → Known → Type 0
  Replays [] os m = Unit
  Replays (c ∷ cs) [] m = ⊥
  Replays (c ∷ cs) (o ∷ os) m = Expected c o m × Replays cs os (learn c o m)

  abbrev pub replay : List Call → List Outcome → Known → Known
  replay [] os m = m
  replay (c ∷ cs) [] m = m
  replay (c ∷ cs) (o ∷ os) m = replay cs os (learn c o m)
