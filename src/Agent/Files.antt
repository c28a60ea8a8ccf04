-- ===== src/Agent/Files.antt =====
-- agent/agent.go: `postFile`, `readFile` and `fetch`, the handlers that use the node's files.
use clustertest.Prelude.{
  ◌≡◌, ℕ, String, List, [], ◌∷◌, ◌++◌, Option, none, some, Error, not_exist, Result, ok, err,
}
use clustertest.Process.Types.{Bytes}
use clustertest.Process.Writer.{Reader, contents}
use clustertest.Paths.{FilePath, dir}
use clustertest.Agent.Http.{Response, http_error, bytes, text}

-- The files of a node, and the requests that it makes itself.
pub record Os : Type 1 where
  pub State : Type 0
  pub mkdir_all : FilePath → State → Option Error × State
  pub create : FilePath → State → Option Error × State
  pub append : FilePath → Bytes → State → Option Error × State
  pub open_file : FilePath → State → Result Reader

-- What a file holds that can be opened.
pub record Disk (O : Os) : Type 0 where
  pub file : FilePath → O.State → Option Bytes
  pub file-create :
      (p : FilePath) (s : O.State) → (O.create p s).0 ≡ none → file p (O.create p s).1 ≡ some []
  pub file-append :
      (p : FilePath) (b c : Bytes) (s : O.State)
      → file p s ≡ some b
      → (O.append p c s).0 ≡ none
      → file p (O.append p c s).1 ≡ some (b ++ c)
  pub open_file-file :
      (p : FilePath) (b : Bytes) (s : O.State)
      → file p s ≡ some b
      → (r : Reader) × (O.open_file p s ≡ ok r) × (contents r.chunks ≡ b)

-- `os.IsNotExist`: it looks at the error itself and unwraps none.
abbrev pub is_not_exist : Error → Response → Response → Response
is_not_exist not_exist r s = r
is_not_exist _ r s = s

abbrev pub success : Response
success = record { status = 200; body = bytes [] }

module _ (O : Os) where
  -- `io.Copy` into the created file.
  unfoldable pub copy_to : FilePath → List Bytes → Option Error → O.State → Option Error × O.State
  copy_to p [] fault s = (fault, s)
  copy_to p (b ∷ bs) fault s =
      let rest = copy_to p bs fault (O.append p b s).1 in
      elim (O.append p b s).0 [ some e ↦ (some e, (O.append p b s).1) | none ↦ rest ]

  -- The response to the outcome of a copy.
  unfoldable pub respond : Option Error × O.State → Response × O.State
  respond (none, s) = (success, s)
  respond (some e, s) = (http_error e 500, s)

  -- `postFile`
  unfoldable pub post_file : FilePath → Reader → O.State → Response × O.State
  unfolding copy_to respond
  post_file p body s = elim (O.mkdir_all (dir p) s).0 [
    | some e ↦ (http_error e 500, (O.mkdir_all (dir p) s).1)
    | none ↦
        let t = (O.mkdir_all (dir p) s).1 in
        elim (O.create p t).0 [
          | some e ↦ (http_error e 500, (O.create p t).1)
          | none ↦ respond (copy_to p body.chunks body.fault (O.create p t).1)
        ]
  ]

  -- `readFile`: the status was sent before the copy can fail.
  unfoldable pub read_file : FilePath → O.State → Response × O.State
  read_file p s = elim (O.open_file p s) [
    | err e ↦ (
      is_not_exist e (record { status = 404; body = text "no such file or directory" })
          (http_error e 500),
      s,
    )
    | ok r ↦ (record { status = 200; body = bytes (contents r.chunks) }, s)
  ]

-- `FetchRequest`
pub record FetchRequest : Type 0 where
  pub url : String
  pub dest : FilePath

-- What another server answers.
pub record Download : Type 0 where
  pub status : ℕ
  pub body : Reader

-- The requests that a node makes: `http.NewRequestWithContext` and `http.DefaultClient.Do`.
pub record Web : Type 0 where
  pub new_request : String → Option Error
  pub get : String → Result Download

module _ (O : Os) (W : Web) where
  -- The part of `fetch` after the file was created.
  unfoldable pub download : FetchRequest → O.State → Response × O.State
  unfolding copy_to respond
  download req s = elim (W.new_request req.url) [
    | some e ↦ (http_error e 500, s)
    | none ↦ elim (W.get req.url) [
      | err e ↦ (http_error e 500, s)
      | ok d ↦ respond O (copy_to O req.dest d.body.chunks d.body.fault s)
    ]
  ]

  -- `fetch`, with what the decoder makes of the request's body.
  unfoldable pub fetch : Result FetchRequest → O.State → Response × O.State
  unfolding download
  fetch (err e) s = (http_error e 500, s)
  fetch (ok req) s = elim (O.create req.dest s).0 [
    | some e ↦ (http_error e 500, (O.create req.dest s).1)
    | none ↦ download req (O.create req.dest s).1
  ]
