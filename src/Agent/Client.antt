-- ===== src/Agent/Client.antt =====
-- agent/client.go: the requests that the client makes and what it makes of the responses.
use clustertest.Prelude.{
  ℤ, String, true, List, [], ◌∷◌, ◌++◌, Option, none, some, Error, not_exist, errorf, wrap, str,
  int, Result, ok, err, ◌==◌, if◌then◌else◌,
}
use clustertest.Process.Writer.{Reader}
use clustertest.Paths.{FilePath, at}
use clustertest.Agent.Http.{Response, Body, Transport}
use clustertest.Agent.Files.{Os, Web, FetchRequest, post_file}
use clustertest.Agent.Files

-- `path.Join("/file", filePath)`, where no name of the path is "..".
unfoldable pub url_path : FilePath → FilePath
url_path p = at true (p.names ++ ("file" ∷ []))

-- What a client's method leaves: its error, and the node.
abbrev pub Sent : Type 0 → Type 0
Sent N = Option Error × N

-- The client of a node, with what stands between the two: `build` is `http.NewRequestWithContext`,
-- `param` what the router passes to a handler as "path" (no route: `none`), `body_text` what
-- `io.ReadAll` makes of a body, or its error.
pub record Link (O : Os) : Type 1 where
  pub transport : Transport O.State
  pub build : FilePath → Option Error
  pub param : FilePath → Option FilePath
  pub body_text : Body → String

-- The router's answer to a path that it has no route for.
abbrev pub not_found : Response
not_found = record { status = 404; body = Body.text "404 page not found" }

module _ (O : Os) (L : Link O) where
  -- The handler that the router chooses for a path under "/file".
  unfoldable pub routed :
      (FilePath → O.State → Response × O.State) → FilePath → O.State → Response × O.State
  routed handler p s = elim (L.param p) [ none ↦ (not_found, s) | some q ↦ handler q s ]

  -- What `SendFile` makes of the response.
  unfoldable pub sent_response : Result Response × O.State → Sent O.State
  sent_response (err e, s) = (some (wrap "sending file over HTTP" [] e), s)
  sent_response (ok r, s) = if r.status == 200 then (none, s) else (
    some (
        errorf "non-200 HTTP status code %d received when sending file: %s"
          (int (ℤ.pos r.status) ∷ str (L.body_text r.body) ∷ [])),
    s,
  )

  -- `SendFile`
  unfoldable pub send_file : FilePath → Reader → O.State → Sent O.State
  unfolding routed sent_response url_path
  send_file p body s = elim (L.build (url_path p)) [
    | some e ↦ (some (wrap "building request" [] e), s)
    | none ↦
        sent_response (L.transport.exchange (routed (λ q. Files.post_file O q body) (url_path p)) s)
  ]

  -- What `ReadFile` makes of the response.
  unfoldable pub read_response : Result Response × O.State → Result Body × O.State
  read_response (err e, s) = (err (wrap "reading file over HTTP" [] e), s)
  read_response (ok r, s) =
      if r.status == 200 then (ok r.body, s) else if r.status == 404 then (err not_exist, s) else (
        err (
            errorf "non-200 HTTP status code %d received when reading file: %s"
              (int (ℤ.pos r.status) ∷ str (L.body_text r.body) ∷ [])),
        s,
      )

  -- `ReadFile`
  unfoldable pub read_file : FilePath → O.State → Result Body × O.State
  unfolding routed read_response url_path
  read_file p s = elim (L.build (url_path p)) [
    | some e ↦ (err (wrap "building request" [] e), s)
    | none ↦ read_response (L.transport.exchange (routed (Files.read_file O) (url_path p)) s)
  ]

  -- What `Fetch` makes of the response; it wraps no error of the exchange.
  unfoldable pub fetch_response : Result Response × O.State → Sent O.State
  fetch_response (err e, s) = (some e, s)
  fetch_response (ok r, s) = if r.status == 200 then (none, s) else (
    some (
        errorf "non-200 HTTP status code %d received when fetching: %s"
          (int (ℤ.pos r.status) ∷ str (L.body_text r.body) ∷ [])),
    s,
  )

  -- `Fetch`: what `json.Marshal` and the server's decoder make of the request together is `ok`.
  unfoldable pub fetch : Web → FetchRequest → O.State → Sent O.State
  unfolding fetch_response
  fetch W req s = fetch_response (L.transport.exchange (Files.fetch O W (ok req)) s)

-- `SendHeartbeat` of a request that was built, with what the exchange gives.
unfoldable pub send_heartbeat : Result Response → Option Error
send_heartbeat (err e) = some (wrap "HTTP error" [] e)
send_heartbeat (ok r) =
    if r.status == 200
    then none
    else some (errorf "unexpected heartbeat status code %d" (int (ℤ.pos r.status) ∷ []))

-- How a call of `SendHeartbeat` ends: a request that cannot be built panics.
pub data HeartbeatEnd : Type 0 where
  heartbeat_panics : HeartbeatEnd
  heartbeat_returns : Option Error → HeartbeatEnd

-- `SendHeartbeat`, with what building the request and the exchange give.
unfoldable pub heartbeat_call : Option Error → Result Response → HeartbeatEnd
unfolding send_heartbeat
heartbeat_call (some e) r = heartbeat_panics
heartbeat_call none r = heartbeat_returns (send_heartbeat r)

-- What a round of the loop of `WaitForServer` selects: the end of the context, or a tick, and then
-- what comes of the heartbeat.
pub data Round : Type 0 where
  done : Error → Round
  tick : Result Response → Round

-- `WaitForServer` over the rounds that come; `none` if it still waits after them.
unfoldable pub wait_for_server : List Round → Option (Option Error)
unfolding send_heartbeat
wait_for_server [] = none
wait_for_server (done e ∷ rounds) = some (some e)
wait_for_server (tick r ∷ rounds) =
    let rest = wait_for_server rounds in
    elim (send_heartbeat r) [ none ↦ some none | some e ↦ rest ]
