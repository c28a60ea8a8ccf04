-- ===== src/Agent/Fetching.antt =====
-- What `fetch` of agent/agent.go, asked for by `Fetch` of agent/client.go, leaves on the node.
use clustertest.Prelude.{
  ◌≡◌, ◌≢◌, ap, subst, ◌∙◌, Result, [], none, some, Error, ok, err, Result-cases, inl, inr, arith,
}
use clustertest.Process.Writer.{contents}
use clustertest.Agent.Files.{Os, Disk, Web, Download, FetchRequest, copy_to, respond, fetch}
use clustertest.Agent.Http.{Response, IsHonest}
use clustertest.Agent.Client.{Link, fetch_response}
use clustertest.Agent.Client
use clustertest.Agent.RoundTrip.{file-respond}

module _ (O : Os) (D : Disk O) (W : Web) where
  -- A `fetch` that was answered with 200: the file was created and a server's answer copied to it.
  fetch_copied :
      (req : FetchRequest) (s : O.State) (d : Download)
      → W.get req.url ≡ ok d
      → (fetch O W (ok req) s).0.status ≡ 200
      → ((O.create req.dest s).0 ≡ none)
        × (fetch O W (ok req) s
            ≡ respond O (copy_to O req.dest d.body.chunks d.body.fault (O.create req.dest s).1))
  unfolding fetch
  fetch_copied req s d g e = ground arith

  -- A `fetch` that was answered with 200 has stored the whole body of the other server's answer, whatever the status of that answer.
  pub fetch-file :
      (req : FetchRequest) (s : O.State) (d : Download)
      → W.get req.url ≡ ok d
      → (fetch O W (ok req) s).0.status ≡ 200
      → D.file req.dest (fetch O W (ok req) s).1 ≡ some (contents d.body.chunks)
  fetch-file req s d g e =
      let (made, same) = fetch_copied req s d g e in
      rw same (file-respond O D req.dest d.body s made (rw same at e))

  unanswered :
      (req : FetchRequest) (s : O.State) (x : Error)
      → W.get req.url ≡ err x
      → (fetch O W (ok req) s).0.status ≢ 200
  unfolding fetch
  unanswered req s x g e = ground arith

  -- A `fetch` that was answered with 200: the other server answered.
  pub fetch_answered :
      (req : FetchRequest) (s : O.State)
      → (fetch O W (ok req) s).0.status ≡ 200
      → (d : Download) × (W.get req.url ≡ ok d)
  fetch_answered req s e = elim (Result-cases (W.get req.url)) [
    | inl h ↦ h
    | inr (x, h) ↦ absurd (unanswered req s x h e)
  ]

  fetch_failed :
      (req : FetchRequest) (s : O.State) (x : Error)
      → (O.create req.dest s).0 ≡ none
      → W.get req.url ≡ err x
      → (fetch O W (ok req) s).1 ≡ (O.create req.dest s).1
  unfolding fetch
  fetch_failed req s x made g = ground arith

  -- A `fetch` whose request to the other server fails leaves the destination empty, whatever it held.
  pub fetch-truncated :
      (req : FetchRequest) (s : O.State) (x : Error)
      → (O.create req.dest s).0 ≡ none
      → W.get req.url ≡ err x
      → D.file req.dest (fetch O W (ok req) s).1 ≡ some []
  fetch-truncated req s x made g = rw (fetch_failed req s x made g) (D.file-create req.dest s made)

module _ (O : Os) (D : Disk O) (L : Link O) (W : Web) (honest : IsHonest L.transport) where
  fetch_response_ok :
      (x : Result Response × O.State)
      → (fetch_response O L x).0 ≡ none
      → (r : Response) × (x ≡ (ok r, (fetch_response O L x).1)) × (r.status ≡ 200)
  unfolding fetch_response
  fetch_response_ok (err x, s) e = ground arith
  fetch_response_ok (ok r, s) e = (r, ground arith, ground arith)

  -- If the client's `Fetch` returns no error then the other server answered the node, whatever the
  -- status of that answer, and its whole body is the file at the destination.
  pub file-fetch :
      (req : FetchRequest) (s : O.State)
      → (Client.fetch O L W req s).0 ≡ none
      → (d : Download) × (W.get req.url ≡ ok d)
        × (D.file req.dest (Client.fetch O L W req s).1 ≡ some (contents d.body.chunks))
  unfolding Client.fetch
  file-fetch req s e =
      let (r, x, ok200) = fetch_response_ok (L.transport.exchange (fetch O W (ok req)) s) e in
      let (u, y) = honest _ s _ r x in
      let done = ap (λ z. z.0.status) y ∙ ok200 in
      let (d, answered) = fetch_answered O D W req u done in
      (
        d,
        answered,
        subst (λ z. D.file req.dest z ≡ some (contents d.body.chunks)) (ap (λ z. z.1) y)
            (fetch-file O D W req u d answered done),
      )
