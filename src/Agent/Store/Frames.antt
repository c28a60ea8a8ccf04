-- ===== src/Agent/Store/Frames.antt =====
-- What the calls of a client leave of a node's files.
use clustertest.Prelude.{
  ◌≡◌, refl, ap, ◌∙◌, Bool, false, List, [], ◌∷◌, Option, none, some, Error, Result, Option-cases,
  inl, inr, ok, err, arith,
}
use clustertest.Process.Types.{Bytes}
use clustertest.Process.Writer.{Reader}
use clustertest.Paths.{FilePath, path_eq, dir}
use clustertest.Agent.Http.{Response}
use clustertest.Agent.Files.{Os, Disk, Web, Download, FetchRequest, copy_to, respond, post_file}
use clustertest.Agent.Files
use clustertest.Agent.Client
use clustertest.Agent.Client.{
  Link, fetch_response, url_path, routed, sent_response, send_file, read_response, read_file,
}
use clustertest.Agent.Store.{Frame, Tried, untried, again, OnlyTries}

-- What every attempt keeps, the exchange keeps.
Tried-keeps :
    {N A : Type 0} (h : N → Response × N) (f : N → A) (s t : N)
    → ((u : N) → f (h u).1 ≡ f u)
    → Tried h s t
    → f t ≡ f s
Tried-keeps h f s t keeps untried = refl
Tried-keeps h f s t keeps (again {t = u} r) = keeps u ∙ Tried-keeps h f s u keeps r

module _ (O : Os) (D : Disk O) (F : Frame D) where
  copy_to_other :
      (p q : FilePath) (bs : List Bytes) (fault : Option Error) (s : O.State)
      → path_eq p q ≡ false
      → D.file q (copy_to O p bs fault s).1 ≡ D.file q s
  unfolding copy_to
  copy_to_other p q [] fault s h = refl
  copy_to_other p q (b ∷ bs) fault s h =
      let appended = F.file-append_other p q b s h in
      let rest = copy_to_other p q bs fault (O.append p b s).1 h in ground (arith, appended, rest)

  respond-same : (x : Option Error × O.State) → (respond O x).1 ≡ x.1
  unfolding respond
  respond-same (none, s) = refl
  respond-same (some e, s) = refl

  -- `postFile` leaves every other file.
  post_file_other :
      (p q : FilePath) (body : Reader) (s : O.State)
      → path_eq p q ≡ false
      → D.file q (post_file O p body s).1 ≡ D.file q s
  unfolding post_file
  post_file_other p q body s h =
      let t = (O.mkdir_all (dir p) s).1 in
      let made = F.file-mkdir_all (dir p) q s in
      let created = F.file-create_other p q t h in
      let x = copy_to O p body.chunks body.fault (O.create p t).1 in
      let copied = copy_to_other p q body.chunks body.fault (O.create p t).1 h in
      let answered = ap (D.file q) (respond-same x) in
      ground (arith, made, created, copied, answered)

  -- `fetch` leaves every file but its destination.
  fetch_handler_other :
      (W : Web) (req : FetchRequest) (q : FilePath) (s : O.State)
      → path_eq req.dest q ≡ false
      → D.file q (Files.fetch O W (ok req) s).1 ≡ D.file q s
  unfolding Files.fetch
  fetch_handler_other W req q s h = by_answer (W.get req.url) refl
    where
      by_answer :
          (r : Result Download)
          → W.get req.url ≡ r
          → D.file q (Files.fetch O W (ok req) s).1 ≡ D.file q s
      by_answer (err x) g =
          let created = F.file-create_other req.dest q s h in ground (arith, created, g)
      by_answer (ok d) g =
          let created = F.file-create_other req.dest q s h in
          let t = (O.create req.dest s).1 in
          let x = copy_to O req.dest d.body.chunks d.body.fault t in
          let copied = copy_to_other req.dest q d.body.chunks d.body.fault t h in
          let answered = ap (D.file q) (respond-same x) in
          ground (arith, created, copied, answered, g)

abbrev pub touches : Option FilePath → FilePath → Bool
touches none q = false
touches (some p) q = path_eq p q

module _ (O : Os) (D : Disk O) (F : Frame D) (L : Link O) (tries : OnlyTries L.transport) where
  routed_other :
      (p q : FilePath) (body : Reader) (s : O.State)
      → touches (L.param p) q ≡ false
      → D.file q (routed O L (λ f. post_file O f body) p s).1 ≡ D.file q s
  unfolding routed
  routed_other p q body s h = elim (Option-cases (L.param p)) [
    | inl e ↦ rw (e, routed) refl
    | inr (r, e) ↦ rw (e, routed) (post_file_other O D F r q body s (rw e at h))
  ]

  routed_read : (p : FilePath) (s : O.State) → (routed O L (Files.read_file O) p s).1 ≡ s
  unfolding routed Files.read_file
  routed_read p s = ground arith

  sent_response-same : (x : Result Response × O.State) → (sent_response O L x).1 ≡ x.1
  unfolding sent_response
  sent_response-same x = ground arith

  read_response-same : (x : Result Response × O.State) → (read_response O L x).1 ≡ x.1
  unfolding read_response
  read_response-same x = ground arith

  -- `SendFile` leaves every file but that under the path that the router gives.
  pub send_file_other :
      (p q : FilePath) (body : Reader) (s : O.State)
      → touches (L.param (url_path p)) q ≡ false
      → D.file q (send_file O L p body s).1 ≡ D.file q s
  unfolding send_file
  send_file_other p q body s h =
      let handler = routed O L (λ f. post_file O f body) (url_path p) in
      let kept =
        Tried-keeps handler (D.file q) s _ (λ u. routed_other (url_path p) q body u h)
          (tries handler s) in
      let answered = ap (D.file q) (sent_response-same (L.transport.exchange handler s)) in
      ground (arith, kept, answered)

  -- `ReadFile` leaves the node.
  pub read_file-same : (p : FilePath) (s : O.State) → (read_file O L p s).1 ≡ s
  unfolding read_file
  read_file-same p s =
      let handler = routed O L (Files.read_file O) (url_path p) in
      let kept =
        Tried-keeps handler (λ u. u) s _ (λ u. routed_read (url_path p) u) (tries handler s) in
      let answered = read_response-same (L.transport.exchange handler s) in
      ground (arith, kept, answered)

  fetch_response-same : (x : Result Response × O.State) → (fetch_response O L x).1 ≡ x.1
  unfolding fetch_response
  fetch_response-same x = ground arith

  -- `Fetch` leaves every file but its destination.
  pub fetch_other :
      (W : Web) (req : FetchRequest) (q : FilePath) (s : O.State)
      → path_eq req.dest q ≡ false
      → D.file q (Client.fetch O L W req s).1 ≡ D.file q s
  unfolding Client.fetch
  fetch_other W req q s h =
      let handler = Files.fetch O W (ok req) in
      ap (D.file q) (fetch_response-same (L.transport.exchange handler s))
      ∙ Tried-keeps handler (D.file q) s _ (λ u. fetch_handler_other O D F W req q u h)
          (tries handler s)
