-- ===== src/Agent/RoundTrip.antt =====
-- A file that was sent to a node and is read from it.
use clustertest.Prelude.{
  ◌≡◌, refl, ap, subst, sym, ◌∙◌, List, [], ◌∷◌, ◌++◌, append-nil, append_assoc, Option, none, some,
  Error, Result, ◌≢◌, ok, err, Option-cases, inl, inr, arith,
}
use clustertest.Process.Types.{Bytes}
use clustertest.Process.Writer.{Reader, contents}
use clustertest.Paths.{FilePath, dir}
use clustertest.Agent.Http.{Response, bytes, IsHonest, IsCalm, is_retried}
use clustertest.Agent.Files.{Os, Disk, copy_to, respond, post_file}
use clustertest.Agent.Files
use clustertest.Agent.Client.{
  Link, url_path, routed, sent_response, send_file, read_response, read_file,
}

module _ (O : Os) where
  copy_to_more :
      (p : FilePath) (c : Bytes) (bs : List Bytes) (fault : Option Error) (s : O.State)
      → (copy_to O p (c ∷ bs) fault s).0 ≡ none
      → ((O.append p c s).0 ≡ none)
        × (copy_to O p (c ∷ bs) fault s ≡ copy_to O p bs fault (O.append p c s).1)
  unfolding copy_to
  copy_to_more p c bs fault s e = ground arith

  respond-ok :
      (x : Option Error × O.State)
      → (respond O x).0.status ≡ 200
      → (x.0 ≡ none) × ((respond O x).1 ≡ x.1)
  unfolding respond
  respond-ok (none, s) e = (refl, refl)
  respond-ok (some x, s) e = ground arith

  post_file_copied :
      (p : FilePath) (body : Reader) (s : O.State)
      → (post_file O p body s).0.status ≡ 200
      → let t = (O.mkdir_all (dir p) s).1 in
        ((O.create p t).0 ≡ none)
        × (post_file O p body s ≡ respond O (copy_to O p body.chunks body.fault (O.create p t).1))
  unfolding post_file
  post_file_copied p body s e = ground arith

module _ (O : Os) (D : Disk O) where
  -- A copy with no error has added all that the reader yields.
  pub file-copy_to :
      (p : FilePath) (bs : List Bytes) (fault : Option Error) (b : Bytes) (s : O.State)
      → D.file p s ≡ some b
      → (copy_to O p bs fault s).0 ≡ none
      → D.file p (copy_to O p bs fault s).1 ≡ some (b ++ contents bs)
  unfolding copy_to
  file-copy_to p [] fault b s h e = rw append-nil h
  file-copy_to p (c ∷ bs) fault b s h e =
      let (q, more) = copy_to_more O p c bs fault s e in
      rw more (
        file-copy_to p bs fault (b ++ c) _ (D.file-append p b c s h q) (rw more at e)
        ∙ ap some (append_assoc b c (contents bs)))

  -- A copy into a new file that was answered with 200 has stored the whole body.
  pub file-respond :
      (p : FilePath) (body : Reader) (s : O.State)
      → (O.create p s).0 ≡ none
      → (respond O (copy_to O p body.chunks body.fault (O.create p s).1)).0.status ≡ 200
      → D.file p (respond O (copy_to O p body.chunks body.fault (O.create p s).1)).1
        ≡ some (contents body.chunks)
  file-respond p body s made e =
      let (q, same) = respond-ok O (copy_to O p body.chunks body.fault (O.create p s).1) e in
      rw same (file-copy_to p body.chunks body.fault [] _ (D.file-create p s made) q)

  pub file-post_file :
      (p : FilePath) (body : Reader) (s : O.State)
      → (post_file O p body s).0.status ≡ 200
      → D.file p (post_file O p body s).1 ≡ some (contents body.chunks)
  file-post_file p body s e =
      let (made, same) = post_file_copied O p body s e in
      rw same (file-respond p body _ made (rw same at e))

  -- What the handler of the read gives for a file.
  read_file-file :
      (p : FilePath) (b : Bytes) (s : O.State)
      → D.file p s ≡ some b
      → Files.read_file O p s ≡ (record { status = 200; body = bytes b }, s)
  unfolding Files.read_file
  read_file-file p b s h =
      let (r, o, c) = D.open_file-file p b s h in rw (o, Files.read_file) (rw c refl)

module _ (O : Os) (L : Link O) where
  routed_to :
      (handler : FilePath → O.State → Response × O.State) (p q : FilePath) (s : O.State)
      → L.param p ≡ some q
      → routed O L handler p s ≡ handler q s
  unfolding routed
  routed_to handler p q s e = rw (e, routed) refl

  sent_response_ok :
      (x : Result Response × O.State) (t : O.State)
      → sent_response O L x ≡ (none, t)
      → (r : Response) × (x ≡ (ok r, t)) × (r.status ≡ 200)
  unfolding sent_response
  sent_response_ok (err x, s) t e = ground arith
  sent_response_ok (ok r, s) t e = (r, ground arith, ground arith)

  send_file_refused :
      (p : FilePath) (body : Reader) (s t : O.State) (x : Error)
      → L.build (url_path p) ≡ some x
      → send_file O L p body s ≢ (none, t)
  unfolding send_file
  send_file_refused p body s t x e h = ground arith

  -- A file that was sent with no error: the exchange gave 200.
  send_file_ok :
      (p : FilePath) (body : Reader) (s t : O.State)
      → send_file O L p body s ≡ (none, t)
      → (r : Response) × (L.transport.exchange (routed O L (λ q. post_file O q body) (url_path p)) s
          ≡ (ok r, t))
        × (r.status ≡ 200)
  unfolding send_file
  send_file_ok p body s t e = elim (Option-cases (L.build (url_path p))) [
    | inl h ↦ sent_response_ok _ t (rw (h, send_file) at e)
    | inr (x, h) ↦ absurd (send_file_refused p body s t x h e)
  ]

  unrouted :
      (handler : FilePath → O.State → Response × O.State) (p : FilePath) (s : O.State)
      → L.param p ≡ none
      → (routed O L handler p s).0.status ≢ 200
  unfolding routed
  unrouted handler p s e h = ground (arith, rw (e, routed) at h)

  pub send_file_built :
      (p : FilePath) (body : Reader) (s t : O.State)
      → send_file O L p body s ≡ (none, t)
      → L.build (url_path p) ≡ none
  send_file_built p body s t e = elim (Option-cases (L.build (url_path p))) [
    | inl h ↦ h
    | inr (z, h) ↦ absurd (send_file_refused p body s t z h e)
  ]

  -- A file that was sent with no error: the router knew its path.
  pub send_file_routed :
      (p : FilePath) (body : Reader) (s t : O.State)
      → IsHonest L.transport
      → send_file O L p body s ≡ (none, t)
      → (q : FilePath) × (L.param (url_path p) ≡ some q)
  send_file_routed p body s t honest e =
      let (r, x, ok200) = send_file_ok p body s t e in
      let (u, y) = honest _ s t r x in
      elim (Option-cases (L.param (url_path p))) [
        | inr h ↦ h
        | inl h ↦
            absurd
              (unrouted (λ q. post_file O q body) (url_path p) u h (ap (λ z. z.0.status) y ∙ ok200))
      ]

  read_file_from :
      (p : FilePath) (b : Bytes) (s : O.State)
      → L.build (url_path p) ≡ none
      → L.transport.exchange (routed O L (Files.read_file O) (url_path p)) s
        ≡ (ok (record { status = 200; body = bytes b }), s)
      → read_file O L p s ≡ (ok (bytes b), s)
  unfolding read_file
  read_file_from p b s h e = rw (h, read_file) (rw (e, read_response) refl)

module _ (O : Os) (D : Disk O) (L : Link O) where
  -- A file that a node holds is read whole, over a network that fails no request.
  pub read_file_held :
      (p q : FilePath) (b : Bytes) (s : O.State)
      → L.build (url_path p) ≡ none
      → L.param (url_path p) ≡ some q
      → IsCalm L.transport
      → D.file q s ≡ some b
      → read_file O L p s ≡ (ok (bytes b), s)
  unfolding is_retried
  read_file_held p q b s h k calm f =
      let same =
        routed_to O L (Files.read_file O) (url_path p) q s k ∙ read_file-file O D q b s f in
      read_file_from O L p b s h (
        calm (routed O L (Files.read_file O) (url_path p)) s (rw same refl)
        ∙ ap (λ x. (ok x.0, x.1)) same)

  -- A file that was sent with no error is stored under the path that the router gives.
  pub file-send_file :
      (p q : FilePath) (body : Reader) (s t : O.State)
      → L.param (url_path p) ≡ some q
      → IsHonest L.transport
      → send_file O L p body s ≡ (none, t)
      → D.file q t ≡ some (contents body.chunks)
  file-send_file p q body s t k honest e =
      let (r, x, ok200) = send_file_ok O L p body s t e in
      let (u, y) = honest _ s t r x in
      let z = sym (routed_to O L (λ f. post_file O f body) (url_path p) q u k) ∙ y in
      subst (λ x. D.file q x ≡ some (contents body.chunks)) (ap (λ x. x.1) z)
        (file-post_file O D q body u (ap (λ x. x.0.status) z ∙ ok200))

  -- If `SendFile` returns no error then `ReadFile` of the same path, over a network that fails no
  -- request, gives the whole content that was sent.
  pub read_file-send_file :
      (p : FilePath) (body : Reader) (s t : O.State)
      → IsHonest L.transport
      → IsCalm L.transport
      → send_file O L p body s ≡ (none, t)
      → read_file O L p t ≡ (ok (bytes (contents body.chunks)), t)
  read_file-send_file p body s t honest calm e =
      let (q, k) = send_file_routed O L p body s t honest e in
      read_file_held p q _ t (send_file_built O L p body s t e) k calm
        (file-send_file p q body s t k honest e)
