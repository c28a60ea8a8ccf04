-- ===== src/Agent/Store/Laws.antt =====
-- Every run of calls over an honest and calm network refines its replay on what is known.
use clustertest.Prelude.{
  ◌≡◌, refl, ap, sym, subst, ◌∙◌, List, [], ◌∷◌, Option, none, some, Error, err, wrap, Option-cases,
  Bool-cases, inl, inr, arith,
}
use clustertest.Process.Types.{Bytes}
use clustertest.Process.Writer.{Reader}
use clustertest.Paths.{FilePath, path_eq, path_eq→eq}
use clustertest.Agent.Http.{IsHonest, IsCalm}
use clustertest.Agent.Files.{Os, Disk, Web, FetchRequest}
use clustertest.Agent.Client
use clustertest.Agent.Client.{Link, url_path, send_file, read_file}
use clustertest.Agent.Fetching.{file-fetch}
use clustertest.Agent.RoundTrip.{file-send_file, read_file_held}
use clustertest.Agent.Store.{
  Frame, OnlyTries, Call, sends, reads, fetches, IsReadOf, was_sent, was_read, Known, call, run,
  sent_content, set_at, known_at, learn, Expected, Replays, replay,
}
use clustertest.Agent.Store.Frames.{touches, send_file_other, read_file-same, fetch_other}

module _ (O : Os) (D : Disk O) (F : Frame D) (L : Link O) (tries : OnlyTries L.transport) where
  -- The node agrees with all that is known of its files.
  abbrev pub Holds : Known → O.State → Type 0
  Holds m s = (q : FilePath) (b : Bytes) → m q ≡ some b → D.file q s ≡ some b

  module _ (W : Web) (honest : IsHonest L.transport) (calm : IsCalm L.transport) where
    -- What a `SendFile` teaches of the path that the router gives.
    set-Holds :
        (p q : FilePath) (body : Reader) (m : Known) (s : O.State) (b : Bytes)
        → L.param (url_path p) ≡ some q
        → sent_content O L W body (send_file O L p body s).0 ≡ some b
        → D.file q (send_file O L p body s).1 ≡ some b
    set-Holds p q body m s b k e =
        let t = (send_file O L p body s).1 in
        elim (Option-cases (send_file O L p body s).0) [
          | inl fine ↦
              file-send_file O D L p q body s t k honest (ap (λ x. (x, t)) fine)
              ∙ ap (sent_content O L W body) (sym fine)
              ∙ e
          | inr (x, failed) ↦ absurd (ground (arith, rw failed at e))
        ]

    sends-Holds :
        (p : FilePath) (body : Reader) (m : Known) (s : O.State)
        → Holds m s
        → Holds
            (learn O L W (sends p body) (was_sent (send_file O L p body s).0) m)
            (send_file O L p body s).1
    sends-Holds p body m s holds q b e = at_route (L.param (url_path p)) refl e
      where
        content : Option Bytes
        content = sent_content O L W body (send_file O L p body s).0

        at_route :
            (route : Option FilePath)
            → L.param (url_path p) ≡ route
            → set_at O L W route content m q ≡ some b
            → D.file q (send_file O L p body s).1 ≡ some b
        at_route none k h = send_file_other O D F L tries p q body s (rw k refl) ∙ holds q b h
        at_route (some r) k h = elim (Bool-cases (path_eq r q)) [
          | inl same ↦
              let e : r ≡ q = path_eq→eq r q same in
              set-Holds p q body m s b (k ∙ ap some e) (rw same at h)
          | inr other ↦
              send_file_other O D F L tries p q body s (ap (λ x. touches x q) k ∙ other)
              ∙ holds q b (rw other at h)
        ]

    refused :
        (p : FilePath) (s : O.State) (x : Error)
        → L.build (url_path p) ≡ some x
        → (read_file O L p s).0 ≡ err (wrap "building request" [] x)
    unfolding read_file
    refused p s x h = rw (h, read_file) refl

    reads-Expected :
        (p : FilePath) (m : Known) (s : O.State)
        → Holds m s
        → Expected O L W (reads p) (was_read (read_file O L p s).0) m
    reads-Expected p m s holds = at_known (L.build (url_path p)) (L.param (url_path p)) refl refl
      where
        at_known :
            (built : Option Error) (route : Option FilePath)
            → L.build (url_path p) ≡ built
            → L.param (url_path p) ≡ route
            → IsReadOf O L W built (known_at O L W route m) (read_file O L p s).0
        at_known (some x) route h k = refused p s x h
        at_known none none h k = tt
        at_known none (some q) h k = elim (Option-cases (m q)) [
          | inl unknown ↦ rw unknown tt
          | inr (b, known) ↦
              rw known (ap (λ x. x.0) (read_file_held O D L p q b s h k calm (holds q b known)))
        ]

    fetches-Holds :
        (req : FetchRequest) (m : Known) (s : O.State)
        → Holds m s
        → Holds
            (learn O L W (fetches req) (was_sent (Client.fetch O L W req s).0) m)
            (Client.fetch O L W req s).1
    fetches-Holds req m s holds q b e = elim (Bool-cases (path_eq req.dest q)) [
      | inr other ↦ fetch_other O D F L tries W req q s other ∙ holds q b (rw other at e)
      | inl same ↦ elim (Option-cases (Client.fetch O L W req s).0) [
        | inr (x, failed) ↦ absurd (ground (arith, rw (same, failed) at e))
        | inl fine ↦
            let (d, answered, file) = file-fetch O D L W honest req s fine in
            let known = rw (same, fine, answered) at e in
            let dest : req.dest ≡ q = path_eq→eq req.dest q same in
            subst (λ p. D.file p (Client.fetch O L W req s).1 ≡ some b) dest (file ∙ known)
      ]
    ]

    call-Holds :
        (c : Call) (m : Known) (s : O.State)
        → Holds m s
        → Expected O L W c (call O L W c s).0 m
          × Holds (learn O L W c (call O L W c s).0 m) (call O L W c s).1
    unfolding call
    call-Holds (sends p body) m s holds = (tt, sends-Holds p body m s holds)
    call-Holds (reads p) m s holds =
        (reads-Expected p m s holds, subst (Holds m) (sym (read_file-same O D F L tries p s)) holds)
    call-Holds (fetches req) m s holds = (tt, fetches-Holds req m s holds)

    -- Whatever a client sends, reads and fetches, over an honest network that fails no request: each read
    -- returns what its replay on the known contents says, and at the end the node holds all that the
    -- replay knows.
    pub run-Replays :
        (calls : List Call) (m : Known) (s : O.State)
        → Holds m s
        → let (outcomes, t) = run O L W calls s in
          Replays O L W calls outcomes m × Holds (replay O L W calls outcomes m) t
    unfolding run
    run-Replays [] m s holds = (tt, holds)
    run-Replays (c ∷ calls) m s holds =
        let (expected, after) = call-Holds c m s holds in
        let (rest, end) =
          run-Replays calls (learn O L W c (call O L W c s).0 m) (call O L W c s).1 after in
        ((expected, rest), end)
