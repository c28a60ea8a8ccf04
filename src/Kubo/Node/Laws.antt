-- ===== src/Kubo/Node/Laws.antt =====
-- How the commands of a Kubo node and `LoadBinary` of examples/kubo/kubo.go end.
use clustertest.Prelude.{
  ◌≡◌, ◌↔◌, refl, is_zero, String, true, false, Option, none, some, Error, Result, ok, err,
  Option-cases, inl, inr, arith, Bool-cases,
}
use clustertest.Process.Types.{CmdResult}
use clustertest.Process.Writer.{Reader, StartProcRequest}
use clustertest.Cluster.{run}
use clustertest.Paths.{FilePath}
use clustertest.Agent.Files.{Os, Web}
use clustertest.Kubo.Versions.{VersionInfo, VersionMap, lookup}
use clustertest.Kubo.Archive.{fetch_archive, fetch_archive_with_caching}
use clustertest.Kubo.Node.{
  Host, failed, kubo_request, run_kubo, tar, get_archive, unpack, load_binary, fetched_to,
}

-- A process that started and whose `Wait` gave code 0, with an error or without.
abbrev pub Succeeds : Result CmdResult → Type 0
Succeeds (err e) = ⊥
Succeeds (ok r) = is_zero r.code ≡ true

-- The outcome of `Run` with code 0 has no error.
failed-Succeeds :
    (message : String) (p : Result CmdResult) → failed message (run p) ≡ none → Succeeds p
unfolding run
failed-Succeeds message (err e) h = absurd (ground arith)
failed-Succeeds message (ok r) h = elim (Bool-cases (is_zero r.code)) [
  | inl zero ↦ zero
  | inr other ↦ absurd (ground (arith, rw (other, run) at h))
]

Succeeds-failed :
    (message : String) (p : Result CmdResult) → Succeeds p → failed message (run p) ≡ none
unfolding run
Succeeds-failed message (err e) h = elim h [ ]
Succeeds-failed message (ok r) h = rw (h, run) (rw h refl)

module _ {O : Os} (H : Host O) where
  -- `RunKubo` returns no error exactly when its process starts and its `Wait` gives code 0, also
  -- with an error.
  pub run_kubo-Succeeds :
      (req : StartProcRequest) (s : O.State)
      → ((run_kubo H req s).0 ≡ none) ↔ Succeeds (H.exec (kubo_request H req) s).0
  unfolding run_kubo
  run_kubo-Succeeds req s = (
    failed-Succeeds "kubo had non-zero exit code %d" _,
    Succeeds-failed "kubo had non-zero exit code %d" _,
  )

  module _ (W : Web) (stat : FilePath → O.State → Option Error) (temp : FilePath) where
    -- What `LoadBinary` did if it returns no error.
    pub record Loaded (m : VersionMap) (version : String) (s : O.State) : Type 0 where
      pub info : VersionInfo
      pub listed : lookup version m ≡ some info
      pub unpacked : Succeeds (H.exec (tar H) (get_archive H W stat temp m version s).1).0

    unlisted_fetch :
        (fetch : String → FilePath → O.State → Option Error × O.State) (m : VersionMap)
        (version : String) (s : O.State)
        → lookup version m ≡ none
        → (e : Error) × ((fetched_to H W stat temp fetch m version s).0 ≡ some e)
    unlisted_fetch fetch m version s h = rw (h, fetched_to) (_, refl)

    unlisted :
        (m : VersionMap) (version : String) (s : O.State)
        → lookup version m ≡ none
        → (e : Error) × ((get_archive H W stat temp m version s).0 ≡ some e)
    unfolding get_archive fetch_archive fetch_archive_with_caching
    unlisted m version s h = elim (Bool-cases H.caches) [
      | inl c ↦ rw (c, h, get_archive, fetch_archive_with_caching) (_, refl)
      | inr c ↦ elim (Option-cases H.fetcher) [
        | inl f ↦ rw (c, f, h, get_archive, fetch_archive) (_, refl)
        | inr (fetch, f) ↦ rw (c, f, get_archive) (unlisted_fetch fetch m version s h)
      ]
    ]

    pub unpack-Succeeds :
        (x : Option Error × O.State)
        → (unpack H W stat temp x).0 ≡ none
        → Succeeds (H.exec (tar H) x.1).0
    unpack-Succeeds (some e, s) h = absurd (ground arith)
    unpack-Succeeds (none, s) h = failed-Succeeds "non-zero exit code %d when unarchiving" _ h

    pub unpack_error : (x : Option Error × O.State) → (unpack H W stat temp x).0 ≡ none → x.0 ≡ none
    unpack_error (some e, s) h = absurd (ground arith)
    unpack_error (none, s) h = refl

    -- If `LoadBinary` with a map of versions returns no error then the map lists the node's version
    -- and `tar` started and its `Wait` gave code 0 after the archive was asked for.
    pub load_binary-Loaded :
        (m : VersionMap) (version : String) (s : O.State)
        → (load_binary H W stat temp (ok m) version s).0 ≡ none
        → Loaded m version s
    unfolding load_binary
    load_binary-Loaded m version s h = elim (Option-cases (lookup version m)) [
      | inl missing ↦
          let (e, failure) = unlisted m version s missing in
          let fine = unpack_error (get_archive H W stat temp m version s) h in
          absurd (ground (arith, rw failure at fine))
      | inr (info, listed) ↦ record { info = info; listed = listed; unpacked = unpack-Succeeds _ h }
    ]

    -- On a node that is neither a local nor a Docker one and has no `Fetch`, `LoadBinary` sends no
    -- archive: with any web that answers, it only runs `tar`.
    pub load_binary-unsent :
        (m : VersionMap) (version : String) (body : Reader) (s : O.State)
        → H.caches ≡ false
        → H.fetcher ≡ none
        → fetch_archive W m version ≡ ok body
        → load_binary H W stat temp (ok m) version s ≡ unpack H W stat temp (none, s)
    unfolding load_binary get_archive
    load_binary-unsent m version body s c f got = rw (c, f, got, load_binary, get_archive) refl
