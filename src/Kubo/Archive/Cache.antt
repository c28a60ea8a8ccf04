-- ===== src/Kubo/Archive/Cache.antt =====
-- What the cache of `FetchArchiveWithCaching` gives, and how a download that breaks off spoils it.
use clustertest.Prelude.{
  ◌≡◌, refl, ap, sym, subst, ◌∙◌, String, List, [], ◌∷◌, ◌++◌, append-nil, append_assoc, Option,
  none, some, Error, not_exist, wrap, ok, err, arith,
}
use clustertest.Process.Types.{Bytes}
use clustertest.Process.Writer.{Reader, contents}
use clustertest.Paths.{FilePath, join}
use clustertest.Agent.Files.{Os, Disk, Web, Download, copy_to}
use clustertest.Kubo.Versions.{VersionInfo, VersionMap, lookup}
use clustertest.Kubo.Archive.{
  fetch_archive, open_archive, copied, store, fetched, by_stat, fetch_archive_with_caching,
}

module _ (O : Os) (D : Disk O) where
  -- A disk that fails no write.
  abbrev pub NeverFull : Type 0
  NeverFull = (p : FilePath) (b : Bytes) (s : O.State) → (O.append p b s).0 ≡ none

  copy_to_fault :
      (p : FilePath) (bs : List Bytes) (fault : Option Error) (b : Bytes) (s : O.State)
      → NeverFull
      → D.file p s ≡ some b
      → ((copy_to O p bs fault s).0 ≡ fault)
        × (D.file p (copy_to O p bs fault s).1 ≡ some (b ++ contents bs))
  unfolding copy_to
  copy_to_fault p [] fault b s free h = (refl, rw append-nil h)
  copy_to_fault p (c ∷ bs) fault b s free h =
      let (e, f) =
        copy_to_fault p bs fault (b ++ c) (O.append p c s).1 free
          (D.file-append p b c s h (free p c s)) in
      (
        rw (free p c s, copy_to) e,
        rw (free p c s, copy_to) (f ∙ ap some (append_assoc b c (contents bs))),
      )

module _ (O : Os) (W : Web) (stat : FilePath → O.State → Option Error) (show : FilePath → String)
    (D : Disk O) where
  -- `os.Stat` finds each file that can be opened.
  abbrev pub StatsFiles : Type 0
  StatsFiles = (p : FilePath) (b : Bytes) (s : O.State) → D.file p s ≡ some b → stat p s ≡ none

  open_archive-file :
      (path : FilePath) (b : Bytes) (s : O.State)
      → D.file path s ≡ some b
      → (r : Reader) × (open_archive O W stat show path s ≡ (ok r, s)) × (contents r.chunks ≡ b)
  unfolding open_archive
  open_archive-file path b s f = let (r, o, c) = D.open_file-file path b s f in (r, rw o refl, c)

  -- The call, once the version is listed and `os.Stat` has answered.
  called :
      (temp : FilePath) (m : VersionMap) (version : String) (info : VersionInfo) (s : O.State)
      (found : Option Error)
      → lookup version m ≡ some info
      → stat (join temp info.cid) s ≡ found
      → fetch_archive_with_caching O W stat show temp m version s
        ≡ by_stat O W stat show m version (join temp info.cid) found s
  unfolding fetch_archive_with_caching
  called temp m version info s found listed e = rw (listed, fetch_archive_with_caching) (rw e refl)

  -- A file of the cache is what a call for a version of that CID gives, whatever it holds.
  pub fetch_archive_with_caching-file :
      (temp : FilePath) (m : VersionMap) (version : String) (info : VersionInfo) (b : Bytes)
      (s : O.State)
      → StatsFiles
      → lookup version m ≡ some info
      → D.file (join temp info.cid) s ≡ some b
      → (r : Reader) × (fetch_archive_with_caching O W stat show temp m version s ≡ (ok r, s))
        × (contents r.chunks ≡ b)
  unfolding by_stat
  fetch_archive_with_caching-file temp m version info b s stats listed f =
      let (r, same, c) = open_archive-file (join temp info.cid) b s f in
      (r, called temp m version info s none listed (stats _ b s f) ∙ same, c)

  copied_fault :
      (path : FilePath) (e : Error) (x : Option Error × O.State)
      → x.0 ≡ some e
      → (copied O W stat show path x).0 ≡ err (wrap "copying archive" [] e)
        × ((copied O W stat show path x).1 ≡ x.1)
  unfolding copied
  copied_fault path e (none, s) h = absurd (ground arith)
  copied_fault path e (some y, s) h = (ground arith, refl)

  store_made :
      (path : FilePath) (body : Reader) (s : O.State)
      → (O.create path s).0 ≡ none
      → store O W stat show path body s
        ≡ copied O W stat show path (copy_to O path body.chunks body.fault (O.create path s).1)
  unfolding store
  store_made path body s made = rw (made, store) refl

  store_fault :
      (path : FilePath) (body : Reader) (e : Error) (s : O.State)
      → NeverFull O D
      → (O.create path s).0 ≡ none
      → body.fault ≡ some e
      → ((store O W stat show path body s).0 ≡ err (wrap "copying archive" [] e))
        × (D.file path (store O W stat show path body s).1 ≡ some (contents body.chunks))
  store_fault path body e s free made broken =
      let (ends, f) =
        copy_to_fault O D path body.chunks body.fault [] _ free (D.file-create path s made) in
      let (first, left) = copied_fault path e _ (ends ∙ broken) in
      rw (store_made path body s made) (first, rw left f)

  fetch_archive_got :
      (m : VersionMap) (version : String) (info : VersionInfo) (d : Download)
      → lookup version m ≡ some info
      → W.new_request info.url ≡ none
      → W.get info.url ≡ ok d
      → fetch_archive W m version ≡ ok d.body
  unfolding fetch_archive
  fetch_archive_got m version info d listed r g = rw (listed, fetch_archive) (rw r (rw g refl))

  -- When the download of an archive that is not in the cache breaks off, the call fails, and the next
  -- call for the version gives the part that had come, with no error.
  pub fetch_archive_with_caching-twice :
      (temp : FilePath) (m : VersionMap) (version : String) (info : VersionInfo) (d : Download)
      (e : Error) (s : O.State)
      → StatsFiles
      → NeverFull O D
      → lookup version m ≡ some info
      → stat (join temp info.cid) s ≡ some not_exist
      → W.new_request info.url ≡ none
      → W.get info.url ≡ ok d
      → (O.create (join temp info.cid) s).0 ≡ none
      → d.body.fault ≡ some e
      → let (first, t) = fetch_archive_with_caching O W stat show temp m version s in
        (r : Reader) × (first ≡ err (wrap "copying archive" [] e))
        × (fetch_archive_with_caching O W stat show temp m version t ≡ (ok r, t))
        × (contents r.chunks ≡ contents d.body.chunks)
  unfolding by_stat fetched
  fetch_archive_with_caching-twice temp m version info d e s stats free listed missing req g made
        broken =
      let path = join temp info.cid in
      let same =
        called temp m version info s (some not_exist) listed missing
        ∙ ap (λ r. fetched O W stat show path r s)
            (fetch_archive_got m version info d listed req g) in
      let (failed, left) = store_fault path d.body e s free made broken in
      let (r, again, c) =
        fetch_archive_with_caching-file temp m version info (contents d.body.chunks) _ stats listed
          (subst (λ x. D.file path x.1 ≡ some (contents d.body.chunks)) (sym same) left) in
      (r, ap (λ x. x.0) same ∙ failed, again, c)
