-- ===== src/Kubo/Archive.antt =====
-- examples/kubo/kubo_versions.go: `FetchArchive` and `FetchArchiveWithCaching`, whose cache is the
-- host's directory of temporary files.
pub mod Cache
use clustertest.Prelude.{
  ◌≡◌, ◌≢◌, refl, ap, sym, subst, ◌∙◌, ℕ, String, ◌<>◌, Bool, true, false, List, [], ◌∷◌, ◌++◌,
  Option, none, some, Error, not_exist, errorf, wrap, str, Result, ok, err, or_wrap, ◌>>=◌,
  Result-cases, Option-cases, inl, inr, arith,
}
use clustertest.Process.Types.{Bytes}
use clustertest.Process.Writer.{Reader, contents}
use clustertest.Paths.{FilePath, join}
use clustertest.Agent.Files.{Os, Disk, Web, Download, copy_to}
use clustertest.Agent.RoundTrip.{file-copy_to}
use clustertest.Kubo.Versions.{VersionInfo, VersionMap, lookup}

-- A version that the map lacks.
abbrev pub required : String → Option VersionInfo → Result VersionInfo
required version none = err (errorf "no such version %q" (str version ∷ []))
required version (some info) = ok info

abbrev pub built : Option Error → Result (Unit {0})
built none = ok tt
built (some e) = err (wrap "building req" [] e)

-- `FetchArchive`: the body, whatever the status.
unfoldable pub fetch_archive : Web → VersionMap → String → Result Reader
unfolding lookup
fetch_archive W m version = do
  info ← required version (lookup version m)
  request ← built (W.new_request info.url)
  response ← or_wrap (W.get info.url) "fetching kubo archive" []
  ok response.body

module _ (O : Os) (W : Web) (stat : FilePath → O.State → Option Error)
    (show : FilePath → String) where
  -- The last part: the archive is opened.
  open_archive : FilePath → O.State → Result Reader × O.State
  open_archive path s = (or_wrap (O.open_file path s) "opening archive" [], s)

  copied : FilePath → Option Error × O.State → Result Reader × O.State
  unfolding open_archive
  copied path (some e, s) = (err (wrap "copying archive" [] e), s)
  copied path (none, s) = open_archive path s

  -- What is fetched is copied to the file of the cache.
  store : FilePath → Reader → O.State → Result Reader × O.State
  unfolding copied
  store path body s = elim (O.create path s).0 [
    | some e ↦ (err (wrap "creating archive" [] e), (O.create path s).1)
    | none ↦ copied path (copy_to O path body.chunks body.fault (O.create path s).1)
  ]

  fetched : FilePath → Result Reader → O.State → Result Reader × O.State
  unfolding store
  fetched path (err e) s = (err (wrap "fetching" [] e), s)
  fetched path (ok body) s = store path body s

  -- The outcome of `os.Stat`; an error other than that of a missing file ends the call.
  by_stat : VersionMap → String → FilePath → Option Error → O.State → Result Reader × O.State
  unfolding fetched fetch_archive
  by_stat m version path none s = open_archive path s
  by_stat m version path (some not_exist) s = fetched path (fetch_archive W m version) s
  by_stat m version path (some e) s = (err (wrap "stat'ing %q" (str (show path) ∷ []) e), s)

  -- `FetchArchiveWithCaching`, with the directory of temporary files.
  unfoldable pub fetch_archive_with_caching :
      FilePath → VersionMap → String → O.State → Result Reader × O.State
  unfolding by_stat
  fetch_archive_with_caching temp m version s = elim (lookup version m) [
    | none ↦ (err (errorf "no such version %q" (str version ∷ [])), s)
    | some info ↦ by_stat m version (join temp info.cid) (stat (join temp info.cid) s) s
  ]
