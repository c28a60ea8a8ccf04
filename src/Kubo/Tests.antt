-- ===== src/Kubo/Tests.antt =====
-- Kubo nodes on concrete hosts, and the theorems there.
use clustertest.Prelude.{
  ◌≡◌, refl, ap, append-nil, String, true, List, [], ◌∷◌, ◌++◌, ◌<>◌, Option, none, some, Error,
  not_exist, canceled, wrap, Result, ok, err, if◌then◌else◌,
}
use clustertest.Process.Types.{Bytes}
use clustertest.Process.Writer.{Reader, contents}
use clustertest.Paths.{FilePath, at}
use clustertest.Agent.Files.{Os, Disk, Web, Download}
use clustertest.Kubo.Versions.{
  VersionInfo, VersionMap, Dist, lookup, insert, contains, fetch_versions, published,
  lookup-fetch_versions,
}
use clustertest.Kubo.Archive.{fetch_archive_with_caching}
use clustertest.Kubo.Archive.Cache.{fetch_archive_with_caching-twice}

-- A site with two versions.
abbrev site : Dist
site = record {
  versions = ok ("v1" ∷ "v2" ∷ []);
  dist_json = λ v. ok (record { link = "/kubo.tar.gz"; cid = v });
}

abbrev info : String → VersionInfo
info v = record { url = "https://dist.ipfs.tech/kubo/" <> v <> "/kubo.tar.gz"; cid = v }

abbrev swap : List String → List String
swap (v ∷ w ∷ []) = w ∷ v ∷ []
swap vs = vs

abbrev both : VersionMap
both = ("v2", info "v2") ∷ ("v1", info "v1") ∷ []

lookup-fetch_versions_example :
    lookup "v1" both ≡ (if contains "v1" ("v1" ∷ "v2" ∷ []) then published site "v1" else none)
unfolding fetch_versions insert contains
lookup-fetch_versions_example =
    lookup-fetch_versions site swap ("v1" ∷ "v2" ∷ []) "v1" both refl refl refl

-- A host whose one file is the cache, and a download that breaks off after its first part.
abbrev kept_bytes : Option Bytes → Bytes
kept_bytes none = []
kept_bytes (some b) = b

abbrev cached : Option Bytes → Result Reader
cached none = err not_exist
cached (some b) = ok (record { chunks = b ∷ []; fault = none })

abbrev cache : Os
cache = record {
  State = Option Bytes;
  mkdir_all = λ p s. (none, s);
  create = λ p s. (none, some []);
  append = λ p b s. (none, some (kept_bytes s ++ b));
  open_file = λ p s. cached s;
}

append_kept :
    (s : Option Bytes) (b c : Bytes) → s ≡ some b → some (kept_bytes s ++ c) ≡ some (b ++ c)
append_kept s b c e = rw e refl

abbrev cache_disk : Disk cache
cache_disk = record {
  file = λ p s. s;
  file-create = λ p s h. refl;
  file-append = λ p b c s e h. append_kept s b c e;
  open_file-file = λ p b s e. (record { chunks = b ∷ []; fault = none }, ap cached e, append-nil b);
}

abbrev stat_cache : FilePath → Option Bytes → Option Error
stat_cache p none = some not_exist
stat_cache p (some b) = none

stat_cache_file : (p : FilePath) (b : Bytes) (s : Option Bytes) → s ≡ some b → stat_cache p s ≡ none
stat_cache_file p b s e = rw e refl

abbrev broken_download : Download
broken_download = record {
  status = 200;
  body = record { chunks = (1 ∷ 2 ∷ []) ∷ []; fault = some canceled };
}

abbrev slow_web : Web
slow_web = record { new_request = λ u. none; get = λ u. ok broken_download }

fetch_archive_with_caching-twice_example :
    let (first, t) =
      fetch_archive_with_caching cache slow_web stat_cache (λ p. "") (at true []) both "v1" none in
    (r : Reader) × (first ≡ err (wrap "copying archive" [] canceled))
    × (fetch_archive_with_caching cache slow_web stat_cache (λ p. "") (at true []) both "v1" t
        ≡ (ok r, t))
    × (contents r.chunks ≡ 1 ∷ 2 ∷ [])
unfolding lookup
fetch_archive_with_caching-twice_example =
    fetch_archive_with_caching-twice cache slow_web stat_cache (λ p. "") cache_disk (at true [])
      both "v1" (info "v1") broken_download canceled none stat_cache_file (λ p b s. refl) refl refl
      refl refl refl refl
