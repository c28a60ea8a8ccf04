-- ===== src/Kubo/Versions.antt =====
-- examples/kubo/kubo_versions.go: `FetchVersions`, whose goroutines fill one map.
use clustertest.Prelude.{
  ◌≡◌, refl, ap, sym, ◌∙◌, String, ◌<>◌, Bool, true, false, List, [], ◌∷◌, Option, none, some,
  Result, ok, err, ◌>>=◌, str_eq, eq_iff, if◌then◌else◌, arith, Result-cases, Bool-cases, inl, inr,
  ◌⊎◌, ◌||◌, subst,
}

pub record VersionInfo : Type 0 where
  pub url : String
  pub cid : String

-- The part of a version's `dist.json` that is used, that of linux and amd64. What the document lacks
-- is the empty string.
pub record Arch : Type 0 where
  pub link : String
  pub cid : String

abbrev pub VersionMap : Type 0
VersionMap = List (String × VersionInfo)

unfoldable pub lookup : String → VersionMap → Option VersionInfo
lookup v [] = none
lookup v ((w, info) ∷ m) = if str_eq w v then some info else lookup v m

unfoldable pub insert : String → VersionInfo → VersionMap → VersionMap
insert v info [] = (v, info) ∷ []
insert v info ((w, old) ∷ m) = if str_eq w v then (v, info) ∷ m else (w, old) ∷ insert v info m

-- The site: the lines of the list of versions, trimmed, and the document of a version.
pub record Dist : Type 0 where
  pub versions : Result (List String)
  pub dist_json : String → Result Arch

abbrev pub info_of : String → Arch → VersionInfo
info_of version arch = record {
  url = "https://dist.ipfs.tech/kubo/" <> version <> arch.link;
  cid = arch.cid;
}

-- Is the version one of these?
unfoldable pub contains : String → List String → Bool
contains v [] = false
contains v (w ∷ vs) = str_eq w v || contains v vs

if_or :
    {A : Type 0} (a b : Bool) (x y : A)
    → (if b then x else (if a then x else y)) ≡ (if a || b then x else y)
if_or true true x y = refl
if_or true false x y = refl
if_or false true x y = refl
if_or false false x y = refl

module _ (D : Dist) where
  -- The goroutine of a version: its last action, under the mutex, is the write to the map.
  unfoldable pub fetch_version : String → VersionMap → Result VersionMap
  fetch_version version m =
      D.dist_json version >>= λ arch. ok (insert version (info_of version arch) m)

  -- The goroutines in the order in which they write. The first error is the group's.
  unfoldable pub fetch_all : List String → VersionMap → Result VersionMap
  unfolding fetch_version
  fetch_all [] m = ok m
  fetch_all (v ∷ order) m = fetch_version v m >>= fetch_all order

  -- `FetchVersions`: `schedule` is the order in which the goroutines of the listed versions end.
  unfoldable pub fetch_versions : (List String → List String) → Result VersionMap
  unfolding fetch_all
  fetch_versions schedule = D.versions >>= λ vs. fetch_all (schedule vs) []

  lookup-insert :
      (v w : String) (info : VersionInfo) (m : VersionMap)
      → lookup v (insert w info m) ≡ (if str_eq w v then some info else lookup v m)
  unfolding lookup insert
  lookup-insert v w info [] = refl
  lookup-insert v w info ((u, old) ∷ m) =
      ground (arith, eq_iff u v, eq_iff u w, eq_iff w v, lookup-insert v w info m)

  -- What the site publishes of a version.
  abbrev pub info_in : String → Result Arch → Option VersionInfo
  info_in v (ok arch) = some (info_of v arch)
  info_in v (err e) = none

  abbrev pub published : String → Option VersionInfo
  published v = info_in v (D.dist_json v)

  fetch_version_ok :
      (v : String) (m m' : VersionMap)
      → fetch_version v m ≡ ok m'
      → (arch : Arch) × (D.dist_json v ≡ ok arch) × (m' ≡ insert v (info_of v arch) m)
  unfolding fetch_version
  fetch_version_ok v m m' e = elim (Result-cases (D.dist_json v)) [
    | inl (arch, h) ↦ (arch, h, ground arith)
    | inr (x, h) ↦ absurd (ground arith)
  ]

  lookup-fetch_version :
      (v w : String) (m m' : VersionMap)
      → fetch_version w m ≡ ok m'
      → lookup v m' ≡ (if str_eq w v then published v else lookup v m)
  lookup-fetch_version v w m m' e =
      let (arch, h, same) = fetch_version_ok w m m' e in
      rw same (lookup-insert v w (info_of w arch) m ∙ by_test (Bool-cases (str_eq w v)) arch h)
    where
      by_test :
          ((str_eq w v ≡ true) ⊎ (str_eq w v ≡ false))
          → (arch : Arch) → D.dist_json w ≡ ok arch
          → (if str_eq w v then some (info_of w arch) else lookup v m)
            ≡ (if str_eq w v then published v else lookup v m)
      by_test (inl t) arch h = rw t (
          subst (λ u. some (info_of w arch) ≡ info_in u (D.dist_json u)) ((eq_iff w v).0 t)
            (rw h refl))
      by_test (inr f) arch h = rw f refl

  lookup-fetch_all :
      (v : String) (order : List String) (m m' : VersionMap)
      → fetch_all order m ≡ ok m'
      → lookup v m' ≡ (if contains v order then published v else lookup v m)
  unfolding fetch_all contains
  lookup-fetch_all v [] m m' e = ap (lookup v) (sym (ground arith))
  lookup-fetch_all v (w ∷ order) m m' e = elim (Result-cases (fetch_version w m)) [
    | inl (next, h) ↦
        lookup-fetch_all v order next m' (rw h at e)
        ∙ ap (λ x. if contains v order then published v else x) (lookup-fetch_version v w m next h)
        ∙ if_or (str_eq w v) (contains v order) (published v) (lookup v m)
    | inr (x, h) ↦ absurd (ground (arith, rw h at e))
  ]

  -- If `FetchVersions` gives a map then the map has for a version what the site publishes of it if the
  -- list of versions names it, and else nothing, in whatever order the goroutines wrote, of which each
  -- listed version had one.
  pub lookup-fetch_versions :
      (schedule : List String → List String) (vs : List String) (v : String) (m : VersionMap)
      → D.versions ≡ ok vs
      → contains v (schedule vs) ≡ contains v vs
      → fetch_versions schedule ≡ ok m
      → lookup v m ≡ (if contains v vs then published v else none)
  unfolding fetch_versions lookup
  lookup-fetch_versions schedule vs v m listed same e =
      subst (λ b. lookup v m ≡ (if b then published v else none)) same
        (lookup-fetch_all v (schedule vs) [] m (rw listed at e))
