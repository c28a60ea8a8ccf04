-- ===== src/Kubo/Nodes.antt =====
-- examples/kubo/kubo.go: `NewNode` with its options, and the `NewNodes` of a cluster of Kubo nodes.
use clustertest.Prelude.{
  subst, ◌≡◌, refl, ap, ◌∙◌, ℕ, suc, String, false, List, [], ◌∷◌, map, length, Option, none, some,
  Error, Result, ok, err, ◌>>=◌, str_eq, if◌then◌else◌, arith, All, Bool-cases, inl, inr,
}
use clustertest.Cluster.Laws.{length-map_basic}
use clustertest.Cluster.{Cluster, IsLawful, BasicNode, new_nodes, basic_node}

-- `Node`, without what it caches; `log` is the name of its logger, if it has one.
pub record KuboNode (N : Type 0) : Type 0 where
  pub node : BasicNode N
  pub version : String
  pub log : Option String

abbrev apply : {N : Type 0} → List (KuboNode N → KuboNode N) → KuboNode N → KuboNode N
apply [] kn = kn
apply (o ∷ opts) kn = apply opts (o kn)

-- `WithNodeLogger`; the name is that of the logger which `Named` gives.
abbrev pub with_node_logger : {N : Type 0} → String → KuboNode N → KuboNode N
with_node_logger name kn = record kn { log = some name }

-- `WithKuboVersion`
abbrev pub with_kubo_version : {N : Type 0} → String → KuboNode N → KuboNode N
with_kubo_version version kn = record kn { version = version }

-- The default logger, with the error that zap gives.
abbrev with_default_log :
    {N : Type 0} → Option Error → Option String → KuboNode N → Result (KuboNode N)
with_default_log fault (some name) kn = ok kn
with_default_log (some e) none kn = err e
with_default_log none none kn = ok (with_node_logger "kubo_node" kn)

abbrev with_default_version : {N : Type 0} → KuboNode N → KuboNode N
with_default_version kn = if str_eq kn.version "" then with_kubo_version "v0.17.0" kn else kn

-- `NewNode`
unfoldable pub new_kubo_node :
    {N : Type 0} → Option Error → List (KuboNode N → KuboNode N) → BasicNode N → Result (KuboNode N)
new_kubo_node fault opts node =
    let kn = apply opts (record { node = node; version = ""; log = none }) in
    with_default_log fault kn.log kn >>= λ k. ok (with_default_version k)

-- The loop of `Cluster.NewNodes`.
unfoldable pub new_kubo_each :
    {N : Type 0}
    → Option Error
    → List (KuboNode N → KuboNode N)
    → List (BasicNode N)
    → Result (List (KuboNode N))
unfolding new_kubo_node
new_kubo_each fault opts [] = ok []
new_kubo_each fault opts (n ∷ nodes) =
    let rest = new_kubo_each fault opts nodes in
    new_kubo_node fault opts n >>= λ kn. rest >>= λ l. ok (kn ∷ l)

module _ (C : Cluster) where
  abbrev each_or_error :
      Option Error
      → List (KuboNode C.Node → KuboNode C.Node)
      → List (BasicNode C.Node)
      → Option Error
      → Result (List (KuboNode C.Node))
  each_or_error fault opts nodes (some e) = err e
  each_or_error fault opts nodes none = new_kubo_each fault opts nodes

  -- `Cluster.NewNodes`
  unfoldable pub new_kubo_nodes :
      Option Error
      → List (KuboNode C.Node → KuboNode C.Node)
      → ℕ
      → C.State
      → Result (List (KuboNode C.Node)) × C.State
  unfolding new_kubo_each new_nodes
  new_kubo_nodes fault opts n s =
      let ((nodes, e), t) = new_nodes C n s in (each_or_error fault opts nodes e, t)

-- A version that is not the empty text.
abbrev pub HasVersion : {N : Type 0} → KuboNode N → Type 0
HasVersion kn = str_eq kn.version "" ≡ false

with_default_version-HasVersion :
    {N : Type 0} (kn : KuboNode N) → HasVersion (with_default_version kn)
with_default_version-HasVersion kn = elim (Bool-cases (str_eq kn.version "")) [
  | inl e ↦ rw e refl
  | inr e ↦ rw e e
]

default_version_ok :
    {N : Type 0} (r : Result (KuboNode N)) (kn : KuboNode N)
    → (r >>= λ k. ok (with_default_version k)) ≡ ok kn
    → HasVersion kn
default_version_ok (ok k) kn e =
    let same : with_default_version k ≡ kn = ground arith in
    subst (λ x. HasVersion x) same (with_default_version-HasVersion k)
default_version_ok (err x) kn e = absurd (ground arith)

new_kubo_node_ok :
    {N : Type 0} (fault : Option Error) (opts : List (KuboNode N → KuboNode N)) (n : BasicNode N)
    (kn : KuboNode N)
    → new_kubo_node fault opts n ≡ ok kn
    → HasVersion kn
unfolding new_kubo_node
new_kubo_node_ok fault opts n kn e =
    default_version_ok
      (with_default_log fault (apply opts (record { node = n; version = ""; log = none })).log
        (apply opts (record { node = n; version = ""; log = none })))
      kn e

bind_ok :
    {A : Type 0} (r : Result A) (q : Result (List A)) (out : List A)
    → (r >>= λ a. q >>= λ l. ok (a ∷ l)) ≡ ok out
    → (a : A) × (l : List A) × (r ≡ ok a) × (q ≡ ok l) × (out ≡ a ∷ l)
bind_ok (ok a) (ok l) out e = (a, l, refl, refl, ground arith)
bind_ok (ok a) (err x) out e = absurd (ground arith)
bind_ok (err x) q out e = absurd (ground arith)

new_kubo_each_ok :
    {N : Type 0} (fault : Option Error) (opts : List (KuboNode N → KuboNode N))
    (nodes : List (BasicNode N)) (kns : List (KuboNode N))
    → new_kubo_each fault opts nodes ≡ ok kns
    → (length kns ≡ length nodes) × All HasVersion kns
unfolding new_kubo_each
new_kubo_each_ok fault opts [] kns e = let same : kns ≡ [] = ground arith in rw same (refl, tt)
new_kubo_each_ok fault opts (n ∷ nodes) kns e =
    let (kn, l, one, more, same) =
      bind_ok (new_kubo_node fault opts n) (new_kubo_each fault opts nodes) kns e in
    let (many, all) = new_kubo_each_ok fault opts nodes l more in
    rw same (ap suc many, (new_kubo_node_ok fault opts n kn one, all))

module _ (C : Cluster) where
  each_ok :
      (fault : Option Error) (opts : List (KuboNode C.Node → KuboNode C.Node))
      (nodes : List (BasicNode C.Node)) (e : Option Error) (kns : List (KuboNode C.Node))
      → each_or_error C fault opts nodes e ≡ ok kns
      → (e ≡ none) × (length kns ≡ length nodes) × All HasVersion kns
  each_ok fault opts nodes (some x) kns h = absurd (ground arith)
  each_ok fault opts nodes none kns h =
      let (many, all) = new_kubo_each_ok fault opts nodes kns h in (refl, many, all)

  -- Over a cluster whose `NewNodes` keeps its promise, if the `NewNodes` of Kubo nodes returns no error
  -- then it returns `n` nodes, each with a version.
  pub new_kubo_nodes-HasVersion :
      (lawful : IsLawful C) (fault : Option Error) (opts : List (KuboNode C.Node → KuboNode C.Node))
      (n : ℕ) (s : C.State) (kns : List (KuboNode C.Node))
      → (new_kubo_nodes C fault opts n s).0 ≡ ok kns
      → (length kns ≡ n) × All HasVersion kns
  unfolding new_kubo_nodes new_nodes
  new_kubo_nodes-HasVersion lawful fault opts n s kns e =
      let made = C.new_nodes n s in
      let (fine, many, all) = each_ok fault opts (map basic_node made.0.0) made.0.1 kns e in
      (many ∙ length-map_basic made.0.0 ∙ lawful.length-new_nodes n s fine, all)
