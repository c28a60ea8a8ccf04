-- ===== src/Cluster.antt =====
-- cluster/cluster.go, cluster/node.go and cluster/basic.go: the interface that a cluster
-- implements, and the wrapper that adds convenience to it.
pub mod Grow
pub mod Startup
pub mod Local
pub mod Docker
pub mod Aws
pub mod Basic
pub mod Nodes
pub mod Laws
mod Tests
use clustertest.Prelude.{
  ◌≡◌, ℕ, ℤ, negsuc, is_zero, String, Bool, true, false, List, [], ◌∷◌, map, Option, none, some,
  Error, wrap, int, Result, ok, err, length, if◌then◌else◌,
}
use clustertest.Process.Types.{CmdResult}
use clustertest.Paths.{FilePath, at}

-- `cluster.Cluster`, with the state that its methods change.
pub record Cluster : Type 1 where
  pub State : Type 0
  pub Node : Type 0
  pub new_nodes : ℕ → State → (List Node × Option Error) × State
  pub cleanup : State → Option Error × State

-- What the interface promises of `NewNodes`: without an error it returns as many nodes as asked.
pub record IsLawful (C : Cluster) : Type 0 where
  pub length-new_nodes :
      (n : ℕ) (s : C.State) → (C.new_nodes n s).0.1 ≡ none → length (C.new_nodes n s).0.0 ≡ n

-- `BasicNode`: a node with a logger's name.
pub record BasicNode (N : Type 0) : Type 0 where
  pub node : N
  pub log : String

-- What `NewNode` gives; `index_panic` is the index out of range of `nodes[0]`.
pub data Created (N : Type 0) : Type 0 where
  created : BasicNode N → Created N
  refused : Error → Created N
  index_panic : Created N

abbrev pub basic_node : {N : Type 0} → N → BasicNode N
basic_node n = record { node = n; log = "basic_node" }

unfoldable pub first_node : {N : Type 0} → List (BasicNode N) → Option Error → Created N
first_node nodes (some e) = refused e
first_node [] none = index_panic
first_node (b ∷ nodes) none = created (record { node = b.node; log = "basic_node" })

module _ (C : Cluster) where
  -- `BasicCluster.NewNodes`: the nodes are wrapped also when there is an error.
  unfoldable pub new_nodes : ℕ → C.State → (List (BasicNode C.Node) × Option Error) × C.State
  new_nodes n s = let ((nodes, e), t) = C.new_nodes n s in ((map basic_node nodes, e), t)

  -- `BasicCluster.NewNode`
  unfoldable pub new_node : C.State → Created C.Node × C.State
  unfolding first_node new_nodes
  new_node s = let ((nodes, e), t) = new_nodes 1 s in (first_node nodes e, t)

-- The `%w` of a nil error is formatted, so it wraps nothing.
exit_error : CmdResult → Error
exit_error r = elim r.error [
  | none ↦ Error.errorf "non-zero exit code" (int r.code ∷ [])
  | some e ↦ wrap "non-zero exit code" (int r.code ∷ []) e
]

-- `BasicNode.Run`: `proc` is what `StartProc` gives, a process being what its `Wait` will return.
unfoldable pub run : Result CmdResult → ℤ × Option Error
unfolding exit_error
run (err e) = (negsuc 0, some e)
run (ok r) = if is_zero r.code then (r.code, none) else (negsuc 0, some (exit_error r))

-- `BasicNode.RootDir`: a node may have a method of that name.
unfoldable pub root_dir : Option FilePath → FilePath
root_dir none = at true []
root_dir (some dir) = dir
