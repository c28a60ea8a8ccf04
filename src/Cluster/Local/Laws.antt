-- ===== src/Cluster/Local/Laws.antt =====
-- The nodes of a local cluster over its life.
use clustertest.Prelude.{
  ◌≡◌, refl, sym, ap, ◌∙◌, subst, append-nil, ℕ, ◌≤◌, List, [], ◌++◌, Option, none, some, Error,
  Result, ok, err, length, itoa, arith,
}
use clustertest.Paths.{FilePath, join}
use clustertest.Files.{ReadDir, Found, found, absent, panicked, out_of_fuel, find_up}
use clustertest.Cluster.Grow.{Grown, grow, NumberedFrom, NumberedFrom-append, Made, grow-Made}
use clustertest.Cluster.Local.{
  Node, Cluster, Os, Outcome, returns, crashed, make_node, with_agent, new_nodes,
}

-- The node of an ID in a cluster with this directory.
abbrev pub IsNodeOf : FilePath → ℕ → Node → Type 0
IsNodeOf dir id node = (node.id ≡ id) × (node.dir ≡ join dir (itoa id))

-- The IDs are 0, 1, … in order, and each node's directory is that of its ID.
abbrev pub IsWellFormed : Cluster → Type 0
IsWellFormed c = NumberedFrom (IsNodeOf c.dir) 0 c.nodes

-- What a call of `NewNodes` may do to a cluster: with no error it returns and adds `n` nodes, with
-- the next IDs; with an error it returns none, and keeps the at most `n` nodes that it has added.
abbrev pub Grew : {S : Type 0} → ℕ → Cluster → Outcome S → Type 0
Grew n c (returns new none d s) =
    (d.dir ≡ c.dir)
    × (d.nodes ≡ c.nodes ++ new)
    × (length new ≡ n)
    × NumberedFrom (IsNodeOf c.dir) (length c.nodes) new
Grew n c (returns new (some e) d s) =
    (d.dir ≡ c.dir)
    × (new ≡ [])
    × ((made : List Node) × (d.nodes ≡ c.nodes ++ made)
        × (length made ≤ n)
        × NumberedFrom (IsNodeOf c.dir) (length c.nodes) made)
Grew n c crashed = Unit

module _ (os : Os) where
  make_node-IsNodeOf :
      (dir : FilePath) (id : ℕ) (s : os.State) (node : Node)
      → (make_node os dir id s).0 ≡ ok node
      → IsNodeOf dir id node
  unfolding make_node
  make_node-IsNodeOf dir id s node h = ground arith

  Made-Grew :
      (n : ℕ) (c : Cluster) (g : Grown Node os.State) (e : Option Error)
      → g.error ≡ e
      → Made
          (make_node os c.dir)
          (IsNodeOf c.dir)
          (make_node-IsNodeOf c.dir)
          n
          (length c.nodes)
          []
          c.nodes
          g
      → Grew n c (returns g.new_nodes e (record c { nodes = g.nodes }) g.world)
  Made-Grew n c g none e m =
      let (count, same) = m.all e in
      (refl, m.kept ∙ ap (λ l. c.nodes ++ l) (sym same), rw same count, rw same m.ids)
  Made-Grew n c g (some x) e m = (refl, m.nothing (λ h. cc), (m.made, m.kept, m.fits, m.ids))

  with_agent-Grew :
      (f : Found) (n : ℕ) (c : Cluster) (s : os.State) → Grew n c (with_agent os f n c s)
  unfolding with_agent
  with_agent-Grew (found p) n c s =
      let g = grow (make_node os c.dir) n (length c.nodes) [] c.nodes s in
      Made-Grew n c g g.error refl (
        grow-Made (make_node os c.dir) (IsNodeOf c.dir) (make_node-IsNodeOf c.dir) n
          (length c.nodes) [] c.nodes s)
  with_agent-Grew absent n c s = (refl, refl, ([], sym (append-nil _), omega arith, tt))
  with_agent-Grew panicked n c s = tt
  with_agent-Grew out_of_fuel n c s = tt

-- On every path that does not panic, `NewNodes` grows the cluster as `Grew` says.
pub new_nodes-Grew :
    (os : Os) (read_dir : ReadDir) (wd : Result FilePath) (n : ℕ) (c : Cluster) (s : os.State)
    → Grew n c (new_nodes os read_dir wd n c s)
unfolding new_nodes
new_nodes-Grew os read_dir (err e) n c s = (refl, refl, ([], sym (append-nil _), omega arith, tt))
new_nodes-Grew os read_dir (ok wd) n c s =
    with_agent-Grew os (find_up read_dir "nodeagent" wd) n c s

Grew-IsWellFormed :
    {S : Type 0} (n : ℕ) (c d : Cluster) (new : List Node) (e : Option Error) (t : S)
    → IsWellFormed c
    → Grew n c (returns new e d t)
    → IsWellFormed d
Grew-IsWellFormed n c d new none t h (same, kept, count, ids) =
    rw (same, kept)
      (NumberedFrom-append (IsNodeOf c.dir) 0 (length c.nodes) c.nodes new (omega arith) h ids)
Grew-IsWellFormed n c d new (some e) t h (same, nothing, (made, kept, fits, ids)) =
    rw (same, kept)
      (NumberedFrom-append (IsNodeOf c.dir) 0 (length c.nodes) c.nodes made (omega arith) h ids)

-- A call of `NewNodes` that returns, whether it succeeds or fails, keeps the nodes of the cluster in
-- order, with the IDs 0, 1, …, each with the directory of its ID.
pub new_nodes-IsWellFormed :
    (os : Os) (read_dir : ReadDir) (wd : Result FilePath) (n : ℕ) (c d : Cluster) (s t : os.State)
    (new : List Node) (e : Option Error)
    → IsWellFormed c
    → new_nodes os read_dir wd n c s ≡ returns new e d t
    → IsWellFormed d
new_nodes-IsWellFormed os read_dir wd n c d s t new e h r =
    Grew-IsWellFormed n c d new e t h (subst (Grew n c) r (new_nodes-Grew os read_dir wd n c s))
