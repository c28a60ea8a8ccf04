-- ===== src/Cluster/Docker/Laws.antt =====
-- The containers of a Docker cluster over its life.
use clustertest.Prelude.{
  ◌≡◌, ◌≢◌, refl, ap, ◌∙◌, ℕ, String, List, [], ◌∷◌, ◌++◌, Option, none, some, Error, ok, length,
  Option-cases, inl, inr, arith,
}
use clustertest.Cluster as Iface
use clustertest.Cluster.Grow.{Grown, grow, NumberedFrom, NumberedFrom-append, Made, grow-Made}
use clustertest.Cluster.Docker.{
  Host, Node, Cluster, container_name, ensure_image_pulled, client_node, run_container, make_node,
  from_grown, new_nodes, stop_all, cleanup,
}

-- The node of an ID in a cluster whose containers' names have this prefix.
abbrev pub IsNodeOf : {C : Type 0} → String → ℕ → Node C → Type 0
IsNodeOf prefix id node = (node.id ≡ id) × (node.container_name ≡ container_name prefix id)

-- The IDs are 0, 1, … in order, and each container's name is that of its ID.
abbrev pub IsNumbered : {K C : Type 0} → Cluster K C → Type 0
IsNumbered c = NumberedFrom (IsNodeOf c.container_prefix) 0 c.nodes

module _ {K : Type 0} (H : Host K) where
  -- The pull changes nothing of a cluster but the flag.
  ensure_image_pulled-keeps :
      (c : Cluster K H.Client) (s : H.State)
      → let d = (ensure_image_pulled H c s).0.1 in
        (d.nodes ≡ c.nodes) × (d.container_prefix ≡ c.container_prefix)
  unfolding ensure_image_pulled
  ensure_image_pulled-keeps c s = ground arith

  -- Once the image has been pulled with no error, no further call pulls it or does anything else on
  -- the host.
  pub ensure_image_pulled-once :
      (c : Cluster K H.Client) (s t : H.State)
      → (ensure_image_pulled H c s).0.0 ≡ none
      → ensure_image_pulled H (ensure_image_pulled H c s).0.1 t
        ≡ ((none, (ensure_image_pulled H c s).0.1), t)
  unfolding ensure_image_pulled
  ensure_image_pulled-once c s t h = ground arith

  client_node-IsNodeOf :
      (c : Cluster K H.Client) (id port : ℕ) (container : String) (node : Node H.Client)
      → client_node H c id port container ≡ ok node
      → IsNodeOf c.container_prefix id node
  unfolding client_node
  client_node-IsNodeOf c id port container node h = ground arith

  run_container-IsNodeOf :
      (c : Cluster K H.Client) (id port : ℕ) (s : H.State) (node : Node H.Client)
      → (run_container H c id port s).0 ≡ ok node
      → IsNodeOf c.container_prefix id node
  unfolding run_container
  run_container-IsNodeOf c id port s node h = ground arith

  make_node-IsNodeOf :
      (c : Cluster K H.Client) (id : ℕ) (s : H.State) (node : Node H.Client)
      → (make_node H c id s).0 ≡ ok node
      → IsNodeOf c.container_prefix id node
  unfolding make_node
  make_node-IsNodeOf c id s node h = ground arith

  -- The client of a node is made from the cluster's certificates, for the node's port on the loopback
  -- address.
  abbrev pub IsClientOf : Cluster K H.Client → Node H.Client → Type 0
  IsClientOf c node = H.new_client c.certs "127.0.0.1" node.host_port 100 ≡ ok node.agent_client

  client_node-IsClientOf :
      (c : Cluster K H.Client) (id port : ℕ) (container : String) (node : Node H.Client)
      → client_node H c id port container ≡ ok node
      → IsClientOf c node
  unfolding client_node
  client_node-IsClientOf c id port container node h = ground arith

  run_container-IsClientOf :
      (c : Cluster K H.Client) (id port : ℕ) (s : H.State) (node : Node H.Client)
      → (run_container H c id port s).0 ≡ ok node
      → IsClientOf c node
  unfolding run_container
  run_container-IsClientOf c id port s node h = ground arith

  pub make_node-IsClientOf :
      (c : Cluster K H.Client) (id : ℕ) (s : H.State) (node : Node H.Client)
      → (make_node H c id s).0 ≡ ok node
      → IsClientOf c node
  unfolding make_node
  make_node-IsClientOf c id s node h = ground arith

  -- The nodes that a cluster has after the loop of `NewNodes`.
  Made-nodes :
      (n : ℕ) (c d : Cluster K H.Client) (g : Grown (Node H.Client) H.State)
      → (d.nodes ≡ c.nodes) × (d.container_prefix ≡ c.container_prefix)
      → Made
          (make_node H d)
          (IsNodeOf d.container_prefix)
          (make_node-IsNodeOf d)
          n
          (length d.nodes)
          []
          d.nodes
          g
      → IsNumbered c
      → NumberedFrom (IsNodeOf c.container_prefix) 0 g.nodes
  Made-nodes n c d g (same, prefix) m h = rw m.kept (
      NumberedFrom-append (IsNodeOf c.container_prefix) 0 (length d.nodes) d.nodes m.made
        (omega arith) (rw same h) (rw (← prefix) m.ids))

  -- The two outcomes of the pull.
  new_nodes_refused :
      (n : ℕ) (c : Cluster K H.Client) (s : H.State) (x : Error)
      → (ensure_image_pulled H c s).0.0 ≡ some x
      → ((new_nodes H n c s).cluster ≡ (ensure_image_pulled H c s).0.1)
        × ((new_nodes H n c s).error ≢ none)
  unfolding new_nodes
  new_nodes_refused n c s x e = rw (e, new_nodes) (refl, λ h. cc)

  new_nodes_grown :
      (n : ℕ) (c : Cluster K H.Client) (s : H.State)
      → (ensure_image_pulled H c s).0.0 ≡ none
      → let d = (ensure_image_pulled H c s).0.1 in
        new_nodes H n c s
        ≡ from_grown H d
            (grow (make_node H d) n (length d.nodes) [] d.nodes (ensure_image_pulled H c s).1)
  unfolding new_nodes
  new_nodes_grown n c s e = rw (e, new_nodes) refl

  -- `NewNodes` keeps the nodes of the cluster in order, with the IDs 0, 1, …, each with the container
  -- name of its ID, whether it succeeds or fails.
  pub new_nodes-IsNumbered :
      (n : ℕ) (c : Cluster K H.Client) (s : H.State)
      → IsNumbered c
      → IsNumbered (new_nodes H n c s).cluster
  unfolding from_grown
  new_nodes-IsNumbered n c s h =
      let d = (ensure_image_pulled H c s).0.1 in
      let keeps = ensure_image_pulled-keeps c s in
      elim (Option-cases (ensure_image_pulled H c s).0.0) [
        | inl e ↦ rw (new_nodes_grown n c s e) (
            rw keeps.1 (
              Made-nodes n c d _ keeps
                (grow-Made (make_node H d) (IsNodeOf d.container_prefix) (make_node-IsNodeOf d) n
                  (length d.nodes) [] d.nodes _)
                h))
        | inr (x, e) ↦ rw ((new_nodes_refused n c s x e).0) (rw (keeps.0, keeps.1) h)
      ]

  Made-added :
      (n : ℕ) (c d : Cluster K H.Client) (g : Grown (Node H.Client) H.State)
      → d.nodes ≡ c.nodes
      → Made
          (make_node H d)
          (IsNodeOf d.container_prefix)
          (make_node-IsNodeOf d)
          n
          (length d.nodes)
          []
          d.nodes
          g
      → g.error ≡ none
      → (length g.new_nodes ≡ n) × (g.nodes ≡ c.nodes ++ g.new_nodes)
  Made-added n c d g same m e =
      let (count, all) = m.all e in (rw all count, m.kept ∙ rw (same, all) refl)

  -- When `NewNodes` returns no error it returns `n` nodes, and these are what it has added to the
  -- cluster.
  pub new_nodes-added :
      (n : ℕ) (c : Cluster K H.Client) (s : H.State)
      → (new_nodes H n c s).error ≡ none
      → (length (new_nodes H n c s).new ≡ n)
        × ((new_nodes H n c s).cluster.nodes ≡ c.nodes ++ (new_nodes H n c s).new)
  unfolding from_grown
  new_nodes-added n c s h =
      let d = (ensure_image_pulled H c s).0.1 in
      elim (Option-cases (ensure_image_pulled H c s).0.0) [
        | inl e ↦ rw (new_nodes_grown n c s e) (
            Made-added n c d _ (ensure_image_pulled-keeps c s).0
              (grow-Made (make_node H d) (IsNodeOf d.container_prefix) (make_node-IsNodeOf d) n
                (length d.nodes) [] d.nodes _)
              (rw (new_nodes_grown n c s e) at h))
        | inr (x, e) ↦ absurd ((new_nodes_refused n c s x e).1 h)
      ]

  -- The host after each container was stopped in turn.
  unfoldable pub stop_each : List (Node H.Client) → H.State → H.State
  stop_each [] s = s
  stop_each (n ∷ nodes) s = stop_each nodes (H.container_stop n.container_id s).1

  -- How `Cleanup` ends: every container was stopped, or the first that could not be ended it.
  abbrev pub Stopped : List (Node H.Client) → H.State → Option Error → H.State → Type 0
  Stopped nodes s none t = t ≡ stop_each nodes s
  Stopped nodes s (some x) t =
      (before : List (Node H.Client)) × (n : Node H.Client) × (after : List (Node H.Client))
      × (nodes ≡ before ++ n ∷ after)
      × ((H.container_stop n.container_id (stop_each before s)).0 ≢ none)
      × (t ≡ stop_each (before ++ (n ∷ [])) s)

  Stopped-cons :
      (n : Node H.Client) (nodes : List (Node H.Client)) (s : H.State) (e : Option Error)
      (t : H.State)
      → Stopped nodes (H.container_stop n.container_id s).1 e t
      → Stopped (n ∷ nodes) s e t
  unfolding stop_each
  Stopped-cons n nodes s none t h = h
  Stopped-cons n nodes s (some x) t (before, m, after, e, f, r) =
      (n ∷ before, m, after, ap (λ l. n ∷ l) e, f, r)

  stop_all-Stopped :
      (nodes : List (Node H.Client)) (s : H.State)
      → Stopped nodes s (stop_all H nodes s).0 (stop_all H nodes s).1
  unfolding stop_all stop_each
  stop_all-Stopped [] s = refl
  stop_all-Stopped (n ∷ nodes) s = elim (Option-cases (H.container_stop n.container_id s).0) [
    | inl e ↦ rw (e, stop_all) (Stopped-cons n nodes s _ _ (stop_all-Stopped nodes _))
    | inr (x, e) ↦ rw (e, stop_all) ([], n, nodes, refl, λ h. cc, refl)
  ]

-- `Cleanup` stops every container in turn and returns no error, or it stops those before one that
-- cannot be stopped, returns an error, and leaves those after it as they are.
pub cleanup-Stopped :
    {K : Type 0} (H : Host K) (c : Cluster K H.Client) (s : H.State)
    → Stopped H c.nodes s (cleanup H c s).0 (cleanup H c s).1
unfolding cleanup
cleanup-Stopped H c s = stop_all-Stopped H c.nodes s

-- `NewNodes` returns the same nodes and the same error whatever comes of the wait for their agents.
pub new_nodes-any_wait :
    {K : Type 0} (H : Host K) (wait : H.Client → H.State → Option Error × H.State) (n : ℕ)
    (c : Cluster K H.Client) (s : H.State)
    → ((new_nodes (record H { wait_for_server = wait }) n c s).new ≡ (new_nodes H n c s).new)
      × ((new_nodes (record H { wait_for_server = wait }) n c s).error ≡ (new_nodes H n c s).error)
unfolding new_nodes
new_nodes-any_wait H wait n c s = elim (Option-cases (ensure_image_pulled H c s).0.0) [
  | inl e ↦ rw (e, new_nodes) (refl, refl)
  | inr (x, e) ↦ rw (e, new_nodes) (refl, refl)
]

-- `docker.Cluster` as an implementation of the interface.
abbrev pub docker_cluster : {K : Type 0} → Host K → Iface.Cluster
docker_cluster {K} H = record {
  State = Cluster K H.Client × H.State;
  Node = Node H.Client;
  new_nodes = λ n s. let o = new_nodes H n s.0 s.1 in ((o.new, o.error), (o.cluster, o.world));
  cleanup = λ s. let (e, t) = cleanup H s.0 s.1 in (e, (s.0, t));
}

pub docker_cluster-IsLawful : {K : Type 0} (H : Host K) → Iface.IsLawful (docker_cluster H)
docker_cluster-IsLawful H = record { length-new_nodes = λ n s e. (new_nodes-added H n s.0 s.1 e).0 }
