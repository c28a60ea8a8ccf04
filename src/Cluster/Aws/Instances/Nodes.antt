-- ===== src/Cluster/Aws/Instances/Nodes.antt =====
-- The nodes that `NewNodes` of the AWS cluster returns.
use clustertest.Prelude.{
  Error, sym, ◌<◌, ◌≡◌, ◌≢◌, refl, ap, subst, ℕ, String, List, [], ◌∷◌, Option, none, some, Result,
  ok, err, length, map, Result-cases, inl, inr, arith,
}
use clustertest.Cluster.Aws.Polling.{Instance, wait_for_instances, Described}
use clustertest.Cluster.Aws.Instances.{
  Node, nodes_of, Aws, Cluster, configured, run_input, launched, Launch, fails, polling, first_of,
  out_of_range, new_node, from_instances, from_reservation, user_data, new_nodes, after_wait,
  heartbeats,
}
use clustertest.Cluster.Aws.Heartbeats.{wait_for_nodes_heartbeats}
use clustertest.Cluster.Aws.Heartbeats.Laws.{Heard, wait_for_nodes_heartbeats-Heard}
use clustertest.Cluster.Aws.Instances.Laws.{Settled, at_once, after, wait_for_instances-Settled}

-- The IDs of instances, and of the instances of nodes.
abbrev pub ids : List Instance → List String
ids insts = map (λ i. i.id) insts

abbrev pub node_ids : {C : Type 0} → List (Node C) → List String
node_ids nodes = map (λ n. n.instance_id) nodes

module _ (A : Aws) (c : Cluster) where
  nodes_of_more :
      (inst : Instance) (insts : List Instance) (node : Node A.Client)
      (nodes : List (Node A.Client))
      → nodes_of A.new_client c.account_id (inst ∷ insts) ≡ ok (node ∷ nodes)
      → (node.instance_id ≡ inst.id) × (nodes_of A.new_client c.account_id insts ≡ ok nodes)
  unfolding nodes_of
  nodes_of_more inst insts node nodes e = ground arith

  nodes_of-ids :
      (insts : List Instance) (nodes : List (Node A.Client))
      → nodes_of A.new_client c.account_id insts ≡ ok nodes
      → (node_ids nodes ≡ ids insts)
  unfolding nodes_of
  nodes_of-ids [] [] e = refl
  nodes_of-ids [] (node ∷ nodes) e = ground arith
  nodes_of-ids (inst ∷ insts) [] e = ground arith
  nodes_of-ids (inst ∷ insts) (node ∷ nodes) e =
      let (same, rest) = nodes_of_more inst insts node nodes e in
      rw same (ap (λ l. inst.id ∷ l) (nodes_of-ids insts nodes rest))

  from_instances_launched :
      (found : Option (Result (List Instance))) (nodes : List (Node A.Client))
      → from_instances A c found ≡ launched nodes
      → (insts : List Instance) × (found ≡ some (ok insts))
        × (nodes_of A.new_client c.account_id insts ≡ ok nodes)
  unfolding from_instances
  from_instances_launched none nodes e = ground arith
  from_instances_launched (some (err x)) nodes e = ground arith
  from_instances_launched (some (ok insts)) nodes e = (insts, refl, ground arith)

  from_reservation_launched :
      (n : ℕ) (r : Result (List Instance)) (nodes : List (Node A.Client))
      → from_reservation A c n r ≡ launched nodes
      → (insts : List Instance) × (r ≡ ok insts)
        × (length insts ≡ n)
        × (from_instances A c (wait_for_instances (length insts) (A.describe insts))
            ≡ launched nodes)
  unfolding from_reservation
  from_reservation_launched n (err x) nodes e = ground arith
  from_reservation_launched n (ok insts) nodes e = (insts, refl, ground arith, ground arith)

  new_nodes_launched :
      (n : ℕ) (nodes : List (Node A.Client))
      → new_nodes A c n ≡ launched nodes
      → (r : Result (List Instance)) × (from_reservation A c n r ≡ launched nodes)
  unfolding new_nodes
  new_nodes_launched n nodes e = elim (Result-cases (user_data A c)) [
    | inl (d, h) ↦ (
      A.run_instances (configured c.run_instances_config (run_input c n d)),
      rw (h, new_nodes) at e,
    )
    | inr (x, h) ↦ absurd (ground (arith, rw (h, new_nodes) at e))
  ]

  -- If the AWS `NewNodes` returns nodes then they are, one for one, the `n` instances of an answer
  -- of EC2 that run, and no instance of that answer was in an unexpected state.
  pub new_nodes-Settled :
      (n : ℕ) (nodes : List (Node A.Client))
      → new_nodes A c n ≡ launched nodes
      → (insts : List Instance) × (l : List Instance) × (length insts ≡ n)
        × Settled n l (A.describe insts)
        × (node_ids nodes ≡ ids l)
  new_nodes-Settled n nodes e =
      let (r, from) = new_nodes_launched n nodes e in
      let (insts, got, many, polled) = from_reservation_launched n r nodes from in
      let (l, settled, made) = from_instances_launched _ nodes polled in
      (
        insts,
        l,
        many,
        subst (λ k. Settled k l (A.describe insts)) many
            (wait_for_instances-Settled (length insts) (A.describe insts) l settled),
        nodes_of-ids l nodes made,
      )

  first_of-out_of_range : (x : Launch A.Client) → first_of x ≡ out_of_range → x ≡ launched []
  unfolding first_of
  first_of-out_of_range (launched []) e = refl
  first_of-out_of_range (launched (node ∷ nodes)) e = ground arith
  first_of-out_of_range (fails x) e = ground arith
  first_of-out_of_range polling e = ground arith

  Settled-length :
      (n : ℕ) (l : List Instance) (answers : List Described) → Settled n l answers → length l ≡ n
  Settled-length n l _ (at_once u same h) = h
  Settled-length n l _ (after {d} {answers} s) = Settled-length n l answers s

  ids_nil : (l : List Instance) → [] ≡ ids l → length l ≡ 0
  ids_nil [] e = refl
  ids_nil (inst ∷ insts) e = ground arith

  -- The AWS `NewNode` never indexes an empty slice.
  pub new_node-ne-out_of_range : new_node A c ≢ out_of_range
  unfolding new_node
  new_node-ne-out_of_range e =
      let (insts, l, many, settled, same) =
        new_nodes-Settled 1 [] (first_of-out_of_range (new_nodes A c 1) e) in
      omega (arith, Settled-length 1 l (A.describe insts) settled, ids_nil l same)

  after_wait_launched :
      (nodes out : List (Node A.Client)) (r : Option (Option Error))
      → after_wait A c nodes r ≡ launched out
      → (out ≡ nodes) × (r ≡ some none)
  unfolding after_wait
  after_wait_launched nodes out none e = ground arith
  after_wait_launched nodes out (some (some x)) e = ground arith
  after_wait_launched nodes out (some none) e = (ground arith, refl)

  heartbeats_launched :
      (nodes out : List (Node A.Client))
      → heartbeats A c nodes ≡ launched out
      → wait_for_nodes_heartbeats (length out) (A.events out) ≡ some none
  unfolding heartbeats
  heartbeats_launched nodes out e =
      let (same, waited) = after_wait_launched nodes out _ e in
      subst (λ l. wait_for_nodes_heartbeats (length l) (A.events l) ≡ some none) (sym same) waited

  from_instances_waited :
      (found : Option (Result (List Instance))) (out : List (Node A.Client))
      → from_instances A c found ≡ launched out
      → wait_for_nodes_heartbeats (length out) (A.events out) ≡ some none
  unfolding from_instances
  from_instances_waited none out e = absurd (ground arith)
  from_instances_waited (some (err x)) out e = absurd (ground arith)
  from_instances_waited (some (ok insts)) out e =
      elim (Result-cases (nodes_of A.new_client c.account_id insts)) [
        | inl (nodes, h) ↦ heartbeats_launched nodes out (rw (h, from_instances) at e)
        | inr (x, h) ↦ absurd (ground (arith, rw (h, from_instances) at e))
      ]

  -- If the AWS `NewNodes` returns nodes then each of them has answered a heartbeat with 200 before.
  pub new_nodes-Heard :
      (n : ℕ) (nodes : List (Node A.Client)) (i : ℕ)
      → new_nodes A c n ≡ launched nodes
      → i < length nodes
      → Heard i (A.events nodes)
  new_nodes-Heard n nodes i e k =
      let (r, from) = new_nodes_launched n nodes e in
      let (insts, got, many, polled) = from_reservation_launched n r nodes from in
      wait_for_nodes_heartbeats-Heard (length nodes) (A.events nodes) i
        (from_instances_waited _ nodes polled) k
