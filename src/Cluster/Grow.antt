-- ===== src/Cluster/Grow.antt =====
-- The loop by which cluster/local/cluster.go and cluster/docker/cluster.go add nodes to a cluster:
-- the node of each new ID is made, and appended to the result and to the cluster.
use clustertest.Prelude.{
  ◌≡◌, refl, sym, ap, subst, ◌≢◌, ◌≤◌, ◌∙◌, ℕ, zero, suc, ◌+◌, List, [], ◌∷◌, ◌++◌, Option, none,
  some, Error, Result, ok, err, length, append-nil, append_assoc, Result-cases, inl, inr, arith,
}

-- What the loop leaves: what it returns, the cluster's nodes, and the world that it acts on.
pub record Grown (N S : Type 0) : Type 0 where
  pub new_nodes : List N
  pub error : Option Error
  pub nodes : List N
  pub world : S

module _ {N S : Type 0} (make : ℕ → S → Result N × S) where
  -- `rounds` more nodes, the first with the ID `id`. An error ends the loop and returns no node.
  unfoldable pub grow : ℕ → ℕ → List N → List N → S → Grown N S
  grow zero id new nodes s = record { new_nodes = new; error = none; nodes = nodes; world = s }
  grow (suc rounds) id new nodes s = elim (make id s).0 [
    | err e ↦ record { new_nodes = []; error = some e; nodes = nodes; world = (make id s).1 }
    | ok node ↦ grow rounds (id + 1) (new ++ (node ∷ [])) (nodes ++ (node ∷ [])) (make id s).1
  ]

-- `P` relates the numbers from `id` on to the nodes, in order.
abbrev pub NumberedFrom : {N : Type 0} → (ℕ → N → Type 0) → ℕ → List N → Type 0
NumberedFrom P id [] = Unit
NumberedFrom P id (x ∷ l) = P id x × NumberedFrom P (id + 1) l

pub NumberedFrom-append :
    {N : Type 0} (P : ℕ → N → Type 0) (id j : ℕ) (k l : List N)
    → j ≡ id + length k
    → NumberedFrom P id k
    → NumberedFrom P j l
    → NumberedFrom P id (k ++ l)
NumberedFrom-append P id j [] l e h g =
    let same : j ≡ id = omega arith in subst (λ i. NumberedFrom P i l) same g
NumberedFrom-append P id j (x ∷ k) l e h g =
    (h.0, NumberedFrom-append P (id + 1) j k l (omega arith) h.1 g)

module _ {N S : Type 0} (make : ℕ → S → Result N × S) (P : ℕ → N → Type 0)
    (numbered : (id : ℕ) (s : S) (node : N) → (make id s).0 ≡ ok node → P id node) where
  -- What the loop has made.
  pub record Made (rounds id : ℕ) (new nodes : List N) (g : Grown N S) : Type 0 where
    pub made : List N
    pub ids : NumberedFrom P id made
    pub fits : length made ≤ rounds
    pub kept : g.nodes ≡ nodes ++ made
    pub all : g.error ≡ none → (length made ≡ rounds) × (g.new_nodes ≡ new ++ made)
    pub nothing : g.error ≢ none → g.new_nodes ≡ []

  pub grow-Made :
      (rounds id : ℕ) (new nodes : List N) (s : S)
      → Made rounds id new nodes (grow make rounds id new nodes s)
  unfolding grow
  grow-Made zero id new nodes s = record {
    made = [];
    ids = tt;
    fits = omega arith;
    kept = sym (append-nil nodes);
    all = λ _. (refl, sym (append-nil new));
    nothing = λ h. absurd (h refl);
  }
  grow-Made (suc rounds) id new nodes s = elim (Result-cases (make id s).0) [
    | inl (node, h) ↦
        let rest =
          grow-Made rounds (id + 1) (new ++ (node ∷ [])) (nodes ++ (node ∷ [])) (make id s).1 in
        rw (h, grow)
          (record {
            made = node ∷ rest.made;
            ids = (numbered id s node h, rest.ids);
            fits = omega (arith, rest.fits);
            kept = rest.kept ∙ append_assoc nodes (node ∷ []) rest.made;
            all = λ x.
                let (count, same) = rest.all x in
                (ap suc count, same ∙ append_assoc new (node ∷ []) rest.made);
            nothing = rest.nothing;
          })
    | inr (e, h) ↦
        rw (h, grow)
          (record {
            made = [];
            ids = tt;
            fits = omega arith;
            kept = sym (append-nil nodes);
            all = λ x. cc;
            nothing = λ x. refl;
          })
  ]
