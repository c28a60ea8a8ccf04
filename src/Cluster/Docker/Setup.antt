-- ===== src/Cluster/Docker/Setup.antt =====
-- cluster/docker/cluster.go: `NewCluster` with its options, and `randString`.
use clustertest.Prelude.{
  ◌≡◌, refl, ◌∙◌, ◌⊎◌, inl, inr, ℕ, String, ◌<>◌, false, List, [], ◌∷◌, Option, none, some, Error,
  get_elem?, str_eq, Bool-cases, Result, or_wrap, fallible, All, arith, if◌then◌else◌,
}
use clustertest.Paths.{FilePath}
use clustertest.Files.{ReadDir, find_node_agent_bin}
use clustertest.Files
use clustertest.Agent.Certs.{Crypto, Certs, nil_dereference, generate_certs}
use clustertest.Cluster.Startup.{
  Setup, ready, crashes, ◌>>=◌, try, certs_of, bin_of, >>=-crashes, >>=-ready, >>=-try-crashes,
  certs_of-crashes, bin_of-crashes,
}
use clustertest.Cluster.Docker.{Host, Cluster, new_nodes}
use clustertest.Cluster.Docker.Laws.{IsNumbered, new_nodes-IsNumbered}

-- `chars`
abbrev pub chars : List String
chars =
    "a" ∷ "b" ∷ "c" ∷ "e" ∷ "f" ∷ "g" ∷ "h" ∷ "i" ∷ "j" ∷ "k" ∷ "l" ∷ "m" ∷ "n" ∷ "o" ∷ "p" ∷ "q"
    ∷ "r" ∷ "s" ∷ "t" ∷ "u" ∷ "v" ∷ "w" ∷ "x" ∷ "y" ∷ "z" ∷ "0" ∷ "1" ∷ "2" ∷ "3" ∷ "4" ∷ "5" ∷ "6"
    ∷ "7" ∷ "8" ∷ "9" ∷ []

-- The character at a position; one past the end, which `rand.Intn` never draws, gives none.
abbrev char_at : Option String → String
char_at none = ""
char_at (some c) = c

-- `randString`, with the numbers that `rand.Intn` draws.
unfoldable pub rand_string : List ℕ → String
rand_string [] = ""
rand_string (i ∷ draws) = char_at (get_elem? chars i) <> rand_string draws

-- What `NewCluster` is run with: the errors of the logger and of the Docker client, cryptography, the
-- six draws, the directories and where it runs.
pub record Surroundings : Type 1 where
  pub logger : Option Error
  pub docker_client : Option Error
  pub crypto : Crypto
  pub randomness : crypto.State
  pub draws : List ℕ
  pub show : FilePath → String
  pub read_dir : ReadDir
  pub wd : Result FilePath

-- `WithNodeAgentBin`
abbrev pub with_node_agent_bin : {K C : Type 0} → String → Cluster K C → Cluster K C
with_node_agent_bin p c = record c { node_agent_bin = p }

abbrev apply : {K C : Type 0} → List (Cluster K C → Cluster K C) → Cluster K C → Cluster K C
apply [] c = c
apply (o ∷ opts) c = apply opts (o c)

module _ (A : Surroundings) {C : Type 0} where
  -- The literal in `NewCluster`.
  abbrev pub cluster_of : String → Certs A.crypto.CaKey → Cluster A.crypto.CaKey C
  cluster_of image certs = record {
    certs = certs;
    node_agent_bin = "";
    base_image = image;
    container_prefix = rand_string A.draws;
    nodes = [];
    image_pulled = false;
  }

  abbrev found_bin : Cluster A.crypto.CaKey C → Setup (Cluster A.crypto.CaKey C)
  found_bin c =
      bin_of (find_node_agent_bin A.read_dir A.wd) >>= λ p. ready (with_node_agent_bin (A.show p) c)

  -- The search for the agent's binary, if the options gave none.
  abbrev pub with_bin : Cluster A.crypto.CaKey C → Setup (Cluster A.crypto.CaKey C)
  with_bin c = if str_eq c.node_agent_bin "" then found_bin c else ready c

  -- `NewCluster`
  unfoldable pub new_cluster :
      String
      → List (Cluster A.crypto.CaKey C → Cluster A.crypto.CaKey C)
      → Setup (Cluster A.crypto.CaKey C)
  unfolding rand_string
  new_cluster image opts = do
    log ← try (or_wrap (fallible A.logger) "instantiating default logger" [])
    docker ← try (or_wrap (fallible A.docker_client) "building Docker client" [])
    certs ← certs_of "generating TLS cert" (generate_certs A.crypto A.randomness).0
    with_bin (apply opts (cluster_of image certs))

  -- An option that leaves the nodes alone.
  abbrev pub KeepsNodes : (Cluster A.crypto.CaKey C → Cluster A.crypto.CaKey C) → Type 0
  KeepsNodes o = (c : Cluster A.crypto.CaKey C) → (o c).nodes ≡ c.nodes

  apply-nodes :
      (opts : List (Cluster A.crypto.CaKey C → Cluster A.crypto.CaKey C))
      (c : Cluster A.crypto.CaKey C)
      → All KeepsNodes opts
      → (apply opts c).nodes ≡ c.nodes
  apply-nodes [] c h = refl
  apply-nodes (o ∷ opts) c h = apply-nodes opts (o c) h.1 ∙ h.0 c

  found_bin-nodes : (c d : Cluster A.crypto.CaKey C) → found_bin c ≡ ready d → d.nodes ≡ c.nodes
  found_bin-nodes c d e =
      let (p, found, same) = >>=-ready (bin_of (find_node_agent_bin A.read_dir A.wd)) _ d e in
      ground (arith, same)

  with_bin-nodes : (c d : Cluster A.crypto.CaKey C) → with_bin c ≡ ready d → d.nodes ≡ c.nodes
  with_bin-nodes c d e = elim (Bool-cases (str_eq c.node_agent_bin "")) [
    | inl t ↦ found_bin-nodes c d (rw t at e)
    | inr f ↦ ground (arith, rw f at e)
  ]

  new_cluster-nodes :
      (image : String) (opts : List (Cluster A.crypto.CaKey C → Cluster A.crypto.CaKey C))
      (c : Cluster A.crypto.CaKey C)
      → All KeepsNodes opts
      → new_cluster image opts ≡ ready c
      → c.nodes ≡ []
  unfolding new_cluster
  new_cluster-nodes image opts c keep e =
      let (log, a, e1) =
        >>=-ready (try (or_wrap (fallible A.logger) "instantiating default logger" [])) _ c e in
      let (docker, b, e2) =
        >>=-ready (try (or_wrap (fallible A.docker_client) "building Docker client" [])) _ c e1 in
      let (certs, d, e3) =
        >>=-ready (certs_of "generating TLS cert" (generate_certs A.crypto A.randomness).0) _ c
          e2 in
      with_bin-nodes (apply opts (cluster_of image certs)) c e3
      ∙ apply-nodes opts (cluster_of image certs) keep

  found_bin-crashes :
      (c : Cluster A.crypto.CaKey C)
      → found_bin c ≡ crashes
      → find_node_agent_bin A.read_dir A.wd ≡ Files.crashes
  found_bin-crashes c e = elim (>>=-crashes (bin_of (find_node_agent_bin A.read_dir A.wd)) _ e) [
    | inl x ↦ bin_of-crashes _ x
    | inr (p, found, x) ↦ absurd (ground (arith, x))
  ]

  with_bin-crashes :
      (c : Cluster A.crypto.CaKey C)
      → with_bin c ≡ crashes
      → find_node_agent_bin A.read_dir A.wd ≡ Files.crashes
  with_bin-crashes c e = elim (Bool-cases (str_eq c.node_agent_bin "")) [
    | inl t ↦ found_bin-crashes c (rw t at e)
    | inr f ↦ absurd (ground (arith, rw f at e))
  ]

  -- The Docker `NewCluster` can panic only where no key can be generated for a certificate, and where
  -- `FindUp` cannot read a directory.
  pub new_docker_cluster-crashes :
      (image : String) (opts : List (Cluster A.crypto.CaKey C → Cluster A.crypto.CaKey C))
      → new_cluster image opts ≡ crashes
      → ((generate_certs A.crypto A.randomness).0 ≡ nil_dereference)
        ⊎ (find_node_agent_bin A.read_dir A.wd ≡ Files.crashes)
  unfolding new_cluster
  new_docker_cluster-crashes image opts e =
      let (log, a, e1) =
        >>=-try-crashes (or_wrap (fallible A.logger) "instantiating default logger" []) _ e in
      let (docker, b, e2) =
        >>=-try-crashes (or_wrap (fallible A.docker_client) "building Docker client" []) _ e1 in
      elim (>>=-crashes (certs_of "generating TLS cert" (generate_certs A.crypto A.randomness).0) _
        e2) [
          | inl x ↦ inl (certs_of-crashes "generating TLS cert" _ x)
          | inr (certs, d, e3) ↦ inr (with_bin-crashes (apply opts (cluster_of image certs)) e3)
        ]

module _ (A : Surroundings) (H : Host A.crypto.CaKey) where
  -- If the Docker `NewCluster`, with options that leave the nodes alone, gives a cluster, then after a
  -- call of `NewNodes` its nodes have the IDs 0, 1, … in order, each with the container name of its ID.
  pub new_nodes-new_cluster-IsNumbered :
      (image : String)
      (opts : List (Cluster A.crypto.CaKey H.Client → Cluster A.crypto.CaKey H.Client))
      (c : Cluster A.crypto.CaKey H.Client) (n : ℕ) (s : H.State)
      → All (KeepsNodes A) opts
      → new_cluster A image opts ≡ ready c
      → IsNumbered (new_nodes H n c s).cluster
  new_nodes-new_cluster-IsNumbered image opts c n s keep e =
      new_nodes-IsNumbered H n c s (rw (new_cluster-nodes A image opts c keep e) tt)
