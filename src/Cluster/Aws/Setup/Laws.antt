-- ===== src/Cluster/Aws/Setup/Laws.antt =====
-- What `NewCluster` uploads, and where it may panic.
use clustertest.Prelude.{
  Env, get, subst, ◌≡◌, ◌≢◌, refl, ap, sym, ◌∙◌, ◌⊎◌, inl, inr, String, List, [], ◌∷◌, Option, none,
  some, Result, ok, err, or_wrap, fallible, Result-cases, arith,
}
use clustertest.Process.Writer.{Reader, contents}
use clustertest.Paths.{FilePath}
use clustertest.Files.{Looked, bin, find_node_agent_bin}
use clustertest.Files
use clustertest.Agent.Certs.{nil_dereference, generate_certs}
use clustertest.Cluster.Aws.Outputs.{StackOutputs, parse_stack_outputs, fetch_stack_outputs}
use clustertest.Cluster.Aws.Outputs.Laws.{parse_stack_outputs-entries, split-ne-nil}
use clustertest.Cluster.Aws.Instances.{Cluster}
use clustertest.Cluster.Startup.{
  ◌>>=◌, ready, crashes, try, first, certs_of, >>=-crashes, >>=-try-crashes, certs_of-crashes,
  bin_of-crashes,
}
use clustertest.Cluster.Aws.Setup.{
  Store, upload, hash_then, provide_file_via_s3, Account, fetch_ami_id, cluster_of, base_cluster,
  find_bin, with_key, new_cluster, apply,
}

module _ (S : Store) where
  upload_ok :
      (bucket : String) (path : FilePath) (key key' : String) (s t : S.State)
      → upload S bucket path key s ≡ (ok key', t)
      → (body : Reader) × ((S.open_file path s).0 ≡ ok body)
        × (key' ≡ key)
        × (S.put_object bucket key body (S.open_file path s).1 ≡ (none, t))
  unfolding upload
  upload_ok bucket path key key' s t e = elim (Result-cases (S.open_file path s).0) [
    | inl (body, h) ↦
        let put = rw (h, upload) at e in (body, h, ground (arith, put), ground (arith, put))
    | inr (x, h) ↦ absurd (ground (arith, rw (h, upload) at e))
  ]

  hash_then_ok :
      (bucket : String) (path : FilePath) (body : Reader) (key : String) (s t : S.State)
      → hash_then S bucket path body s ≡ (ok key, t)
      → (body.fault ≡ none)
        × (upload S bucket path (S.encode (S.hash (contents body.chunks))) s ≡ (ok key, t))
  unfolding hash_then
  hash_then_ok bucket path body key s t e = ground arith

module _ (S : Store) where
  -- If `provideFileViaS3` gives a key then the key is the hash of the whole file as it was read first,
  -- and the file as it was opened again was put under that key into the bucket.
  pub provide_file_via_s3-put :
      (bucket : String) (path : FilePath) (key : String) (s t : S.State)
      → provide_file_via_s3 S bucket path s ≡ (ok key, t)
      → (read second : Reader) × (u : S.State) × ((S.open_file path s).0 ≡ ok read)
        × (read.fault ≡ none)
        × (key ≡ S.encode (S.hash (contents read.chunks)))
        × (S.put_object bucket key second u ≡ (none, t))
  unfolding provide_file_via_s3
  provide_file_via_s3-put bucket path key s t e = elim (Result-cases (S.open_file path s).0) [
    | inl (read, h) ↦
        let (whole, rest) =
          hash_then_ok S bucket path read key (S.open_file path s).1 t
            (rw (h, provide_file_via_s3) at e) in
        let (second, opened, same, put) =
          upload_ok S bucket path _ key (S.open_file path s).1 t rest in
        (
          read,
          second,
          (S.open_file path (S.open_file path s).1).1,
          h,
          whole,
          same,
          subst
              (λ k.
                S.put_object bucket k second ((S.open_file path (S.open_file path s).1).1)
                ≡ (none, t))
              (sym same) put,
        )
    | inr (x, h) ↦ absurd (ground (arith, rw (h, provide_file_via_s3) at e))
  ]

-- The subnets of the parsed outputs are never none.
first_subnet : (l : List String) → l ≢ [] → first l ≢ crashes
first_subnet [] n e = n refl
first_subnet (x ∷ l) n e = ground arith

module _ (A : Account) where
  -- The three places at which `NewCluster` may panic.
  abbrev pub MayPanic : Type 0
  MayPanic =
      (A.get_parameters "/aws/service/ami-amazon-linux-latest/amzn2-ami-hvm-x86_64-gp2" ≡ ok [])
      ⊎ (((generate_certs A.crypto A.randomness).0 ≡ nil_dereference)
          ⊎ (find_node_agent_bin A.read_dir A.wd ≡ Files.crashes))

  first_crashes : (l : List String) → first l ≡ crashes → l ≡ []
  first_crashes [] e = refl
  first_crashes (x ∷ l) e = absurd (ground arith)

  fetch_ami_id-crashes :
      fetch_ami_id A ≡ crashes
      → A.get_parameters "/aws/service/ami-amazon-linux-latest/amzn2-ami-hvm-x86_64-gp2" ≡ ok []
  unfolding fetch_ami_id
  fetch_ami_id-crashes e =
      elim (Result-cases
        (A.get_parameters "/aws/service/ami-amazon-linux-latest/amzn2-ami-hvm-x86_64-gp2")) [
          | inl (l, h) ↦ h ∙ ap ok (first_crashes l (rw h at e))
          | inr (x, h) ↦ absurd (ground (arith, rw h at e))
        ]

  -- The parsed outputs have a first subnet.
  subnet-ne-crashes :
      (env : Env) (outputs : StackOutputs)
      → try (or_wrap (parse_stack_outputs A.parse_arn env) "parsing stack outputs" [])
        ≡ ready outputs
      → first outputs.public_subnet_ids ≢ crashes
  subnet-ne-crashes env outputs e h = elim (Result-cases (parse_stack_outputs A.parse_arn env)) [
    | inl (o, k) ↦
        let (profile, bucket, p, b, n, g, fields) =
          parse_stack_outputs-entries A.parse_arn env o k in
        let same : o ≡ outputs = ground (arith, rw k at e) in
        first_subnet _
          (subst (λ l. l ≢ []) (sym (ap (λ x. x.public_subnet_ids) fields))
            (split-ne-nil (get "PublicSubnetIDs" env)))
          (subst (λ x. first x.public_subnet_ids ≡ crashes) (sym same) h)
    | inr (x, k) ↦ absurd (ground (arith, rw k at e))
  ]

  -- The last two steps up to the literal, which do not panic.
  after_certs-ne-crashes :
      (env : Env) (outputs : StackOutputs) (f : String → Cluster)
      → try (or_wrap (parse_stack_outputs A.parse_arn env) "parsing stack outputs" [])
        ≡ ready outputs
      → (try (or_wrap (fallible A.logger) "instantiating default logger" []) >>= λ log.
          first outputs.public_subnet_ids >>= λ subnet. ready (f subnet))
        ≢ crashes
  after_certs-ne-crashes env outputs f p e =
      let (log, p5, e6) =
        >>=-try-crashes (or_wrap (fallible A.logger) "instantiating default logger" []) _ e in
      elim (>>=-crashes (first outputs.public_subnet_ids) _ e6) [
        | inl x ↦ subnet-ne-crashes env outputs p x
        | inr (subnet, p6, e7) ↦ ground arith
      ]

  base_cluster-crashes : base_cluster A ≡ crashes → MayPanic
  unfolding base_cluster
  base_cluster-crashes e =
      let (u, p, e1) =
        >>=-try-crashes (or_wrap (fallible A.session) "creating AWS Go SDK session" []) _ e in
      let (env, p1, e2) =
        >>=-try-crashes
          (or_wrap (fetch_stack_outputs A.cloud_formation) "fetching stack outputs" []) _ e1 in
      let (outputs, p2, e3) =
        >>=-try-crashes (or_wrap (parse_stack_outputs A.parse_arn env) "parsing stack outputs" []) _
          e2 in
      elim (>>=-crashes (fetch_ami_id A) _ e3) [
        | inl x ↦ inl (fetch_ami_id-crashes x)
        | inr (ami, p3, e4) ↦
            elim (>>=-crashes (certs_of "generating cert" (generate_certs A.crypto A.randomness).0)
              _ e4) [
                | inl x ↦ inr (inl (certs_of-crashes "generating cert" _ x))
                | inr (certs, p4, e5) ↦ absurd (
                    after_certs-ne-crashes env outputs
                      (λ subnet. cluster_of A outputs subnet ami certs) p2 e5)
              ]
      ]

  find_bin-crashes :
      (p : Option FilePath)
      → find_bin A p ≡ crashes
      → find_node_agent_bin A.read_dir A.wd ≡ Files.crashes
  find_bin-crashes (some p) e = absurd (ground arith)
  find_bin-crashes none e = bin_of-crashes _ e

  with_key-ne-crashes :
      (S : Store) (c : Cluster) (path : FilePath) (r : Result String)
      → with_key A S c path r ≢ crashes
  unfolding with_key
  with_key-ne-crashes S c path (ok key) e = ground arith
  with_key-ne-crashes S c path (err x) e = ground arith

  -- `NewCluster` can panic only where SSM gives no parameter, where no key can be generated for a
  -- certificate, and where `FindUp` cannot read a directory; so never at the first of the subnets.
  pub new_cluster-MayPanic :
      (S : Store) (opts : List (Cluster → Cluster)) (s : S.State)
      → new_cluster A S opts s ≡ crashes
      → MayPanic
  unfolding new_cluster
  new_cluster-MayPanic S opts s e = elim (>>=-crashes (base_cluster A) _ e) [
    | inl x ↦ base_cluster-crashes x
    | inr (c, p, e1) ↦ elim (>>=-crashes (find_bin A (apply A opts c).node_agent_bin) _ e1) [
      | inl x ↦ inr (inr (find_bin-crashes _ x))
      | inr (path, p1, e2) ↦ absurd (with_key-ne-crashes S (apply A opts c) path _ e2)
    ]
  ]
