-- ===== src/Cluster/Aws/Setup.antt =====
-- cluster/aws/cluster.go: `NewCluster`, `fetchAMIID` and `provideFileViaS3`.
pub mod Laws
use clustertest.Prelude.{
  ◌≡◌, ℕ, String, Bool, List, [], ◌∷◌, Option, none, some, Error, wrap, str, Result, ok, err,
  or_wrap, fallible,
}
use clustertest.Process.Types.{Bytes}
use clustertest.Process.Writer.{Reader, contents}
use clustertest.Paths.{FilePath}
use clustertest.Files.{ReadDir, Looked, bin, find_node_agent_bin}
use clustertest.Files
use clustertest.Agent.Certs.{Crypto, Certs, Outcome, returns, nil_dereference, generate_certs}
use clustertest.Agent.Certs
use clustertest.Cluster.Startup.{Setup, ready, fails, crashes, ◌>>=◌, try, first, certs_of, bin_of}
use clustertest.Cluster.Aws.Outputs.{
  Arn, StackOutputs, CloudFormation, fetch_stack_outputs, parse_stack_outputs,
}
use clustertest.Cluster.Aws.Instances.{Cluster, RunInput}

-- The files of the host, the buckets of S3, SHA-256 and base32.
pub record Store : Type 1 where
  pub State : Type 0
  pub open_file : FilePath → State → Result Reader × State
  pub put_object : String → String → Reader → State → Option Error × State
  pub hash : Bytes → Bytes
  pub encode : Bytes → String

module _ (S : Store) where
  -- The part of `provideFileViaS3` after the hash: the file is opened again.
  upload : String → FilePath → String → S.State → Result String × S.State
  upload bucket path key s = elim (S.open_file path s).0 [
    | err e ↦ (err (wrap "opening to send to S3" [] e), (S.open_file path s).1)
    | ok body ↦
        let (e, t) = S.put_object bucket key body (S.open_file path s).1 in
        elim e [ some x ↦ (err (wrap "putting to S3" [] x), t) | none ↦ (ok key, t) ]
  ]

  hash_then : String → FilePath → Reader → S.State → Result String × S.State
  unfolding upload
  hash_then bucket path body s = elim body.fault [
    | some e ↦ (err (wrap "hashing file to write to S3" [] e), s)
    | none ↦ upload bucket path (S.encode (S.hash (contents body.chunks))) s
  ]

  -- `provideFileViaS3`
  unfoldable pub provide_file_via_s3 : String → FilePath → S.State → Result String × S.State
  unfolding hash_then
  provide_file_via_s3 bucket path s = elim (S.open_file path s).0 [
    | err e ↦ (err (wrap "opening to compute S3 key" [] e), (S.open_file path s).1)
    | ok body ↦ hash_then bucket path body (S.open_file path s).1
  ]

-- What `NewCluster` is run with: the session's error, CloudFormation, the parser of ARNs, the values
-- that SSM gives for a name, cryptography, the logger's error, the directories and where it runs.
pub record Account : Type 1 where
  pub session : Option Error
  pub cloud_formation : CloudFormation
  pub parse_arn : String → Result Arn
  pub get_parameters : String → Result (List String)
  pub crypto : Crypto
  pub randomness : crypto.State
  pub logger : Option Error
  pub read_dir : ReadDir
  pub wd : Result FilePath

module _ (A : Account) where
  -- `fetchAMIID`
  unfoldable pub fetch_ami_id : Setup String
  fetch_ami_id =
      try (
        or_wrap (A.get_parameters "/aws/service/ami-amazon-linux-latest/amzn2-ami-hvm-x86_64-gp2")
          "fetching AMI ID" [])
      >>= first

  -- The literal in `NewCluster`.
  abbrev pub cluster_of : StackOutputs → String → String → Certs A.crypto.CaKey → Cluster
  cluster_of outputs subnet ami certs = record {
    ami_id = ami;
    instance_profile_arn = outputs.ec2_instance_profile_arn;
    instance_type = "t3.micro";
    instance_security_group_id = outputs.ec2_security_group_id;
    subnet_id = subnet;
    account_id = outputs.account_id;
    node_agent_bin = none;
    node_agent_s3_bucket = outputs.s3_bucket;
    node_agent_s3_key = "";
    ca_cert_pem = certs.ca.cert_pem;
    server_cert_pem = certs.server.cert_pem;
    server_key_pem = certs.server.key_pem;
    run_instances_config = none;
  }

  -- `NewCluster` up to its options.
  unfoldable pub base_cluster : Setup Cluster
  unfolding fetch_ami_id
  base_cluster = do
    session ← try (or_wrap (fallible A.session) "creating AWS Go SDK session" [])
    env ← try (or_wrap (fetch_stack_outputs A.cloud_formation) "fetching stack outputs" [])
    outputs ← try (or_wrap (parse_stack_outputs A.parse_arn env) "parsing stack outputs" [])
    ami ← fetch_ami_id
    certs ← certs_of "generating cert" (generate_certs A.crypto A.randomness).0
    log ← try (or_wrap (fallible A.logger) "instantiating default logger" [])
    subnet ← first outputs.public_subnet_ids
    ready (cluster_of outputs subnet ami certs)

  abbrev apply : List (Cluster → Cluster) → Cluster → Cluster
  apply [] c = c
  apply (o ∷ opts) c = apply opts (o c)

  -- The search for the agent's binary, if the options gave none.
  abbrev pub find_bin : Option FilePath → Setup FilePath
  find_bin (some p) = ready p
  find_bin none = bin_of (find_node_agent_bin A.read_dir A.wd)

  module _ (S : Store) where
    with_key : Cluster → FilePath → Result String → Setup Cluster
    with_key c path (err e) = fails (wrap "uploading node agent to S3" [] e)
    with_key c path (ok key) =
        ready (record c { node_agent_bin = some path; node_agent_s3_key = key })

    -- The rest of `NewCluster`.
    unfoldable pub provide_agent : S.State → Cluster → Setup Cluster
    unfolding with_key
    provide_agent s c = do
      path ← find_bin c.node_agent_bin
      with_key c path (provide_file_via_s3 S c.node_agent_s3_bucket path s).0

    -- `NewCluster`
    unfoldable pub new_cluster : List (Cluster → Cluster) → S.State → Setup Cluster
    unfolding base_cluster provide_agent
    new_cluster opts s = do c ← base_cluster; provide_agent s (apply opts c)
