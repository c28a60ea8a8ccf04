-- ===== src/Cluster/Aws/SetupTests.antt =====
-- An account in which SSM gives no AMI, a bucket that keeps what is put, and the theorems there.
use clustertest.Prelude.{true, refl, List, [], ◌∷◌, ◌++◌, none, ok, Env, get}
use clustertest.Process.Types.{Bytes}
use clustertest.Process.Writer.{contents}
use clustertest.Paths.{at}
use clustertest.Agent.Certs.{Crypto}
use clustertest.Cluster.Aws.Outputs.{CloudFormation, parse_stack_outputs, fetch_stack_outputs}
use clustertest.Cluster.Aws.Setup.{Store, Account, fetch_ami_id, new_cluster}
use clustertest.Cluster.Aws.Setup.Laws.{MayPanic, new_cluster-MayPanic}

-- The host's file has the bytes 1 and 2; the state is what was put, newest last.
abbrev bucket_store : Store
bucket_store = record {
  State = List Bytes;
  open_file = λ p s. (ok (record { chunks = (1 ∷ []) ∷ (2 ∷ []) ∷ []; fault = none }), s);
  put_object = λ b k r s. (none, s ++ (contents r.chunks ∷ []));
  hash = λ b. b;
  encode = λ b. "hash";
}

abbrev deployed : Env
deployed =
    ("EC2InstanceProfileARN", "arn:profile")
    ∷ ("PublicSubnetIDs", "subnet-1,subnet-2")
    ∷ ("EC2InstanceSecurityGroupID", "sg-1")
    ∷ ("S3BucketARN", "arn:bucket")
    ∷ []

abbrev aws_cloud : CloudFormation
aws_cloud = record {
  list_exports = record { pages = (("ClustertestStackARN", "arn:stack") ∷ []) ∷ []; fault = none };
  describe_stacks = λ a. record { pages = (deployed ∷ []) ∷ []; fault = none };
}

abbrev no_crypto : Crypto
no_crypto = record {
  State = Unit;
  CaKey = Unit;
  Key = Unit;
  rand_int = λ s. (ok 1, s);
  rsa_key = λ s. (ok tt, s);
  ecdsa_key = λ s. (ok tt, s);
  create_ca = λ t k s. (ok [], s);
  create = λ t p k c s. (ok [], s);
  encode_pem = λ n b. b;
  marshal_ca_key = λ k. [];
  marshal_key = λ k. ok [];
}

abbrev no_ami : Account
no_ami = record {
  session = none;
  cloud_formation = aws_cloud;
  parse_arn = λ s. ok (record { account_id = "7"; resource = s });
  get_parameters = λ n. ok [];
  crypto = no_crypto;
  randomness = tt;
  logger = none;
  read_dir = λ p. none;
  wd = ok (at true []);
}

new_cluster-MayPanic_example : MayPanic no_ami
unfolding new_cluster parse_stack_outputs fetch_stack_outputs get fetch_ami_id
new_cluster-MayPanic_example = new_cluster-MayPanic no_ami bucket_store [] [] refl
