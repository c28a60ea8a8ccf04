-- ===== src/Cluster/Aws/Outputs.antt =====
-- cluster/aws/cfn.go: the outputs of the CloudFormation stack that the cluster stands on.
pub mod Laws
use Prim.Native.Char.{Char, code}
use clustertest.Prelude.{
  ◌≡◌, ℕ, ℤ, String, Bool, true, false, List, [], ◌∷◌, ◌++◌, Option, none, some, Error, errorf,
  wrap, int, Result, ok, err, or_wrap, ◌>>=◌, length, str_eq, ◌==◌, if◌then◌else◌, Env, put, get,
}

-- `arn.ARN`, the two parts that are used.
pub record Arn : Type 0 where
  pub account_id : String
  pub resource : String

pub record StackOutputs : Type 0 where
  pub account_id : String
  pub ec2_instance_profile_arn : String
  pub ec2_security_group_id : String
  pub public_subnet_ids : List String
  pub s3_bucket : String

-- An output that must not be empty.
unfoldable pub required : String → String → Env → Result String
required key message outputs =
    if str_eq (get key outputs) "" then err (errorf message []) else ok (get key outputs)

-- A character in front of the first of some texts.
on_first : Char → List String → List String
on_first c [] = String.◌∷◌ c "" ∷ []
on_first c (s ∷ l) = String.◌∷◌ c s ∷ l

-- `strings.Split` at commas
unfoldable pub split : String → List String
unfolding on_first
split String.[] = "" ∷ []
split (String.◌∷◌ c s) = if code c == 44 then "" ∷ split s else on_first c (split s)

module _ (parse_arn : String → Result Arn) where
  -- `parseStackOutputs`, without the half-filled value that goes with an error.
  unfoldable pub parse_stack_outputs : Env → Result StackOutputs
  unfolding required split
  parse_stack_outputs outputs =
      required "EC2InstanceProfileARN" "unable to find EC2 instance role ARN" outputs >>= λ profile.
      or_wrap (parse_arn profile) "parsing EC2 instance role ARN %q" [] >>= λ parsed.
      required "PublicSubnetIDs" "unable to find subnet IDs" outputs >>= λ subnets.
      required "EC2InstanceSecurityGroupID" "unable to find security group ID" outputs >>= λ group.
      required "S3BucketARN" "unable to find S3 bucket ARN" outputs >>= λ bucket.
      or_wrap (parse_arn bucket) "parsing S3 bucket ARN %q" [] >>= λ bucket_arn. ok (record {
        account_id = parsed.account_id;
        ec2_instance_profile_arn = profile;
        ec2_security_group_id = group;
        public_subnet_ids = split subnets;
        s3_bucket = bucket_arn.resource;
      })

-- What the SDK hands to the callback of `collectPages`, page by page, and its error.
pub record Pages (P : Type 0) : Type 0 where
  pub pages : List P
  pub fault : Option Error

-- The two services, with the request of `DescribeStacks`. A page of exports is its names and values;
-- a page of stacks is the outputs of each.
pub record CloudFormation : Type 0 where
  pub list_exports : Pages Env
  pub describe_stacks : String → Pages (List Env)

-- The two loops over the exports: a later one of the name overrides an earlier.
unfoldable pub last_in_page : Env → String → String
last_in_page [] arn = arn
last_in_page ((name, value) ∷ page) arn =
    last_in_page page (if str_eq name "ClustertestStackARN" then value else arn)

unfoldable pub stack_arn : List Env → String → String
unfolding last_in_page
stack_arn [] arn = arn
stack_arn (page ∷ pages) arn = stack_arn pages (last_in_page page arn)

-- The loop that fills the map of the outputs.
unfoldable pub collect : Env → Env → Env
unfolding put
collect [] outputs = outputs
collect ((key, value) ∷ l) outputs = collect l (put key value outputs)

-- The page of the stack must be one, with one stack.
unfoldable pub only_stack : List (List Env) → Result Env
unfolding collect
only_stack ((stack ∷ []) ∷ []) = ok (collect stack [])
only_stack (page ∷ []) = err (
    errorf "expected DescribeStacks page to have 1 stack, but had %d"
      (int (ℤ.pos (length page)) ∷ []))
only_stack pages =
    err (
      errorf "expected DescribeStacks to have 1 page, but had %d" (int (ℤ.pos (length pages)) ∷ []))

-- `fetchStackOutputs`: the error of `DescribeStacks` is not looked at.
unfoldable pub fetch_stack_outputs : CloudFormation → Result Env
unfolding stack_arn only_stack
fetch_stack_outputs c = elim c.list_exports.fault [
  | some e ↦ err (wrap "listing CloudFormation exports" [] e)
  | none ↦
      let arn = stack_arn c.list_exports.pages "" in
      if str_eq arn ""
      then err (errorf "unable to find exported test stack ARN, did you run 'cdk deploy'?" [])
      else only_stack (c.describe_stacks arn).pages
]
