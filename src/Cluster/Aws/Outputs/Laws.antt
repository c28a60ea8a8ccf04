-- ===== src/Cluster/Aws/Outputs/Laws.antt =====
-- What a cluster can rely on in the stack's outputs.
use Prim.Native.Char.{Char}
use clustertest.Prelude.{
  ◌≢◌, ◌≡◌, refl, ap, String, false, List, [], ◌∷◌, none, Result, ok, str_eq, Result-cases, inl,
  inr, eq_iff, put, ◌∙◌, if◌then◌else◌, arith, Env, get,
}
use clustertest.Cluster.Aws.Outputs.{
  Arn, StackOutputs, on_first, split, split, parse_stack_outputs, CloudFormation, collect,
  only_stack, stack_arn, fetch_stack_outputs,
}

-- If `parseStackOutputs` gives outputs then none of the four entries that it reads is empty, and its
-- fields are those entries and the parts of the two ARNs.
pub parse_stack_outputs-entries :
    (parse_arn : String → Result Arn) (m : Env) (o : StackOutputs)
    → parse_stack_outputs parse_arn m ≡ ok o
    → (profile : Arn) × (bucket : Arn) × (parse_arn (get "EC2InstanceProfileARN" m) ≡ ok profile)
      × (parse_arn (get "S3BucketARN" m) ≡ ok bucket)
      × (str_eq (get "PublicSubnetIDs" m) "" ≡ false)
      × (str_eq (get "EC2InstanceSecurityGroupID" m) "" ≡ false)
      × (o ≡ record {
        account_id = profile.account_id;
        ec2_instance_profile_arn = get "EC2InstanceProfileARN" m;
        ec2_security_group_id = get "EC2InstanceSecurityGroupID" m;
        public_subnet_ids = split (get "PublicSubnetIDs" m);
        s3_bucket = bucket.resource;
      })
unfolding parse_stack_outputs
parse_stack_outputs-entries parse_arn m o e =
    elim (Result-cases (parse_arn (get "EC2InstanceProfileARN" m))) [
      | inr (x, h) ↦ absurd (ground arith)
      | inl (profile, h) ↦ elim (Result-cases (parse_arn (get "S3BucketARN" m))) [
        | inr (x, k) ↦ absurd (ground arith)
        | inl (bucket, k) ↦ (profile, bucket, h, k, ground arith, ground arith, ground arith)
      ]
    ]

-- The last value that a list of entries gives a key, or a value from before it.
unfoldable pub last_of : String → Env → String → String
last_of k [] v = v
last_of k ((j, w) ∷ l) v = last_of k l (if str_eq j k then w else v)

get-put : (k j w : String) (m : Env) → get k (put j w m) ≡ (if str_eq j k then w else get k m)
unfolding get put
get-put k j w [] = refl
get-put k j w ((i, v) ∷ m) =
    ground (arith, eq_iff k j, eq_iff i j, eq_iff j k, eq_iff i k, get-put k j w m)

get-collect : (k : String) (l m : Env) → get k (collect l m) ≡ last_of k l (get k m)
unfolding collect last_of
get-collect k [] m = refl
get-collect k ((j, w) ∷ l) m =
    get-collect k l (put j w m) ∙ ap (λ v. last_of k l v) (get-put k j w m)

only_stack_ok :
    (pages : List (List Env)) (m : Env)
    → only_stack pages ≡ ok m
    → (stack : Env) × (pages ≡ (stack ∷ []) ∷ []) × (m ≡ collect stack [])
unfolding only_stack
only_stack_ok [] m e = ground arith
only_stack_ok ([] ∷ []) m e = ground arith
only_stack_ok ((stack ∷ []) ∷ []) m e = (stack, refl, ground arith)
only_stack_ok ((stack ∷ other ∷ stacks) ∷ []) m e = ground arith
only_stack_ok ([] ∷ page ∷ pages) m e = ground arith
only_stack_ok ((stack ∷ []) ∷ page ∷ pages) m e = ground arith
only_stack_ok ((stack ∷ other ∷ stacks) ∷ page ∷ pages) m e = ground arith

fetched :
    (c : CloudFormation) (m : Env)
    → fetch_stack_outputs c ≡ ok m
    → (c.list_exports.fault ≡ none)
      × (str_eq (stack_arn c.list_exports.pages "") "" ≡ false)
      × (only_stack (c.describe_stacks (stack_arn c.list_exports.pages "")).pages ≡ ok m)
unfolding fetch_stack_outputs
fetched c m e = ground arith

-- If `fetchStackOutputs` gives a map then the exports were listed without an error and name a stack,
-- `DescribeStacks` gave one page with one stack for that name, and the map has for each key the last
-- value among that stack's outputs.
pub fetch_stack_outputs-stack :
    (c : CloudFormation) (m : Env) (k : String)
    → fetch_stack_outputs c ≡ ok m
    → let arn = stack_arn c.list_exports.pages "" in
      (stack : Env) × (c.list_exports.fault ≡ none)
      × (str_eq arn "" ≡ false)
      × ((c.describe_stacks arn).pages ≡ (stack ∷ []) ∷ [])
      × (get k m ≡ last_of k stack "")
unfolding get
fetch_stack_outputs-stack c m k e =
    let (listed, named, only) = fetched c m e in
    let (stack, page, same) = only_stack_ok _ m only in
    (stack, listed, named, page, ap (get k) same ∙ get-collect k stack [])

on_first-ne-nil : (c : Char) (l : List String) → on_first c l ≢ []
unfolding on_first
on_first-ne-nil c [] e = ground arith
on_first-ne-nil c (s ∷ l) e = ground arith

-- A text splits into at least one part.
pub split-ne-nil : (s : String) → split s ≢ []
unfolding split
split-ne-nil String.[] e = ground arith
split-ne-nil (String.◌∷◌ c s) e = ground (arith, on_first-ne-nil c (split s))
