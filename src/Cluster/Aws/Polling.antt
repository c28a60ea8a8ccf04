-- ===== src/Cluster/Aws/Polling.antt =====
-- cluster/aws/cluster.go: `waitForInstances`, which polls EC2.
use clustertest.Prelude.{
  ℕ, String, List, [], ◌∷◌, ◌++◌, Option, none, some, Error, errorf, wrap, str, Result, ok, err,
  ◌>>=◌, length, ◌==◌, if◌then◌else◌,
}

-- The states that the program tells apart.
pub data InstanceState : Type 0 where
  pending : InstanceState
  running : InstanceState
  unexpected : String → InstanceState

pub record Instance : Type 0 where
  pub id : String
  pub state : InstanceState
  pub public_ip : String

-- What `DescribeInstancesWithContext` gives: the error of an instance that is not known yet, another
-- error, or the instances of each reservation.
pub data Described : Type 0 where
  not_found : Described
  failed : Error → Described
  reservations : List (List Instance) → Described

-- One instance in the inner loop, with those that were found running before it.
unfoldable pub scan_one : Instance → List Instance → InstanceState → Result (List Instance)
scan_one inst found pending = ok found
scan_one inst found running = ok (found ++ (inst ∷ []))
scan_one inst found (unexpected s) = err (errorf "unexpected instance state %q" (str s ∷ []))

unfoldable pub scan : List Instance → List Instance → Result (List Instance)
unfolding scan_one
scan [] found = ok found
scan (inst ∷ insts) found = scan_one inst found inst.state >>= scan insts

unfoldable pub scan_all : List (List Instance) → List Instance → Result (List Instance)
unfolding scan
scan_all [] found = ok found
scan_all (res ∷ ress) found = scan res found >>= scan_all ress

-- `waitForInstances` for `n` instances, over the answers that come; `none` if it still polls.
unfoldable pub wait_for_instances : ℕ → List Described → Option (Result (List Instance))
unfolding scan_all
wait_for_instances n [] = none
wait_for_instances n (not_found ∷ answers) = wait_for_instances n answers
wait_for_instances n (failed e ∷ answers) = some (err (wrap "waiting for EC2 instance" [] e))
wait_for_instances n (reservations ress ∷ answers) =
    let rest = wait_for_instances n answers in
    elim (scan_all ress []) [
      | err e ↦ some (err e)
      | ok found ↦ if length found == n then some (ok found) else rest
    ]
