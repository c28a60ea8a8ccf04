-- ===== src/Cluster/Aws/Instances/Progress.antt =====
-- `waitForInstances` ends once EC2 comes up.
use clustertest.Prelude.{
  ◌≡◌, refl, ap, ◌∙◌, ℕ, true, List, [], ◌∷◌, ◌++◌, some, ok, length, All, Bool-cases, inl, inr,
  ◌==◌, arith,
}
use clustertest.Cluster.Aws.Polling.{
  InstanceState, pending, running, unexpected, Instance, Described, not_found, reservations,
  scan_one, scan, scan_all, wait_for_instances,
}
use clustertest.Cluster.Aws.Instances.Laws.{
  IsExpected, AreExpected, all_running, scan_all-found, round_full, round_short,
}

-- EC2 comes up: until an answer has `n` running instances it either does not know them yet or lists
-- instances that run or are pending.
pub data ComesUp (n : ℕ) : List Described → Type 0 where
  up :
      {ress : List (List Instance)} {answers : List Described}
      → All AreExpected ress
      → length (all_running ress) ≡ n
      → ComesUp n (reservations ress ∷ answers)
  unknown : {answers : List Described} → ComesUp n answers → ComesUp n (not_found ∷ answers)
  soon :
      {ress : List (List Instance)} {answers : List Described}
      → All AreExpected ress
      → ComesUp n answers
      → ComesUp n (reservations ress ∷ answers)

scan_one-ok :
    (inst : Instance) (found : List Instance) (s : InstanceState)
    → IsExpected s
    → (l : List Instance) × (scan_one inst found s ≡ ok l)
unfolding scan_one
scan_one-ok inst found pending h = (found, refl)
scan_one-ok inst found running h = (found ++ (inst ∷ []), refl)
scan_one-ok inst found (unexpected s) h = absurd h

scan-ok :
    (insts found : List Instance)
    → AreExpected insts
    → (l : List Instance) × (scan insts found ≡ ok l)
unfolding scan
scan-ok [] found h = (found, refl)
scan-ok (inst ∷ insts) found h =
    let (k, e) = scan_one-ok inst found inst.state h.0 in rw e (scan-ok insts k h.1)

scan_all-ok :
    (ress : List (List Instance)) (found : List Instance)
    → All AreExpected ress
    → (l : List Instance) × (scan_all ress found ≡ ok l)
unfolding scan_all
scan_all-ok [] found h = (found, refl)
scan_all-ok (res ∷ ress) found h =
    let (k, e) = scan-ok res found h.0 in rw e (scan_all-ok ress k h.1)

counted : (a b : ℕ) → a ≡ b → a == b ≡ true
counted a b h = ground arith

-- Once EC2 comes up, `waitForInstances` returns instances.
pub ComesUp-wait_for_instances :
    (n : ℕ) (answers : List Described)
    → ComesUp n answers
    → (l : List Instance) × (wait_for_instances n answers ≡ some (ok l))
unfolding wait_for_instances
ComesUp-wait_for_instances n _ (up {ress} {answers} h c) =
    let (k, e) = scan_all-ok ress [] h in
    (
      k,
      round_full n ress answers k e
          (counted (length k) n (ap length (scan_all-found ress [] k e).0 ∙ c)),
    )
ComesUp-wait_for_instances n _ (unknown {answers} u) = ComesUp-wait_for_instances n answers u
ComesUp-wait_for_instances n _ (soon {ress} {answers} h u) =
    let (k, e) = scan_all-ok ress [] h in
    elim (Bool-cases (length k == n)) [
      | inl q ↦ (k, round_full n ress answers k e q)
      | inr q ↦ rw (round_short n ress answers k e q) (ComesUp-wait_for_instances n answers u)
    ]
