-- ===== src/Cluster/Aws/Instances/Laws.antt =====
-- The polling of EC2, and the nodes that `NewNodes` returns.
use clustertest.Prelude.{
  ◌≡◌, refl, ap, sym, ◌∙◌, ℕ, true, false, List, [], ◌∷◌, ◌++◌, append-nil, append_assoc, Option,
  some, Error, Result, ok, err, length, All, Result-cases, Bool-cases, inl, inr, ◌==◌, arith,
}
use clustertest.Cluster.Aws.Polling.{
  InstanceState, pending, running, unexpected, Instance, Described, not_found, failed, reservations,
  scan_one, scan, scan_all, wait_for_instances,
}

-- The instances of a list that run.
abbrev pub if_running : Instance → InstanceState → List Instance → List Instance
if_running inst running l = inst ∷ l
if_running inst pending l = l
if_running inst (unexpected s) l = l

unfoldable pub running_of : List Instance → List Instance
running_of [] = []
running_of (inst ∷ insts) = if_running inst inst.state (running_of insts)

unfoldable pub all_running : List (List Instance) → List Instance
all_running [] = []
all_running (res ∷ ress) = running_of res ++ all_running ress

-- Pending or running.
abbrev pub IsExpected : InstanceState → Type 0
IsExpected pending = Unit
IsExpected running = Unit
IsExpected (unexpected s) = ⊥

abbrev pub AreExpected : List Instance → Type 0
AreExpected insts = All (λ i. IsExpected i.state) insts

scan_one-found :
    (inst : Instance) (found l rest : List Instance) (s : InstanceState)
    → scan_one inst found s ≡ ok l
    → (l ++ rest ≡ found ++ if_running inst s rest) × IsExpected s
unfolding scan_one
scan_one-found inst found l rest pending e = (ground arith, tt)
scan_one-found inst found l rest running e =
    (ground (arith, append_assoc found (inst ∷ []) rest), tt)
scan_one-found inst found l rest (unexpected s) e = absurd (ground arith)

scan-found :
    (insts found l : List Instance)
    → scan insts found ≡ ok l
    → (l ≡ found ++ running_of insts) × AreExpected insts
unfolding scan running_of
scan-found [] found l e = (ground (arith, append-nil found), tt)
scan-found (inst ∷ insts) found l e = elim (Result-cases (scan_one inst found inst.state)) [
  | inl (k, h) ↦
      let (same, up) = scan-found insts k l (rw h at e) in
      let (one, here) = scan_one-found inst found k (running_of insts) inst.state h in
      (same ∙ one, (here, up))
  | inr (x, h) ↦ absurd (ground (arith, rw h at e))
]

pub scan_all-found :
    (ress : List (List Instance)) (found l : List Instance)
    → scan_all ress found ≡ ok l
    → (l ≡ found ++ all_running ress) × All AreExpected ress
unfolding scan_all all_running
scan_all-found [] found l e = (ground (arith, append-nil found), tt)
scan_all-found (res ∷ ress) found l e = elim (Result-cases (scan res found)) [
  | inl (k, h) ↦
      let (same, up) = scan_all-found ress k l (rw h at e) in
      let (one, here) = scan-found res found k h in
      (
        same
            ∙ ap (λ x. x ++ all_running ress) one
            ∙ append_assoc found (running_of res) (all_running ress),
        (here, up),
      )
  | inr (x, h) ↦ absurd (ground (arith, rw h at e))
]

-- Among the answers is one whose instances all run or are pending, and those that run are `l`, `n`
-- in number.
pub data Settled (n : ℕ) (l : List Instance) : List Described → Type 0 where
  at_once :
      {ress : List (List Instance)} {answers : List Described}
      → All AreExpected ress
      → l ≡ all_running ress
      → length l ≡ n
      → Settled n l (reservations ress ∷ answers)
  after :
      {d : Described} {answers : List Described} → Settled n l answers → Settled n l (d ∷ answers)

-- The rounds of a poll that EC2 answers with instances.
round_unexpected :
    (n : ℕ) (ress : List (List Instance)) (answers : List Described) (x : Error)
    → scan_all ress [] ≡ err x
    → wait_for_instances n (reservations ress ∷ answers) ≡ some (err x)
unfolding wait_for_instances
round_unexpected n ress answers x h = rw (h, wait_for_instances) refl

pub round_full :
    (n : ℕ) (ress : List (List Instance)) (answers : List Described) (l : List Instance)
    → scan_all ress [] ≡ ok l
    → length l == n ≡ true
    → wait_for_instances n (reservations ress ∷ answers) ≡ some (ok l)
unfolding wait_for_instances
round_full n ress answers l h k = rw (h, wait_for_instances) (rw k refl)

pub round_short :
    (n : ℕ) (ress : List (List Instance)) (answers : List Described) (l : List Instance)
    → scan_all ress [] ≡ ok l
    → length l == n ≡ false
    → wait_for_instances n (reservations ress ∷ answers) ≡ wait_for_instances n answers
unfolding wait_for_instances
round_short n ress answers l h k = rw (h, wait_for_instances) (rw k refl)

ok_injective :
    (k l : List Instance)
    → ◌≡◌ {A = Option (Result (List Instance))} (some (ok k)) (some (ok l))
    → k ≡ l
ok_injective k l e = ground arith

count : (k : List Instance) (n : ℕ) → length k == n ≡ true → length k ≡ n
count k n h = ground arith

-- If `waitForInstances` returns instances then an answer has settled it: each instance of the answer
-- runs or is pending, and those that run are the ones returned, as many as were launched.
pub wait_for_instances-Settled :
    (n : ℕ) (answers : List Described) (l : List Instance)
    → wait_for_instances n answers ≡ some (ok l)
    → Settled n l answers
unfolding wait_for_instances
wait_for_instances-Settled n [] l e = ground arith
wait_for_instances-Settled n (not_found ∷ answers) l e =
    after (wait_for_instances-Settled n answers l e)
wait_for_instances-Settled n (failed x ∷ answers) l e = ground arith
wait_for_instances-Settled n (reservations ress ∷ answers) l e =
    elim (Result-cases (scan_all ress [])) [
      | inr (x, h) ↦ absurd (ground (arith, sym (round_unexpected n ress answers x h) ∙ e))
      | inl (k, h) ↦ elim (Bool-cases (length k == n)) [
        | inl q ↦
            let (same, up) = scan_all-found ress [] k h in
            let returned = ok_injective k l (sym (round_full n ress answers k h q) ∙ e) in
            at_once up (sym returned ∙ same) (ap length (sym returned) ∙ count k n q)
        | inr q ↦
            after
              (wait_for_instances-Settled n answers l (sym (round_short n ress answers k h q) ∙ e))
      ]
    ]
