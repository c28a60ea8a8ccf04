-- ===== src/Cluster/Local.antt =====
-- cluster/local/cluster.go and cluster/local/node.go: nodes that are directories of the host.
pub mod Laws
pub mod Proc
pub mod NodeFiles
mod Tests
use clustertest.Prelude.{
  ℕ, ℤ, String, List, [], ◌∷◌, Option, none, some, Error, errorf, wrap, int, Result, ok, err,
  or_wrap, ◌>>=◌, length, itoa,
}
use clustertest.Process.Types.{CmdResult}
use clustertest.Paths.{FilePath, join}
use clustertest.Files.{
  ReadDir, Looked, bin, fails, crashes, Found, found, absent, panicked, out_of_fuel, find_up,
}
use clustertest.Cluster.Grow.{Grown, grow}

-- `Node`; its `Env` is made empty and never changed.
pub record Node : Type 0 where
  pub id : ℕ
  pub env : List (String × String)
  pub dir : FilePath

-- `Cluster`, without its `env`, which nothing sets.
pub record Cluster : Type 0 where
  pub dir : FilePath
  pub nodes : List Node

-- The calls of the operating system that change the file tree.
pub record Os : Type 1 where
  pub State : Type 0
  pub mkdir : FilePath → State → Option Error × State
  pub remove_all : FilePath → State → Option Error × State

-- `NewCluster`, with what `os.MkdirTemp` gives. It does not look at its options.
unfoldable pub new_cluster : Result FilePath → List (Cluster → Cluster) → Result Cluster
new_cluster temp opts =
    or_wrap temp "creating temp dir" [] >>= λ dir. ok (record { dir = dir; nodes = [] })

-- What `NewNodes` leaves: its results and the new state, or the panic of `FindUp`.
pub data Outcome (S : Type 0) : Type 0 where
  returns : List Node → Option Error → Cluster → S → Outcome S
  crashed : Outcome S

module _ (os : Os) where
  -- One round of the loop of `NewNodes`.
  make_node : FilePath → ℕ → os.State → Result Node × os.State
  make_node dir id s = elim (os.mkdir (join dir (itoa id)) s).0 [
    | some e ↦ (
      err (wrap "creating dir for node %d" (int (ℤ.pos id) ∷ []) e),
      (os.mkdir (join dir (itoa id)) s).1,
    )
    | none ↦ (
      ok (record { id = id; env = []; dir = join dir (itoa id) }),
      (os.mkdir (join dir (itoa id)) s).1,
    )
  ]

  from_grown : Cluster → Grown Node os.State → Outcome os.State
  from_grown c g = returns g.new_nodes g.error (record c { nodes = g.nodes }) g.world

  -- What `NewNodes` does with the result of `FindUp`.
  with_agent : Found → ℕ → Cluster → os.State → Outcome os.State
  unfolding from_grown make_node
  with_agent (found p) n c s = from_grown c (grow (make_node c.dir) n (length c.nodes) [] c.nodes s)
  with_agent absent n c s = returns [] (some (errorf "unable to find nodeagent bin" [])) c s
  with_agent panicked n c s = crashed
  with_agent out_of_fuel n c s = crashed

  -- `NewNodes`, with what `os.Getwd` gives.
  unfoldable pub new_nodes : ReadDir → Result FilePath → ℕ → Cluster → os.State → Outcome os.State
  unfolding with_agent
  new_nodes read_dir (err e) n c s = returns [] (some (wrap "getting wd" [] e)) c s
  new_nodes read_dir (ok wd) n c s = with_agent (find_up read_dir "nodeagent" wd) n c s

  -- `Node.Stop` does nothing.
  stop : Node → Option Error
  stop node = none

  stop_all : List Node → Option Error
  unfolding stop
  stop_all [] = none
  stop_all (node ∷ nodes) =
      let rest = stop_all nodes in
      elim (stop node) [
        | some e ↦ some (wrap "stopping node %d" (int (ℤ.pos node.id) ∷ []) e)
        | none ↦ rest
      ]

  -- `Cleanup`
  unfoldable pub cleanup : Cluster → os.State → Option Error × os.State
  unfolding stop_all
  cleanup c s = elim (stop_all c.nodes) [ some e ↦ (some e, s) | none ↦ os.remove_all c.dir s ]

-- How `cmd.Wait` ends: with exit code 0, with an `ExitError`, or with another error.
pub data WaitEnd : Type 0 where
  success : WaitEnd
  exit_error : ℤ → WaitEnd
  other_error : Error → WaitEnd

-- What the goroutine of `StartProc` sends for the process.
unfoldable pub wait_result : WaitEnd → CmdResult
wait_result success = record { code = ℤ.pos 0; error = none }
wait_result (exit_error code) = record { code = code; error = none }
wait_result (other_error e) = record { code = ℤ.negsuc 0; error = some e }
