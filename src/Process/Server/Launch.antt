-- ===== src/Process/Server/Launch.antt =====
-- How a connection's run begins.
use clustertest.Prelude.{
  ◌≡◌, refl, ◌↔◌, String, List, Option, none, Error, Result, ok, err, Option-cases, inl, inr, arith,
}
use clustertest.Process.Types.{Request}
use clustertest.Process.Server.{Command, build_command, running, panicked, run_first}

module _ (environ : List String) (start : Command → Option Error) where
  running_started :
      (first : Result Request) (c : Command)
      → run_first environ start first ≡ running c
      → (q : Request) × (first ≡ ok q) × (c ≡ build_command environ q) × (start c ≡ none)
  unfolding run_first
  running_started (err e) c h = cc
  running_started (ok q) c h = elim (Option-cases (start (build_command environ q))) [
    | inl e ↦ (q, refl, ground arith, ground arith)
    | inr (x, e) ↦ ground arith
  ]

  started_running :
      (first : Result Request) (c : Command) (q : Request)
      → first ≡ ok q
      → c ≡ build_command environ q
      → start c ≡ none
      → run_first environ start first ≡ running c
  unfolding run_first
  started_running first c q f b s = ground arith

  -- The goroutines are started exactly when a first message was read and the command that it asks
  -- for has started.
  pub run_first-running :
      (first : Result Request) (c : Command)
      → (run_first environ start first ≡ running c)
        ↔ ((q : Request) × (first ≡ ok q) × (c ≡ build_command environ q) × (start c ≡ none))
  run_first-running first c =
      (running_started first c, λ (q, f, b, s). started_running first c q f b s)

  -- The server dereferences nil, in `shutdown`, exactly when the first message cannot be read.
  pub run_first-panicked :
      (first : Result Request)
      → (run_first environ start first ≡ panicked) ↔ ((e : Error) × (first ≡ err e))
  unfolding run_first
  run_first-panicked (err e) = (λ _. (e, refl), λ _. refl)
  run_first-panicked (ok q) = (λ h. absurd (ground arith), λ h. absurd (ground arith))
