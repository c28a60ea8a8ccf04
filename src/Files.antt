-- ===== src/Files.antt =====
-- internal/files/findup.go: the search for a file in a directory and those above it.
pub mod Laws
mod Tests
use clustertest.Prelude.{
  ◌≡◌, ℕ, zero, suc, String, Bool, true, false, ◌||◌, List, [], ◌∷◌, Option, none, some, Result, ok,
  err, Error, errorf, or_wrap, ◌>>=◌, length, str_eq, if◌then◌else◌,
}
use clustertest.Paths.{FilePath, dir, join, path_eq}

-- `os.ReadDir`: the names of the entries; `none` is an error.
abbrev pub ReadDir : Type 0
ReadDir = FilePath → Option (List String)

-- How `FindUp` ends. `absent` is the empty string; `out_of_fuel` is no outcome of the program.
pub data Found : Type 0 where
  found : FilePath → Found
  absent : Found
  panicked : Found
  out_of_fuel : Found

-- The inner loop: is there an entry of that name?
unfoldable pub has_entry : String → List String → Bool
has_entry name [] = false
has_entry name (e ∷ entries) = str_eq name e || has_entry name entries

module _ (read_dir : ReadDir) (name : String) where
  -- The outer loop, at `cur_dir`.
  unfoldable pub find_up_loop : ℕ → FilePath → Found
  find_up_loop zero cur_dir = out_of_fuel
  find_up_loop (suc fuel) cur_dir =
      let rest = find_up_loop fuel (dir cur_dir) in
      elim (read_dir cur_dir) [
        | none ↦ panicked
        | some entries ↦
            if has_entry name entries
            then found (join cur_dir name)
            else if path_eq (dir cur_dir) cur_dir
            then absent
            else rest
      ]

  -- `FindUp`: one round for each directory from `start_dir` up to the last.
  unfoldable pub find_up : FilePath → Found
  unfolding find_up_loop has_entry dir join path_eq
  find_up start_dir = find_up_loop (suc (length start_dir.names)) start_dir

-- What the callers of `FindUp` make of its string.
pub data Looked : Type 0 where
  bin : FilePath → Looked
  fails : Error → Looked
  crashes : Looked

found_bin : Found → Looked
found_bin (found p) = bin p
found_bin absent = fails (errorf "unable to find nodeagent bin" [])
found_bin panicked = crashes
found_bin out_of_fuel = crashes

-- `FindNodeAgentBin`, with what `os.Getwd` gives.
unfoldable pub find_node_agent_bin : ReadDir → Result FilePath → Looked
unfolding found_bin
find_node_agent_bin read_dir (ok wd) = found_bin (find_up read_dir "nodeagent" wd)
find_node_agent_bin read_dir (err e) = fails (Error.wrap "getting wd" [] e)
