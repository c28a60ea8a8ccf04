-- ===== src/Prelude/Maps.antt =====
-- Go maps from strings to strings.
use Prim.Native.String.{String}
use mathlib.Core.List.{List, [], ◌∷◌}
use text.Mathlib.Text.{◌==◌}
use clustertest.Prelude.Tests.{if◌then◌else◌}

-- The entries of a map, in the order in which `range` gives them.
abbrev pub Env : Type 0
Env = List (String × String)

-- `m[k] = v`
unfoldable pub put : String → String → Env → Env
put k v [] = (k, v) ∷ []
put k v ((j, w) ∷ m) = if j == k then (k, v) ∷ m else (j, w) ∷ put k v m

-- `m[k]`: the empty string for a key that the map lacks.
unfoldable pub get : String → Env → String
get k [] = ""
get k ((j, w) ∷ m) = if j == k then w else get k m
