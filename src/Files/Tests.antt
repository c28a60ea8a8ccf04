-- ===== src/Files/Tests.antt =====
-- The search in a small tree, and its theorem there.
use clustertest.Prelude.{◌≡◌, refl, true, [], ◌∷◌, none, some, if◌then◌else◌}
use clustertest.Paths.{FilePath, at, path_eq}
use clustertest.Files.{ReadDir, found, absent, panicked, find_up}
use clustertest.Files.Laws.{ancestors_of, Search, find_up-Search}

-- "/repo/cluster/docker", where "/repo" has the file.
abbrev tree : ReadDir
unfolding path_eq
tree p =
    if path_eq p (at true ("repo" ∷ []))
    then some ("go.mod" ∷ "nodeagent" ∷ [])
    else if path_eq p (at true ("private" ∷ []))
    then none
    else some ("repo" ∷ [])

abbrev docker_dir : FilePath
docker_dir = at true ("docker" ∷ "cluster" ∷ "repo" ∷ [])

find_up_above : find_up tree "nodeagent" docker_dir ≡ found (at true ("nodeagent" ∷ "repo" ∷ []))
unfolding find_up tree
find_up_above = refl

find_up_absent : find_up tree "nodeagent" (at true ("tmp" ∷ [])) ≡ absent
unfolding find_up tree
find_up_absent = refl

find_up_unreadable : find_up tree "nodeagent" (at true ("a" ∷ "private" ∷ [])) ≡ panicked
unfolding find_up tree
find_up_unreadable = refl

find_up-Search_example :
    Search tree "nodeagent"
      (ancestors_of true docker_dir.names)
      (find_up tree "nodeagent" docker_dir)
find_up-Search_example = find_up-Search tree "nodeagent" docker_dir
