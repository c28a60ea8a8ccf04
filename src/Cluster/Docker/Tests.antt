-- ===== src/Cluster/Docker/Tests.antt =====
-- The prefix of a Docker cluster that the first, the last and the fourth character are drawn for.
use clustertest.Prelude.{◌≡◌, refl, [], ◌∷◌}
use clustertest.Cluster.Docker.Setup.{rand_string}

rand_string_six : rand_string (0 ∷ 34 ∷ 3 ∷ 3 ∷ 3 ∷ 3 ∷ []) ≡ "a9eeee"
unfolding rand_string
rand_string_six = refl
