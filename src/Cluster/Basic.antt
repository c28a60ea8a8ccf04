-- ===== src/Cluster/Basic.antt =====
-- cluster/basic.go: `New`, its option and its logger.
use clustertest.Prelude.{◌≡◌, refl, ap, String, List, [], ◌∷◌, ◌++◌, wrap, Result, ok, err}

-- A logger: the names that `Named` has given it, last first.
abbrev pub Logger : Type 0
Logger = List String

abbrev pub named : String → Logger → Logger
named name l = name ∷ l

-- `BasicCluster`
pub record BasicCluster (C : Type 0) : Type 0 where
  pub cluster : C
  pub log : Logger

-- `WithLogger`
unfoldable pub with_logger : {C : Type 0} → Logger → BasicCluster C → BasicCluster C
with_logger l c = record c { log = named "basic_cluster" l }

apply : {C : Type 0} → List (BasicCluster C → BasicCluster C) → BasicCluster C → BasicCluster C
apply [] c = c
apply (o ∷ opts) c = apply opts (o c)

-- `New`, with what `zap.NewProduction` gives.
unfoldable pub new :
    {C : Type 0}
    → Result Logger
    → C
    → List (BasicCluster C → BasicCluster C)
    → Result (BasicCluster C)
unfolding with_logger apply
new (err e) c opts = err (wrap "constructing default logger" [] e)
new (ok l) c opts = ok (apply opts (with_logger l (record { cluster = c; log = [] })))

apply-snoc :
    {C : Type 0} (opts : List (BasicCluster C → BasicCluster C))
    (o : BasicCluster C → BasicCluster C) (c : BasicCluster C)
    → apply (opts ++ (o ∷ [])) c ≡ o (apply opts c)
unfolding apply
apply-snoc [] o c = refl
apply-snoc (x ∷ opts) o c = apply-snoc opts o (x c)

-- Where `New` can make its own logger, a `WithLogger` at the end of the options decides the logger,
-- whatever that one and the other options are.
pub new-with_logger :
    {C : Type 0} (l k : Logger) (c : C) (opts : List (BasicCluster C → BasicCluster C))
    → (b : BasicCluster C) × (new (ok l) c (opts ++ (with_logger k ∷ [])) ≡ ok b)
      × (b.log ≡ named "basic_cluster" k)
unfolding new with_logger
new-with_logger l k c opts = (
  _,
  ap ok (apply-snoc opts (with_logger k) (with_logger l (record { cluster = c; log = [] }))),
  refl,
)
