-- ===== src/Cluster/Startup.antt =====
-- How the `NewCluster` functions end, which may panic, and the steps that they share: the calls that
-- return an error, `agent.GenerateCerts` and `files.FindNodeAgentBin`.
use clustertest.Prelude.{
  String, ◌≡◌, refl, ◌⊎◌, inl, inr, List, [], ◌∷◌, Error, wrap, Result, ok, err, arith,
}
use clustertest.Paths.{FilePath}
use clustertest.Files.{Looked, bin}
use clustertest.Files
use clustertest.Agent.Certs.{Certs, Outcome, returns, nil_dereference}

-- How a function that may panic ends.
pub data Setup (A : Type 0) : Type 0 where
  ready : A → Setup A
  fails : Error → Setup A
  crashes : Setup A

infixl 5 ◌>>=◌
abbrev pub ◌>>=◌ : {A B : Type 0} → Setup A → (A → Setup B) → Setup B
ready a >>= f = f a
fails e >>= f = fails e
crashes >>= f = crashes

abbrev pub try : {A : Type 0} → Result A → Setup A
try (ok a) = ready a
try (err e) = fails e

-- The first of a list that is indexed at 0.
abbrev pub first : {A : Type 0} → List A → Setup A
first [] = crashes
first (a ∷ l) = ready a

abbrev pub certs_of : {K : Type 0} → String → Outcome (Certs K) → Setup (Certs K)
certs_of message (returns c) = ready c
certs_of message (Outcome.fails e) = fails (wrap message [] e)
certs_of message nil_dereference = crashes

abbrev pub bin_of : Looked → Setup FilePath
bin_of (bin p) = ready p
bin_of (Files.fails e) = fails (wrap "finding node agent bin" [] e)
bin_of Files.crashes = crashes

-- Where a sequence of calls panics.
pub >>=-crashes :
    {A B : Type 0} (m : Setup A) (f : A → Setup B)
    → (m >>= f) ≡ crashes
    → (m ≡ crashes) ⊎ ((a : A) × (m ≡ ready a) × (f a ≡ crashes))
>>=-crashes (ready a) f e = inr (a, refl, e)
>>=-crashes (fails x) f e = absurd (ground arith)
>>=-crashes crashes f e = inl refl

pub certs_of-crashes :
    {K : Type 0} (message : String) (o : Outcome (Certs K))
    → certs_of message o ≡ crashes
    → o ≡ nil_dereference
certs_of-crashes message (returns c) e = absurd (ground arith)
certs_of-crashes message (Outcome.fails x) e = absurd (ground arith)
certs_of-crashes message nil_dereference e = refl

pub bin_of-crashes : (l : Looked) → bin_of l ≡ crashes → l ≡ Files.crashes
bin_of-crashes (bin p) e = absurd (ground arith)
bin_of-crashes (Files.fails x) e = absurd (ground arith)
bin_of-crashes Files.crashes e = refl

-- How a sequence of calls is ready.
pub >>=-ready :
    {A B : Type 0} (m : Setup A) (f : A → Setup B) (b : B)
    → (m >>= f) ≡ ready b
    → (a : A) × (m ≡ ready a) × (f a ≡ ready b)
>>=-ready (ready a) f b e = (a, refl, e)
>>=-ready (fails x) f b e = absurd (ground arith)
>>=-ready crashes f b e = absurd (ground arith)

-- A call that returns an error does not panic, so the panic of a sequence comes after it.
pub >>=-try-crashes :
    {A B : Type 0} (r : Result A) (f : A → Setup B)
    → (try r >>= f) ≡ crashes
    → (a : A) × (try r ≡ ready a) × (f a ≡ crashes)
>>=-try-crashes (ok a) f e = (a, refl, e)
>>=-try-crashes (err x) f e = absurd (ground arith)
