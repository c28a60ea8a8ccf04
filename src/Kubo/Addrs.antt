-- ===== src/Kubo/Addrs.antt =====
-- examples/kubo/kubo.go: `MultiaddrContains`, `IsLoopback` and `RemoveLocalAddrs`.
use clustertest.Prelude.{
  ◌≡◌, refl, String, Bool, true, false, List, [], ◌∷◌, Option, none, some, Error, Result, ok, err,
  ◌>>=◌, str_eq, if◌then◌else◌,
}

-- `ValueForProtocol`: a value, `ErrProtocolNotFound`, or another error.
pub data ProtocolValue : Type 0 where
  value : String → ProtocolValue
  not_found : ProtocolValue
  other_error : Error → ProtocolValue

-- go-multiaddr: a component is a protocol with a value.
pub record Multiaddrs : Type 1 where
  pub Addr : Type 0
  pub Protocol : Type 0
  pub new_component : String → String → Result (Protocol × String)
  pub value_for_protocol : Addr → Protocol → ProtocolValue

-- Of an address whose value for the protocol is this, does it have the component?
abbrev pub has_value : String → ProtocolValue → Result Bool
has_value v (value w) = ok (str_eq w v)
has_value v not_found = ok false
has_value v (other_error e) = err e

module _ (M : Multiaddrs) where
  -- `MultiaddrContains`
  unfoldable pub multiaddr_contains : M.Addr → M.Protocol × String → Result Bool
  multiaddr_contains ma (protocol, v) = has_value v (M.value_for_protocol ma protocol)

  -- The loop of `IsLoopback`.
  unfoldable pub contains_any : M.Addr → List (M.Protocol × String) → Result Bool
  unfolding multiaddr_contains
  contains_any ma [] = ok false
  contains_any ma (c ∷ cs) =
      let rest = contains_any ma cs in multiaddr_contains ma c >>= λ b. if b then ok true else rest

  -- The three components that `IsLoopback` makes.
  unfoldable pub loopback_components : Result (List (M.Protocol × String))
  loopback_components = do
    ip4 ← M.new_component "ip4" "127.0.0.1"
    ip6 ← M.new_component "ip6" "::1"
    mapped ← M.new_component "ip6" "::ffff:127.0.0.1"
    ok (ip4 ∷ ip6 ∷ mapped ∷ [])

  -- `IsLoopback`
  unfoldable pub is_loopback : M.Addr → Result Bool
  unfolding contains_any loopback_components
  is_loopback ma = loopback_components >>= contains_any ma

  abbrev pub keep_unless : M.Addr → Bool → List M.Addr → List M.Addr
  keep_unless a true l = l
  keep_unless a false l = a ∷ l

  -- The loop of `RemoveLocalAddrs`.
  unfoldable pub not_local : List M.Addr → Result (List M.Addr)
  unfolding is_loopback
  not_local [] = ok []
  not_local (a ∷ addrs) =
      let rest = not_local addrs in is_loopback a >>= λ b. rest >>= λ l. ok (keep_unless a b l)

  abbrev removal : List M.Addr → Result (List M.Addr) → Option Error × List M.Addr
  removal addrs (err e) = (some e, addrs)
  removal addrs (ok l) = (none, l)

  -- `RemoveLocalAddrs`: the error, and the addresses that the `AddrInfo` then has.
  unfoldable pub remove_local_addrs : List M.Addr → Option Error × List M.Addr
  unfolding not_local
  remove_local_addrs addrs = removal addrs (not_local addrs)

  -- A list without its loopback addresses, the others in order.
  pub data Filtered : List M.Addr → List M.Addr → Type 0 where
    nil : Filtered [] []
    drop_local :
        {a : M.Addr} {l m : List M.Addr}
        → is_loopback a ≡ ok true
        → Filtered l m
        → Filtered (a ∷ l) m
    keep :
        {a : M.Addr} {l m : List M.Addr}
        → is_loopback a ≡ ok false
        → Filtered l m
        → Filtered (a ∷ l) (a ∷ m)

  -- The first address whose test fails.
  pub data FailsAt (e : Error) : List M.Addr → Type 0 where
    here : {a : M.Addr} {l : List M.Addr} → is_loopback a ≡ err e → FailsAt e (a ∷ l)
    later :
        {a : M.Addr} {l : List M.Addr} {b : Bool}
        → is_loopback a ≡ ok b
        → FailsAt e l
        → FailsAt e (a ∷ l)

  -- How `RemoveLocalAddrs` ends: the loopback addresses are gone, or a test failed and all are there.
  abbrev pub Removed : List M.Addr → Option Error → List M.Addr → Type 0
  Removed addrs none left = Filtered addrs left
  Removed addrs (some e) left = (left ≡ addrs) × FailsAt e addrs

  keep_unless-Filtered :
      (a : M.Addr) (b : Bool) (l m : List M.Addr)
      → is_loopback a ≡ ok b
      → Filtered l m
      → Filtered (a ∷ l) (keep_unless a b m)
  keep_unless-Filtered a true l m e f = drop_local e f
  keep_unless-Filtered a false l m e f = keep e f

  abbrev Outcome : List M.Addr → Result (List M.Addr) → Type 0
  Outcome addrs (ok l) = Filtered addrs l
  Outcome addrs (err e) = FailsAt e addrs

  not_local_cons-Outcome :
      (a : M.Addr) (addrs : List M.Addr) (r : Result Bool) (q : Result (List M.Addr))
      → is_loopback a ≡ r
      → Outcome addrs q
      → Outcome (a ∷ addrs) (r >>= λ b. q >>= λ l. ok (keep_unless a b l))
  not_local_cons-Outcome a addrs (err e) q same o = here same
  not_local_cons-Outcome a addrs (ok b) (err e) same o = later same o
  not_local_cons-Outcome a addrs (ok b) (ok l) same o = keep_unless-Filtered a b addrs l same o

  not_local-Outcome : (addrs : List M.Addr) → Outcome addrs (not_local addrs)
  unfolding not_local
  not_local-Outcome [] = nil
  not_local-Outcome (a ∷ addrs) =
      not_local_cons-Outcome a addrs (is_loopback a) (not_local addrs) refl
        (not_local-Outcome addrs)

  removal-Removed :
      (addrs : List M.Addr) (r : Result (List M.Addr))
      → Outcome addrs r
      → Removed addrs (removal addrs r).0 (removal addrs r).1
  removal-Removed addrs (err e) o = (refl, o)
  removal-Removed addrs (ok l) o = o

  -- `RemoveLocalAddrs` without an error leaves the addresses that are no loopback addresses, in their
  -- order; it returns an error if the test of an address fails, the first such, and then leaves all.
  pub remove_local_addrs-Removed :
      (addrs : List M.Addr)
      → Removed addrs (remove_local_addrs addrs).0 (remove_local_addrs addrs).1
  unfolding remove_local_addrs
  remove_local_addrs-Removed addrs =
      removal-Removed addrs (not_local addrs) (not_local-Outcome addrs)
