-- ===== src/Kubo/Api/Laws.antt =====
-- When `WaitOnAPI` of examples/kubo/kubo.go ends, and which address it asks.
use clustertest.Prelude.{
  ◌≢◌, String, errorf, [], subst, ◌≡◌, refl, ap, sym, ◌∙◌, ℕ, zero, suc, ◌+◌, ◌≤◌, ◌<◌, Option,
  none, some, Result, ok, err, arith,
}
use clustertest.Process.Writer.{Reader}
use clustertest.Kubo.Addrs.{ProtocolValue, value, not_found, other_error, Multiaddrs}
use clustertest.Kubo.Api.{
  kept, at_port, check_response, id_found, received, Wires, Moment, Checked, offline, online, fatal,
  WaitEnd, returns, exits, api_addr, check_addr, check_api, wait_from, wait_on_api, step_of,
}

offline_online : offline ≡ online → ⊥
offline_online e = ground arith

module _ {M : Multiaddrs} (P : Wires M) where
  -- How the wait ended, after `made` checks, and what the node keeps then.
  pub data Ended (world : ℕ → Moment) (i : ℕ) (n : ℕ) : WaitEnd → Option M.Addr → ℕ → Type 0 where
    came_online :
        {a : M.Addr} {last : ℕ}
        → i ≤ last
        → last < n
        → check_addr P (world last).post (ok a) ≡ online
        → Ended world i n (returns none) (some a) (suc last)
    exited :
        {a : M.Addr} {last : ℕ}
        → i ≤ last
        → last < n
        → check_addr P (world last).post (ok a) ≡ fatal
        → Ended world i n exits (some a) (suc last)
    timed_out :
        {addr : Option M.Addr}
        → Ended world i n (returns (some (errorf "timed out waiting on API" []))) addr n

  Ended-earlier :
      {world : ℕ → Moment} {i n : ℕ} {e : WaitEnd} {addr : Option M.Addr} {made : ℕ}
      → Ended world (suc i) n e addr made
      → Ended world i n e addr made
  Ended-earlier (came_online from to h) = came_online (omega (arith, from)) to h
  Ended-earlier (exited from to h) = exited (omega (arith, from)) to h
  Ended-earlier timed_out = timed_out

  step-Ended :
      (i n : ℕ) (world : ℕ → Moment) (a : Result M.Addr) (c : Checked)
      (rest : WaitEnd × Option M.Addr × ℕ)
      → i < n
      → check_addr P (world i).post a ≡ c
      → Ended world (suc i) n rest.0 rest.1 rest.2
      → let (e, next, made) = step_of P c (kept P a) i rest in Ended world i n e next made
  unfolding check_addr
  step-Ended i n world (ok a) online rest below h r = came_online (omega arith) below h
  step-Ended i n world (ok a) fatal rest below h r = exited (omega arith) below h
  step-Ended i n world a offline rest below h r = Ended-earlier r
  step-Ended i n world (err e) online rest below h r = absurd (ground arith)
  step-Ended i n world (err e) fatal rest below h r = absurd (ground arith)

  wait_from-Ended :
      (left i n : ℕ) (world : ℕ → Moment) (addr : Option M.Addr)
      → left + i ≡ n
      → let (e, next, made) = wait_from P left i world addr in Ended world i n e next made
  unfolding wait_from
  wait_from-Ended zero i n world addr same =
      subst (λ k. Ended world i n (returns (some (errorf "timed out waiting on API" []))) addr k)
        (omega (arith, same)) timed_out
  wait_from-Ended (suc left) i n world addr same =
      let a = api_addr P addr (world i).api_file in
      step-Ended i n world a _ _ (omega (arith, same)) refl
        (wait_from-Ended left (suc i) n world (kept P a) (omega (arith, same)))

  -- `WaitOnAPI` makes at most 500 checks. It returns no error only when the last check finds the API
  -- online at the address that the node then keeps, ends the program only when that address lacks an
  -- IPv4 address or a port, and else returns an error after 500 checks.
  pub wait_on_api-Ended :
      (world : ℕ → Moment) (addr : Option M.Addr)
      → let (e, next, made) = wait_on_api P world addr in Ended world 0 500 e next made
  unfolding wait_on_api
  wait_on_api-Ended world addr = wait_from-Ended 500 0 500 world addr refl

  id_found-fatal : (r : Result String) → id_found P r ≡ fatal → ⊥
  id_found-fatal (err e) h = ground arith
  id_found-fatal (ok i) h = ground arith

  check_response-fatal : (answer : Result Reader) → check_response P answer ≡ fatal → ⊥
  unfolding check_response
  check_response-fatal answer h = id_found-fatal (received P answer) h

  -- A check of an address ends the program at one time only if it never finds the API.
  fatal_never :
      (p q : String → Result Reader) (a : M.Addr)
      → check_addr P p (ok a) ≡ fatal
      → check_addr P q (ok a) ≡ online
      → ⊥
  unfolding check_addr
  fatal_never p q a h g =
      by_values (M.value_for_protocol a P.ip4) (M.value_for_protocol a P.tcp) h g
    where
      by_values : (u v : ProtocolValue) → at_port P p u v ≡ fatal → at_port P q u v ≡ online → ⊥
      by_values (value ip) (value port) h g = check_response-fatal _ h
      by_values (value ip) not_found h g = ground arith
      by_values (value ip) (other_error e) h g = ground arith
      by_values not_found v h g = ground arith
      by_values (other_error e) v h g = ground arith

  -- When a node that keeps this address is found online.
  abbrev pub Answers : (ℕ → Moment) → M.Addr → ℕ → ℕ → Type 0
  Answers world a i n = (k : ℕ) × (i ≤ k) × (k < n) × (check_addr P (world k).post (ok a) ≡ online)

  step-Answers :
      (i n : ℕ) (world : ℕ → Moment) (a : M.Addr) (c : Checked) (rest : WaitEnd × Option M.Addr × ℕ)
      → check_addr P (world i).post (ok a) ≡ c
      → Answers world a i n
      → (Answers world a (suc i) n → rest.0 ≡ returns none)
      → (step_of P c (some a) i rest).0 ≡ returns none
  step-Answers i n world a online rest h (k, from, to, g) r = refl
  step-Answers i n world a fatal rest h (k, from, to, g) r =
      absurd (fatal_never (world i).post (world k).post a h g)
  step-Answers i n world a offline rest h (k, from, to, g) r =
      r (k, omega (arith, from, differs), to, g)
    where
      differs : i ≢ k
      differs same = offline_online (sym h ∙ ap (λ j. check_addr P (world j).post (ok a)) same ∙ g)

  wait_from-Answers :
      (left i n : ℕ) (world : ℕ → Moment) (a : M.Addr)
      → left + i ≡ n
      → Answers world a i n
      → (wait_from P left i world (some a)).0 ≡ returns none
  unfolding wait_from check_api api_addr
  wait_from-Answers zero i n world a same (k, from, to, g) = absurd (omega (arith, same, from, to))
  wait_from-Answers (suc left) i n world a same h =
      step-Answers i n world a _ _ refl h
        (wait_from-Answers left (suc i) n world a (omega (arith, same)))

  -- If a node keeps an address and at one of the 500 checks the API answers at it then `WaitOnAPI`
  -- returns no error, whatever the file "api" holds.
  pub wait_on_api-Answers :
      (world : ℕ → Moment) (a : M.Addr)
      → Answers world a 0 500
      → (wait_on_api P world (some a)).0 ≡ returns none
  unfolding wait_on_api
  wait_on_api-Answers world a h = wait_from-Answers 500 0 500 world a refl h
