-- ===== src/Kubo/NodeTests.antt =====
-- The API of a Kubo node and its addresses, and the theorems there.
use clustertest.Prelude.{
  ℕ, zero, suc, str_eq, String, [], ◌∷◌, none, some, not_exist, ok, err, if◌then◌else◌,
}
use clustertest.Process.Types.{Bytes}
use clustertest.Process.Writer.{Reader}
use clustertest.Kubo.Addrs.{Multiaddrs, value, not_found}
use clustertest.Kubo.Api.{Wires, Moment, wait_on_api}
use clustertest.Kubo.Api.Laws.{Ended, wait_on_api-Ended}

abbrev stored : Bytes → Reader
stored b = record { chunks = b ∷ []; fault = none }

-- Addresses that are their IPv4 address; a protocol is its name.
abbrev hosts : Multiaddrs
hosts = record {
  Addr = String;
  Protocol = String;
  new_component = λ p v. ok (p, v);
  value_for_protocol = λ a p. if str_eq p "ip6" then not_found else value a;
}

abbrev wires : Wires hosts
wires = record {
  ip4 = "ip4";
  tcp = "tcp";
  new_multiaddr = λ b. ok "10.0.0.1";
  decode_id = λ b. ok "peer";
}

-- The daemon answers from the third check on.
abbrev later_up : ℕ → Moment
later_up zero = record { api_file = err not_exist; post = λ u. err not_exist }
later_up (suc zero) = record { api_file = err not_exist; post = λ u. err not_exist }
later_up (suc (suc i)) = record { api_file = err not_exist; post = λ u. ok (stored []) }

wait_on_api-Ended_example :
    let (e, next, made) = wait_on_api wires later_up (some "10.0.0.1") in
    Ended wires later_up 0 500 e next made
wait_on_api-Ended_example = wait_on_api-Ended wires later_up (some "10.0.0.1")
