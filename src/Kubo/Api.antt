-- ===== src/Kubo/Api.antt =====
-- examples/kubo/kubo.go: `APIAddr`, which the node keeps, `checkAPI` and `WaitOnAPI`.
pub mod Laws
use clustertest.Prelude.{
  ◌≡◌, ℕ, zero, suc, String, ◌<>◌, Bool, true, false, List, [], Option, none, some, Error, errorf,
  wrap, Result, ok, err, or_wrap, ◌>>=◌, str_eq, if◌then◌else◌,
}
use clustertest.Process.Types.{Bytes}
use clustertest.Process.Writer.{Reader, contents}
use clustertest.Kubo.Addrs.{Multiaddrs, ProtocolValue, value, not_found, other_error}

-- What the check uses of other packages: the protocols and the parser of go-multiaddr, and the "ID"
-- that encoding/json finds in an answer.
pub record Wires (M : Multiaddrs) : Type 0 where
  pub ip4 : M.Protocol
  pub tcp : M.Protocol
  pub new_multiaddr : Bytes → Result M.Addr
  pub decode_id : Bytes → Result String

-- The world at one check: what `ReadFile` gives for the file "api", and what a POST answers.
pub record Moment : Type 0 where
  pub api_file : Result Reader
  pub post : String → Result Reader

-- `io.ReadAll`
abbrev pub read_all : Option Error → Bytes → Result Bytes
read_all none b = ok b
read_all (some e) b = err e

-- A check's outcome; `log.Fatal` ends the program.
pub data Checked : Type 0 where
  offline online : Checked
  fatal : Checked

pub data WaitEnd : Type 0 where
  returns : Option Error → WaitEnd
  exits : WaitEnd

module _ {M : Multiaddrs} (P : Wires M) where
  -- The reading of the file.
  unfoldable pub read_addr : Result Reader → Result M.Addr
  read_addr file = do
    rc ← or_wrap file "opening api file" []
    b ← or_wrap (read_all rc.fault (contents rc.chunks)) "reading api file" []
    P.new_multiaddr b

  -- `APIAddr`, of a node that keeps this address.
  unfoldable pub api_addr : Option M.Addr → Result Reader → Result M.Addr
  unfolding read_addr
  api_addr (some a) file = ok a
  api_addr none file = read_addr file

  -- What the node keeps after it.
  abbrev pub kept : Result M.Addr → Option M.Addr
  kept (ok a) = some a
  kept (err e) = none

  abbrev pub id_found : Result String → Checked
  id_found (err e) = offline
  id_found (ok i) = if str_eq i "" then offline else online

  abbrev pub received : Result Reader → Result String
  received answer = do body ← answer; b ← read_all body.fault (contents body.chunks); P.decode_id b

  -- The part of `checkAPI` after the POST.
  unfoldable pub check_response : Result Reader → Checked
  check_response answer = id_found (received answer)

  abbrev pub at_port : (String → Result Reader) → ProtocolValue → ProtocolValue → Checked
  at_port post (value ip) (value port) =
      check_response (post ("http://" <> ip <> ":" <> port <> "/api/v0/id"))
  at_port post (value ip) not_found = fatal
  at_port post (value ip) (other_error e) = fatal
  at_port post not_found v = fatal
  at_port post (other_error e) v = fatal

  -- The part of `checkAPI` after `APIAddr`.
  unfoldable pub check_addr : (String → Result Reader) → Result M.Addr → Checked
  unfolding check_response
  check_addr post (err e) = offline
  check_addr post (ok a) =
      at_port post (M.value_for_protocol a P.ip4) (M.value_for_protocol a P.tcp)

  -- `checkAPI`: the outcome, and the address that the node keeps then.
  unfoldable pub check_api : Moment → Option M.Addr → Checked × Option M.Addr
  unfolding check_addr api_addr
  check_api now addr = let a = api_addr addr now.api_file in (check_addr now.post a, kept a)

  -- The loop's end at this check, or after the rest of it.
  abbrev pub step_of :
      Checked → Option M.Addr → ℕ → WaitEnd × Option M.Addr × ℕ → WaitEnd × Option M.Addr × ℕ
  step_of online next i rest = (returns none, next, suc i)
  step_of offline next i rest = rest
  step_of fatal next i rest = (exits, next, suc i)

  -- The loop of `WaitOnAPI` with this many checks left, the next being that of number `i`. The third
  -- component is the number of checks that were made.
  unfoldable pub wait_from : ℕ → ℕ → (ℕ → Moment) → Option M.Addr → WaitEnd × Option M.Addr × ℕ
  unfolding check_api
  wait_from zero i world addr = (returns (some (errorf "timed out waiting on API" [])), addr, i)
  wait_from (suc left) i world addr =
      let (c, next) = check_api (world i) addr in
      let rest = wait_from left (suc i) world next in step_of c next i rest

  -- `WaitOnAPI`, in a world that goes on.
  unfoldable pub wait_on_api : (ℕ → Moment) → Option M.Addr → WaitEnd × Option M.Addr × ℕ
  unfolding wait_from
  wait_on_api world addr = wait_from 500 0 world addr
