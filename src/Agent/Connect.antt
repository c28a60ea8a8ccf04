-- ===== src/Agent/Connect.antt =====
-- agent/agent.go: `connect`, which carries bytes between a WebSocket connection and a connection that
-- the node dials; and the address that `DialContext` of agent/client.go asks for.
pub mod Laws
use clustertest.Prelude.{
  ◌≡◌, String, ◌<>◌, Bool, true, false, List, [], ◌∷◌, ◌++◌, Option, none, some, Error,
}
use clustertest.Process.Types.{Bytes}
use clustertest.Agent.Http.{Response, http_error}

-- `DialContext`: the URL of the WebSocket connection.
unfoldable pub dial_url : String → String → String → String
dial_url base network addr = base <> "/connect/" <> network <> "/" <> addr

-- The two connections of `connect`: `remoteConn`, the WebSocket, and `localConn`, which it dials.
pub data End : Type 0 where
  remote_conn : End
  local_conn : End

-- A connection, with all that was read from it and all that was written to it, and whether the agent
-- has closed it.
pub record Conn : Type 0 where
  pub received : Bytes
  pub written : Bytes
  pub is_closed : Bool

pub record Conns : Type 0 where
  pub remote : Conn
  pub local : Conn

abbrev pub conn_at : End → Conns → Conn
conn_at remote_conn k = k.remote
conn_at local_conn k = k.local

abbrev pub on_conn : End → (Conn → Conn) → Conns → Conns
on_conn remote_conn f k = record k { remote = f k.remote }
on_conn local_conn f k = record k { local = f k.local }

abbrev pub receive : Bytes → Conn → Conn
receive b c = record c { received = c.received ++ b }

abbrev pub write : Bytes → Conn → Conn
write b c = record c { written = c.written ++ b }

abbrev pub close : Conn → Conn
close c = record c { is_closed = true }

-- The arguments of an `io.Copy`.
pub record CopyArgs : Type 0 where
  pub dst : End
  pub src : End

-- The copy in the goroutine, and the one in the handler.
abbrev pub up_args : CopyArgs
up_args = record { dst = local_conn; src = remote_conn }

abbrev pub down_args : CopyArgs
down_args = record { dst = remote_conn; src = local_conn }

-- Where an `io.Copy` stands: before a read, before the write of what it read, or ended.
pub data CopyPc : Type 0 where
  reading : CopyPc
  writing : Bytes → CopyPc
  ended : CopyPc

-- The copies of the goroutine and of the handler, and the connections.
pub record Proxy : Type 0 where
  pub up : CopyPc
  pub down : CopyPc
  pub conns : Conns

abbrev pub start : Proxy
start =
    let fresh : Conn = record { received = []; written = []; is_closed = false } in
    record { up = reading; down = reading; conns = record { remote = fresh; local = fresh } }

-- How far `connect` comes: to its answer, to the close of the WebSocket, or to the two copies.
pub data Start : Type 0 where
  refused : Response → Start
  closed : Start
  proxies : Proxy → Start

-- `connect`, with what accepting the WebSocket and dialling give.
unfoldable pub connect : Option Error → Option Error → Start
connect (some e) dialed = refused (http_error e 503)
connect none (some e) = closed
connect none none = proxies start

-- A read or a write of a copy that succeeds, on a connection that is not closed.
pub data CopyStep (a : CopyArgs) (c : CopyPc) (k : Conns) (d : CopyPc) (l : Conns) : Type 0 where
  reads :
      (b : Bytes)
      → c ≡ reading
      → (conn_at a.src k).is_closed ≡ false
      → d ≡ writing b
      → l ≡ on_conn a.src (receive b) k
      → CopyStep a c k d l
  writes :
      (b : Bytes)
      → c ≡ writing b
      → (conn_at a.dst k).is_closed ≡ false
      → d ≡ reading
      → l ≡ on_conn a.dst (write b) k
      → CopyStep a c k d l

-- The end of a copy, after which the connections are as said: at the end of what is read or an error
-- of a read, at an error of a write, which may have written a first part, and at a write on a closed
-- connection.
pub data CopyEnd (a : CopyArgs) (c : CopyPc) (k : Conns) (l : Conns) : Type 0 where
  read_ends : c ≡ reading → l ≡ k → CopyEnd a c k l
  write_ends :
      (x y : Bytes)
      → c ≡ writing (x ++ y)
      → (conn_at a.dst k).is_closed ≡ false
      → l ≡ on_conn a.dst (write x) k
      → CopyEnd a c k l
  write_refused :
      (b : Bytes) → c ≡ writing b → (conn_at a.dst k).is_closed ≡ true → l ≡ k → CopyEnd a c k l

-- When the goroutine's copy ends its deferred calls close both connections; when the handler's ends
-- it returns, and the end of the request's context closes the WebSocket.
pub data Step (p q : Proxy) : Type 0 where
  up_moves :
      (c : CopyPc) (k : Conns)
      → CopyStep up_args p.up p.conns c k
      → q ≡ record p { up = c; conns = k }
      → Step p q
  up_ends :
      (k : Conns)
      → CopyEnd up_args p.up p.conns k
      → q ≡ record p { up = ended; conns = on_conn remote_conn close (on_conn local_conn close k) }
      → Step p q
  down_moves :
      (c : CopyPc) (k : Conns)
      → CopyStep down_args p.down p.conns c k
      → q ≡ record p { down = c; conns = k }
      → Step p q
  down_ends :
      (k : Conns)
      → CopyEnd down_args p.down p.conns k
      → q ≡ record p { down = ended; conns = on_conn remote_conn close k }
      → Step p q

pub data Reach (p : Proxy) : Proxy → Type 0 where
  here : Reach p p
  later : {q r : Proxy} → Reach p q → Step q r → Reach p r
