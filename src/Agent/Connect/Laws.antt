-- ===== src/Agent/Connect/Laws.antt =====
-- The two copies of `connect` carry what they read, in order, each to the other connection, and close
-- the connections when they end.
use clustertest.Prelude.{◌≡◌, refl, ap, subst, ◌∙◌, true, [], ◌++◌, append-nil, append_assoc}
use clustertest.Process.Types.{Bytes}
use clustertest.Agent.Connect.{
  End, CopyArgs, remote_conn, local_conn, Conns, conn_at, close, on_conn, CopyPc, reading, writing,
  ended, Proxy, start, CopyStep, reads, writes, CopyEnd, read_ends, write_ends, write_refused, Step,
  up_moves, up_ends, down_moves, down_ends, Reach, here, later,
}

-- What is read and not written, at a place of a copy.
Pending : CopyPc → Bytes → Bytes → Type 0
Pending reading input output = output ≡ input
Pending (writing b) input output = output ++ b ≡ input
Pending ended input output = (rest : Bytes) × (output ++ rest ≡ input)

Pending-prefix :
    (pc : CopyPc) (input output : Bytes)
    → Pending pc input output
    → (rest : Bytes) × (output ++ rest ≡ input)
unfolding Pending
Pending-prefix reading input output h = ([], append-nil output ∙ h)
Pending-prefix (writing b) input output h = (b, h)
Pending-prefix ended input output h = h

at_pc :
    (c pc : CopyPc) (input output : Bytes)
    → c ≡ pc
    → Pending c input output
    → Pending pc input output
at_pc c pc input output e h = subst (λ x. Pending x input output) e h

abbrev other : End → End
other remote_conn = local_conn
other local_conn = remote_conn

-- A copy to an end carries what is read at the other.
abbrev Carries : End → CopyPc → Conns → Type 0
Carries e c k = Pending c (conn_at (other e) k).received (conn_at e k).written

-- A step of a copy carries on, leaves the other copy's bytes alone, and closes nothing.
record Kept (e : End) (c : CopyPc) (k l : Conns) : Type 0 where
  carried : Carries e c l
  received : (conn_at e l).received ≡ (conn_at e k).received
  written : (conn_at (other e) l).written ≡ (conn_at (other e) k).written
  remote : l.remote.is_closed ≡ k.remote.is_closed
  local : l.local.is_closed ≡ k.local.is_closed

abbrev args_to : End → CopyArgs
args_to e = record { dst = e; src = other e }

CopyStep-Kept :
    (e : End) (c : CopyPc) (k : Conns) (d : CopyPc) (l : Conns)
    → CopyStep (args_to e) c k d l
    → Carries e c k
    → Kept e d k l
unfolding Pending
CopyStep-Kept remote_conn c k d l (reads b h open_src to s) i =
    let now = at_pc c reading _ _ h i in
    rw (s, to)
      (record {
        carried = ap (λ x. x ++ b) now;
        received = refl;
        written = refl;
        remote = refl;
        local = refl;
      })
CopyStep-Kept local_conn c k d l (reads b h open_src to s) i =
    let now = at_pc c reading _ _ h i in
    rw (s, to)
      (record {
        carried = ap (λ x. x ++ b) now;
        received = refl;
        written = refl;
        remote = refl;
        local = refl;
      })
CopyStep-Kept remote_conn c k d l (writes b h open_dst to s) i =
    let now = at_pc c (writing b) _ _ h i in
    rw (s, to)
      (record { carried = now; received = refl; written = refl; remote = refl; local = refl })
CopyStep-Kept local_conn c k d l (writes b h open_dst to s) i =
    let now = at_pc c (writing b) _ _ h i in
    rw (s, to)
      (record { carried = now; received = refl; written = refl; remote = refl; local = refl })

CopyEnd-Kept :
    (e : End) (c : CopyPc) (k l : Conns)
    → CopyEnd (args_to e) c k l
    → Carries e c k
    → Kept e ended k l
unfolding Pending
CopyEnd-Kept e c k l (read_ends h s) i = rw s (record {
  carried = Pending-prefix c _ _ i;
  received = refl;
  written = refl;
  remote = refl;
  local = refl;
})
CopyEnd-Kept e c k l (write_refused b h shut s) i = rw s (record {
  carried = Pending-prefix c _ _ i;
  received = refl;
  written = refl;
  remote = refl;
  local = refl;
})
CopyEnd-Kept remote_conn c k l (write_ends x y h open_dst s) i =
    let now = at_pc c (writing (x ++ y)) _ _ h i in
    rw s (record {
      carried = (y, append_assoc k.remote.written x y ∙ now);
      received = refl;
      written = refl;
      remote = refl;
      local = refl;
    })
CopyEnd-Kept local_conn c k l (write_ends x y h open_dst s) i =
    let now = at_pc c (writing (x ++ y)) _ _ h i in
    rw s (record {
      carried = (y, append_assoc k.local.written x y ∙ now);
      received = refl;
      written = refl;
      remote = refl;
      local = refl;
    })

-- A copy that has ended has closed these connections.
abbrev pub HasClosed : CopyPc → Type 0 → Type 0
HasClosed reading P = Unit
HasClosed (writing b) P = Unit
HasClosed ended P = P

CopyStep-HasClosed :
    (a : CopyArgs) (c : CopyPc) (k : Conns) (d : CopyPc) (l : Conns) (P : Type 0)
    → CopyStep a c k d l
    → HasClosed d P
CopyStep-HasClosed a c k d l P (reads b h o to s) = rw to tt
CopyStep-HasClosed a c k d l P (writes b h o to s) = rw to tt

HasClosed-map : (c : CopyPc) (P Q : Type 0) → (P → Q) → HasClosed c P → HasClosed c Q
HasClosed-map reading P Q f h = tt
HasClosed-map (writing b) P Q f h = tt
HasClosed-map ended P Q f h = f h

abbrev pub BothClosed : Conns → Type 0
BothClosed k = (k.remote.is_closed ≡ true) × (k.local.is_closed ≡ true)

record Inv (p : Proxy) : Type 0 where
  up : Carries local_conn p.up p.conns
  down : Carries remote_conn p.down p.conns
  up_closed : HasClosed p.up (BothClosed p.conns)
  down_closed : HasClosed p.down (p.conns.remote.is_closed ≡ true)

-- What another copy carries is kept by a step of this one.
Kept-other :
    (c : CopyPc) (input output input2 output2 : Bytes)
    → input2 ≡ input
    → output2 ≡ output
    → Pending c input output
    → Pending c input2 output2
Kept-other c input output input2 output2 i o h = rw (i, o) h

module _ (p : Proxy) (i : Inv p) where
  up_moves-Inv :
      (c : CopyPc) (k : Conns)
      → CopyStep (args_to local_conn) p.up p.conns c k
      → Inv (record p { up = c; conns = k })
  up_moves-Inv c k m =
      let kept = CopyStep-Kept local_conn p.up p.conns c k m i.up in
      record {
        up = kept.carried;
        down = Kept-other p.down _ _ _ _ kept.received kept.written i.down;
        up_closed = CopyStep-HasClosed _ p.up p.conns c k _ m;
        down_closed = HasClosed-map p.down _ _ (λ h. kept.remote ∙ h) i.down_closed;
      }

  down_moves-Inv :
      (c : CopyPc) (k : Conns)
      → CopyStep (args_to remote_conn) p.down p.conns c k
      → Inv (record p { down = c; conns = k })
  down_moves-Inv c k m =
      let kept = CopyStep-Kept remote_conn p.down p.conns c k m i.down in
      record {
        up = Kept-other p.up _ _ _ _ kept.received kept.written i.up;
        down = kept.carried;
        up_closed =
            HasClosed-map p.up (BothClosed p.conns) (BothClosed k)
              (λ h. (kept.remote ∙ h.0, kept.local ∙ h.1)) i.up_closed;
        down_closed = CopyStep-HasClosed _ p.down p.conns c k _ m;
      }

  up_ends-Inv :
      (k : Conns)
      → CopyEnd (args_to local_conn) p.up p.conns k
      → Inv
          (record p { up = ended; conns = on_conn remote_conn close (on_conn local_conn close k) })
  up_ends-Inv k m =
      let kept = CopyEnd-Kept local_conn p.up p.conns k m i.up in
      record {
        up = kept.carried;
        down = Kept-other p.down _ _ _ _ kept.received kept.written i.down;
        up_closed = (refl, refl);
        down_closed = HasClosed-map p.down _ _ (λ h. refl) i.down_closed;
      }

  down_ends-Inv :
      (k : Conns)
      → CopyEnd (args_to remote_conn) p.down p.conns k
      → Inv (record p { down = ended; conns = on_conn remote_conn close k })
  down_ends-Inv k m =
      let kept = CopyEnd-Kept remote_conn p.down p.conns k m i.down in
      record {
        up = Kept-other p.up _ _ _ _ kept.received kept.written i.up;
        down = kept.carried;
        up_closed =
            HasClosed-map p.up (BothClosed p.conns) (BothClosed (on_conn remote_conn close k))
              (λ h. (refl, kept.local ∙ h.1)) i.up_closed;
        down_closed = refl;
      }

  Step-Inv : (q : Proxy) → Step p q → Inv q
  Step-Inv q (up_moves c k m s) = rw s (up_moves-Inv c k m)
  Step-Inv q (up_ends k m s) = rw s (up_ends-Inv k m)
  Step-Inv q (down_moves c k m s) = rw s (down_moves-Inv c k m)
  Step-Inv q (down_ends k m s) = rw s (down_ends-Inv k m)

start-Inv : Inv start
unfolding Pending
start-Inv = record { up = refl; down = refl; up_closed = tt; down_closed = tt }

Reach-Inv : (p : Proxy) → Reach start p → Inv p
Reach-Inv p here = start-Inv
Reach-Inv p (later {q = m} r s) = Step-Inv m (Reach-Inv m r) p s

-- At every moment of a connection that `connect` carries, what was written to the dialled connection
-- is a first part of what was read from the WebSocket, and what was written to the WebSocket one of
-- what was read from the dialled connection; both are closed once the goroutine's copy has ended, and
-- the WebSocket once the handler's has.
pub Reach-prefix :
    (p : Proxy)
    → Reach start p
    → ((rest : Bytes) × (p.conns.local.written ++ rest ≡ p.conns.remote.received))
      × ((rest : Bytes) × (p.conns.remote.written ++ rest ≡ p.conns.local.received))
      × HasClosed p.up (BothClosed p.conns)
      × HasClosed p.down (p.conns.remote.is_closed ≡ true)
Reach-prefix p r =
    let i = Reach-Inv p r in
    (Pending-prefix p.up _ _ i.up, Pending-prefix p.down _ _ i.down, i.up_closed, i.down_closed)
