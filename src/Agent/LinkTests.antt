-- ===== src/Agent/LinkTests.antt =====
-- A carried connection, and the theorem there.
use clustertest.Prelude.{◌≡◌, refl, true, false, [], ◌∷◌, ◌++◌}
use clustertest.Process.Types.{Bytes}
use clustertest.Agent.Connect.{
  Conns, Proxy, start, Reach, here, later, reads, writes, up_moves, up_ends, write_ends, ended,
  writing, reading,
}
use clustertest.Agent.Connect.Laws.{HasClosed, BothClosed, Reach-prefix}

-- The connections with what was read from the WebSocket and written to the dialled one.
abbrev carried : Bytes → Bytes → Conns
carried input output = record {
  remote = record { received = input; written = []; is_closed = false };
  local = record { received = []; written = output; is_closed = false };
}

-- Three bytes were read from the WebSocket; the write of the last two breaks off after one.
abbrev broken_off : Proxy
broken_off = record {
  up = ended;
  down = reading;
  conns = record {
    remote = record { received = 1 ∷ 2 ∷ 3 ∷ []; written = []; is_closed = true };
    local = record { received = []; written = 1 ∷ 2 ∷ []; is_closed = true };
  };
}

broken_off-Reach : Reach start broken_off
broken_off-Reach =
    later
      (later
        (later
          (later here (
            up_moves (writing (1 ∷ [])) (carried (1 ∷ []) []) (reads (1 ∷ []) refl refl refl refl)
              refl))
          (up_moves reading (carried (1 ∷ []) (1 ∷ [])) (writes (1 ∷ []) refl refl refl refl) refl))
        (up_moves (writing (2 ∷ 3 ∷ [])) (carried (1 ∷ 2 ∷ 3 ∷ []) (1 ∷ []))
          (reads (2 ∷ 3 ∷ []) refl refl refl refl) refl))
      (up_ends (carried (1 ∷ 2 ∷ 3 ∷ []) (1 ∷ 2 ∷ [])) (write_ends (2 ∷ []) (3 ∷ []) refl refl refl)
        refl)

Reach-prefix_example :
    ((rest : Bytes) × (broken_off.conns.local.written ++ rest ≡ broken_off.conns.remote.received))
    × ((rest : Bytes) × (broken_off.conns.remote.written ++ rest ≡ broken_off.conns.local.received))
    × HasClosed broken_off.up (BothClosed broken_off.conns)
    × HasClosed broken_off.down (broken_off.conns.remote.is_closed ≡ true)
Reach-prefix_example = Reach-prefix broken_off broken_off-Reach
