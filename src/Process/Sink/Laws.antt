-- ===== src/Process/Sink/Laws.antt =====
-- What a step of a sink keeps, and what a stopped one has done.
use clustertest.Prelude.{
  ◌≡◌, refl, true, false, ◌++◌, append-nil, append_assoc, ◌⊎◌, inl, inr, arith,
}
use clustertest.Process.Types.{Bytes}
use clustertest.Process.Sink.{
  Sink, SinkPc, SinkStep, waiting, writing, broken, ended, write, fail, range_end, taken, returned,
}

-- A step of a sink moves bytes from the channel to the writer.
pub taken-SinkStep : {x y : Sink} → SinkStep x y → (taken y ≡ taken x)
taken-SinkStep {x} (write b p e) = rw e (rw p (append-nil _))
taken-SinkStep (fail a b p e) = rw e (rw p (append_assoc _ a b))
taken-SinkStep (range_end p c e) = rw e (rw p refl)

pub closed-SinkStep : {x y : Sink} → SinkStep x y → (y.closed ≡ x.closed)
closed-SinkStep (write b p e) = rw e refl
closed-SinkStep (fail a b p e) = rw e refl
closed-SinkStep (range_end p c e) = rw e refl

-- A sink that has returned does not move.
pub returned-SinkStep : {x y : Sink} → SinkStep x y → returned x.pc ≡ false
returned-SinkStep (write b p e) = ground arith
returned-SinkStep (fail a b p e) = ground arith
returned-SinkStep (range_end p c e) = ground arith

-- What a stopped goroutine has done with the bytes `all` of its stream: written them all, or
-- written a part, given up at a write error, and lost the rest.
abbrev pub Delivered : Sink → Bytes → Type 0
Delivered x all =
    ((x.pc ≡ ended) × (x.written ≡ all))
    ⊎ ((q : Bytes) × (x.pc ≡ broken q) × (x.written ++ q ≡ all))

pub Delivered-of_taken :
    (x : Sink) (all : Bytes) → returned x.pc ≡ true → taken x ≡ all → Delivered x all
Delivered-of_taken x all r h = at x.pc refl r
  where
    at : (p : SinkPc) → x.pc ≡ p → returned p ≡ true → Delivered x all
    at waiting e r = cc
    at (writing b) e r = cc
    at (broken q) e r = inr (q, e, ground arith)
    at ended e r = inl (e, ground (arith, append-nil x.written))
