-- ===== src/Process/Writer.antt =====
-- agent/process/ws.go: `wsJSONWriter`, over any connection that JSON messages are written to; and
-- `writeFirstMessage` and `writeStdin` of agent/process/client.go, which write through it.
pub mod Stdin
use clustertest.Prelude.{
  ◌≡◌, refl, ℕ, String, Bool, true, false, List, [], ◌∷◌, ◌++◌, map, Option, none, some, Error,
  length,
}
use clustertest.Process.Types.{Bytes, Request}

-- `wsjson.Write` on a connection. `sent` is what the peer will read, first message first.
pub record Wire (M : Type 0) : Type 1 where
  pub State : Type 0
  pub write : State → M → State × Option Error
  pub sent : State → List M

-- A write with no error has sent its message, and any other has sent nothing.
pub record IsFaithful {M : Type 0} (W : Wire M) : Type 0 where
  pub sent-write_ok :
      (s : W.State) (m : M) → (W.write s m).1 ≡ none → W.sent (W.write s m).0 ≡ W.sent s ++ (m ∷ [])
  pub sent-write_err :
      (s : W.State) (m : M) (e : Error)
      → (W.write s m).1 ≡ some e
      → W.sent (W.write s m).0 ≡ W.sent s

-- A reader: the chunks that it yields, and the error that it ends with; `none` is `io.EOF`.
pub record Reader : Type 0 where
  pub chunks : List Bytes
  pub fault : Option Error

abbrev pub contents : List Bytes → Bytes
contents [] = []
contents (b ∷ bs) = b ++ contents bs

-- `wsJSONWriter`
pub record Writer (M : Type 0) : Type 0 where
  pub write_msg : Bytes → M
  pub close_msg : Option M

module _ {M : Type 0} (W : Wire M) (w : Writer M) where
  -- `Write`: the length of the chunk, whatever the error.
  unfoldable pub write : Bytes → W.State → (ℕ × Option Error) × W.State
  write b s = let (t, e) = W.write s (w.write_msg b) in ((length b, e), t)

  close_with : Option M → W.State → Option Error × W.State
  close_with none s = (none, s)
  close_with (some m) s = let (t, e) = W.write s m in (e, t)

  -- `Close`
  unfoldable pub close : W.State → Option Error × W.State
  unfolding close_with
  close s = close_with w.close_msg s

  -- The loop of `io.Copy` into the writer: it ends at the first error of either side.
  unfoldable pub copy : List Bytes → Option Error → W.State → Option Error × W.State
  unfolding write
  copy [] fault s = (fault, s)
  copy (b ∷ bs) fault s =
      let rest = copy bs fault (write b s).1 in
      elim (write b s).0.1 [ some e ↦ (some e, (write b s).1) | none ↦ rest ]

abbrev no_request : Request
no_request = record {
  stdin = [];
  stdin_done = false;
  stop_sending_stderr = false;
  stop_sending_stdout = false;
  command = "";
  args = [];
  env = [];
  wd = "";
}

abbrev pub stdin_message : Bytes → Request
stdin_message b = record no_request { stdin = b }

abbrev pub stdin_done_message : Request
stdin_done_message = record no_request { stdin_done = true }

abbrev pub stdin_writer : Writer Request
stdin_writer = record { write_msg = stdin_message; close_msg = some stdin_done_message }

-- `StartProcRequest`, without its two output writers.
pub record StartProcRequest : Type 0 where
  pub command : String
  pub args : List String
  pub env : List String
  pub wd : String
  pub stdin : Option Reader

abbrev pub first_message : StartProcRequest → Request
first_message r = record no_request { command = r.command; args = r.args; env = r.env; wd = r.wd }

module _ (W : Wire Request) where
  -- `writeFirstMessage`
  unfoldable pub write_first_message : StartProcRequest → W.State → Option Error × W.State
  write_first_message r s = let (t, e) = W.write s (first_message r) in (e, t)

  copy_stdin : Option Reader → W.State → W.State
  unfolding copy
  copy_stdin none s = s
  copy_stdin (some r) s = (copy W stdin_writer r.chunks r.fault s).1

  -- `writeStdin`: the writer is closed on every path.
  unfoldable pub write_stdin : Option Reader → W.State → W.State
  unfolding copy_stdin close
  write_stdin r s = (close W stdin_writer (copy_stdin r s)).1
