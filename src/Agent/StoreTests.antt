-- ===== src/Agent/StoreTests.antt =====
-- A node that keeps any number of files, on a network that fails nothing, and the theorems there.
use clustertest.Prelude.{
  ◌≡◌, refl, ap, ◌∙◌, true, List, [], ◌∷◌, ◌++◌, append-nil, Option, none, some, not_exist, Result,
  ok, err, arith,
}
use clustertest.Process.Types.{Bytes}
use clustertest.Process.Writer.{Reader}
use clustertest.Paths.{FilePath, at, path_eq, path_eq_refl}
use clustertest.Agent.Http.{Transport, IsHonest, IsCalm}
use clustertest.Agent.Files.{Os, Disk, Web, post_file}
use clustertest.Agent.Files
use clustertest.Agent.Client.{Link, fetch, send_file, url_path}
use clustertest.Agent.Store.{
  Frame, untried, again, OnlyTries, Call, sends, reads, fetches, Known, set, run, Replays, replay,
}
use clustertest.Agent.Store.Laws.{Holds, run-Replays}

abbrev held : Option Bytes → Bytes
held none = []
held (some b) = b

abbrev reader_of : Option Bytes → Result Reader
reader_of none = err not_exist
reader_of (some b) = ok (record { chunks = b ∷ []; fault = none })

abbrev files : Os
files = record {
  State = Known;
  mkdir_all = λ p s. (none, s);
  create = λ p s. (none, set p (some []) s);
  append = λ p b s. (none, set p (some (held (s p) ++ b)) s);
  open_file = λ p s. reader_of (s p);
}

set_same : (p : FilePath) (v : Option Bytes) (m : Known) → set p v m p ≡ v
set_same p v m = rw (path_eq_refl p) refl

abbrev disk : Disk files
disk = record {
  file = λ p s. s p;
  file-create = λ p s h. set_same p (some []) s;
  file-append =
      λ p b c s e h. set_same p (some (held (s p) ++ c)) s ∙ ap (λ x. some (held x ++ c)) e;
  open_file-file =
      λ p b s e. (record { chunks = b ∷ []; fault = none }, ap reader_of e, append-nil b);
}

frame : Frame disk
frame = record {
  file-mkdir_all = λ p q s. refl;
  file-create_other = λ p q s h. rw h refl;
  file-append_other = λ p q b s h. rw h refl;
}

abbrev direct : Transport Known
direct = record { exchange = λ h s. (ok (h s).0, (h s).1) }

direct-IsHonest : IsHonest direct
direct-IsHonest h s t r e = (s, ground arith)

direct-IsCalm : IsCalm direct
direct-IsCalm h s e = refl

direct-OnlyTries : OnlyTries direct
direct-OnlyTries h s = again untried

abbrev link : Link files
link = record { transport = direct; build = λ p. none; param = λ p. some p; body_text = λ b. "" }

abbrev site : Web
site = record {
  new_request = λ u. none;
  get = λ u. ok (record { status = 200; body = record { chunks = (7 ∷ []) ∷ []; fault = none } });
}

abbrev notes : FilePath
notes = at true ("notes" ∷ "tmp" ∷ [])

abbrev other : FilePath
other = at true ("other" ∷ "tmp" ∷ [])

abbrev stored : Bytes → Reader
stored b = record { chunks = b ∷ []; fault = none }

abbrev calls : List Call
calls =
    sends notes (stored (1 ∷ []))
    ∷ sends other (stored (2 ∷ []))
    ∷ sends notes (stored (3 ∷ []))
    ∷ fetches (record { url = "u"; dest = other })
    ∷ reads notes
    ∷ reads other
    ∷ []

-- The second content of the one path and the fetched content of the other are known at the end.
known :
    replay files link site calls
      (run files link site calls (λ p. none)).0
      (λ p. none)
      (url_path notes)
    ≡ some (3 ∷ [])
unfolding run send_file post_file Files.copy_to url_path path_eq
known = refl

known_fetched :
    replay files link site calls (run files link site calls (λ p. none)).0 (λ p. none) other
    ≡ some (7 ∷ [])
unfolding run send_file post_file Files.copy_to url_path path_eq fetch Files.fetch
known_fetched = refl

run-Replays_example :
    Replays files link site calls (run files link site calls (λ p. none)).0 (λ p. none)
    × Holds files disk frame link direct-OnlyTries
        (replay files link site calls (run files link site calls (λ p. none)).0 (λ p. none))
        (run files link site calls (λ p. none)).1
run-Replays_example =
    run-Replays files disk frame link direct-OnlyTries site direct-IsHonest direct-IsCalm calls
      (λ p. none) (λ p. none) (λ q b e. e)
