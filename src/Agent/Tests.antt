-- ===== src/Agent/Tests.antt =====
-- A node with one file on a network that fails nothing, and the theorems there.
use clustertest.Prelude.{
  ◌≡◌, ◌↔◌, refl, ap, String, true, List, [], ◌∷◌, ◌++◌, append-nil, Option, none, some, not_exist,
  ok, err, Result, arith, All,
}
use clustertest.Process.Types.{Bytes}
use clustertest.Process.Writer.{Reader}
use clustertest.Paths.{FilePath, at}
use clustertest.Agent.Http.{Transport, bytes, IsHonest, IsCalm}
use clustertest.Agent.Files.{Os, Disk, Web}
use clustertest.Agent.Files
use clustertest.Agent.Client.{Link, url_path, send_file, read_file, tick, wait_for_server}
use clustertest.Agent.RoundTrip.{read_file-send_file}
use clustertest.Agent.Waiting.{Answered, wait_for_server-Answered}
use clustertest.Agent.Heartbeat.{
  Agent, new_agent, selecting, Reach, here, later, time_passes, beats_once, checks, check_next,
  heartbeat,
}
use clustertest.Agent.Heartbeat.Laws.{IsDue, Reach-IsDue}
use clustertest.Agent.Main.{NodeAgent, exits}

abbrev held : Option Bytes → Bytes
held none = []
held (some b) = b

abbrev reader_of : Option Bytes → Result Reader
reader_of none = err not_exist
reader_of (some b) = ok (record { chunks = b ∷ []; fault = none })

-- A node that keeps one file, whatever its path.
abbrev one_file : Os
one_file = record {
  State = Option Bytes;
  mkdir_all = λ p s. (none, s);
  create = λ p s. (none, some []);
  append = λ p b s. (none, some (held s ++ b));
  open_file = λ p s. reader_of s;
}

append_held : (s : Option Bytes) (b c : Bytes) → s ≡ some b → some (held s ++ c) ≡ some (b ++ c)
append_held s b c e = rw e refl

abbrev one_disk : Disk one_file
one_disk = record {
  file = λ p s. s;
  file-create = λ p s h. refl;
  file-append = λ p b c s e h. append_held s b c e;
  open_file-file =
      λ p b s e. (record { chunks = b ∷ []; fault = none }, ap reader_of e, append-nil b);
}

abbrev direct : Transport (Option Bytes)
direct = record { exchange = λ h s. (ok (h s).0, (h s).1) }

direct-IsHonest : IsHonest direct
direct-IsHonest h s t r e = (s, ground arith)

direct-IsCalm : IsCalm direct
direct-IsCalm h s e = refl

abbrev strip : List String → List String
strip [] = []
strip (x ∷ []) = []
strip (x ∷ y ∷ names) = x ∷ strip (y ∷ names)

abbrev link : Link one_file
link = record {
  transport = direct;
  build = λ p. none;
  param = λ p. some (at true (strip p.names));
  body_text = λ b. "";
}

abbrev notes : FilePath
notes = at true ("notes" ∷ "tmp" ∷ [])

read_file-send_file_example :
    read_file one_file link notes (some (1 ∷ 2 ∷ 3 ∷ []))
    ≡ (ok (bytes (1 ∷ 2 ∷ 3 ∷ [])), some (1 ∷ 2 ∷ 3 ∷ []))
unfolding send_file url_path Files.post_file
read_file-send_file_example =
    read_file-send_file one_file one_disk link notes
      (record { chunks = (1 ∷ 2 ∷ []) ∷ (3 ∷ []) ∷ []; fault = none }) (some (9 ∷ [])) _
      direct-IsHonest direct-IsCalm refl

missing : (read_file one_file link notes none).0 ≡ err not_exist
unfolding read_file Files.read_file
missing = refl

-- A site whose only page has the status 404.
abbrev site : Web
site = record {
  new_request = λ u. none;
  get = λ u. ok (record { status = 404; body = record { chunks = (7 ∷ []) ∷ []; fault = none } });
}

wait_for_server-Answered_example :
    (wait_for_server
        (tick (err not_exist) ∷ tick (ok (record { status = 200; body = bytes [] })) ∷ [])
      ≡ some none)
    ↔ Answered (tick (err not_exist) ∷ tick (ok (record { status = 200; body = bytes [] })) ∷ [])
wait_for_server-Answered_example =
    wait_for_server-Answered
      (tick (err not_exist) ∷ tick (ok (record { status = 200; body = bytes [] })) ∷ [])

-- An agent that got one heartbeat, at 13, and calls the handler at 30.
abbrev silent : Agent
silent = record {
  heartbeat_timeout = 5;
  has_handler = true;
  last_heartbeat = 13;
  check = selecting;
  now = 30;
  beats = 13 ∷ [];
  alarms = record { read_at = 29; called_at = 30 } ∷ [];
}

silent-Reach : Reach (new_agent 5 true 10) silent
unfolding check_next heartbeat
silent-Reach =
    later
      (later
        (later
          (later (later (later (later here (checks refl)) (time_passes 3 refl)) (beats_once refl))
            (time_passes 16 refl))
          (checks refl))
        (time_passes 1 refl))
      (checks refl)

Reach-IsDue_example : All (IsDue 5 (13 ∷ [])) (record { read_at = 29; called_at = 30 } ∷ [])
Reach-IsDue_example = Reach-IsDue 5 true 10 silent silent-Reach

abbrev agent : NodeAgent
agent = record {
  ca_cert_pem = [];
  cert_pem = [];
  key_pem = [];
  heartbeat_failure_handler = some exits;
  heartbeat_timeout = 600000;
  listen_addr = ":80";
}
