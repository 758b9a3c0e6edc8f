-- ===== src/Jobs/Board/Events.antt =====
-- Sequences of events at the page's table of jobs.
use sql_server_lab.Prelude.{ℕ, String, List, [], ◌∷◌, Option, none, some}
use sql_server_lab.Jobs.Command.{Reply, Outcome}
use sql_server_lab.Jobs.Board.{Board}
use sql_server_lab.Jobs.Board.Polling.{end_poll}
use sql_server_lab.Jobs.Board.Submitting.{begin_submission, end_submission}

-- An event at the page: a poll, a submission, or the answer to one.
pub data Event : Type 0 where
  poll : Reply → Event
  submit : String → String → Event
  answer : ℕ → String → Outcome → Event

abbrev pub or_same : Board → Option (ℕ × Board) → Board
or_same b none = b
or_same b (some (n, b')) = b'

unfoldable pub handle : Event → Board → Board
handle (poll reply) b = end_poll reply b
handle (submit key action) b = or_same b (begin_submission key action b)
handle (answer n endpoint outcome) b = end_submission n endpoint outcome b

unfoldable pub run : List Event → Board → Board
run [] b = b
run (e ∷ es) b = run es (handle e b)
