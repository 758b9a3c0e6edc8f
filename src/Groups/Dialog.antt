-- ===== src/Groups/Dialog.antt =====
-- The state of the dialog: readGroups, requestGroupCommand and the event handlers of
-- Ui/environment-groups.js. A read begins, and ends when the server's answer has been parsed.
use sql_server_lab.Prelude.{
  ℕ, suc, Bool, true, false, not, ◌&&◌, List, [], ◌∷◌, Option, none, some, ◌==◌, if◌then◌else◌,
}
use sql_server_lab.Js.{Value}
use sql_server_lab.Groups.{valid_view}
use sql_server_lab.Groups.Cards.{Card, render}

pub data Status : Type 0 where
  idle reading shown unconfirmed outdated bad_run_id : Status

pub record Dialog : Type 0 where
  pub generation : ℕ
  pub active_request : Bool
  pub read_disabled : Bool
  pub is_open : Bool
  pub status : Status
  pub list : List Card

-- The first half of readGroups, with the generation of the read; nothing while a read is active.
unfoldable pub begin_read : Dialog → Option (ℕ × Dialog)
begin_read d =
    let generation = suc d.generation in
    if d.active_request
    then none
    else some (
      generation,
      record d {
        active_request = true;
        read_disabled = true;
        generation = generation;
        status = reading;
      },
    )

abbrev pub is_current : ℕ → Dialog → Bool
is_current generation d = generation == d.generation && d.is_open

-- The body of `try`, or the handler of `catch`, for a read that is still current.
unfoldable pub settle : Option Value → Dialog → Dialog
settle none d = record d { list = []; status = unconfirmed }
settle (some view) d =
    if valid_view view
    then record d { list = render view; status = shown }
    else record d { list = []; status = unconfirmed }

-- `finally`.
unfoldable pub release : ℕ → Dialog → Dialog
release generation d = record d {
  active_request = false;
  read_disabled = false;
  status = if not (generation == d.generation) && d.is_open then outdated else d.status;
}

-- The second half of readGroups; `none` is a request or an answer that failed.
unfoldable pub end_read : ℕ → Option Value → Dialog → Dialog
unfolding release settle
end_read generation answer d =
    release generation (if is_current generation d then settle answer d else d)

-- Opening, and closing the dialog by any of its buttons.
unfoldable pub show : Dialog → Dialog
show d = record d { is_open = true }

unfoldable pub close : Dialog → Dialog
close d = if d.is_open then record d { is_open = false; generation = suc d.generation } else d

-- requestGroupCommand: the generation moves, and closing the dialog moves it again.
unfoldable pub request_command : Dialog → Dialog
unfolding close
request_command d = close (record d { generation = suc d.generation })

unfoldable pub reject_run_id : Dialog → Dialog
reject_run_id d = record d { status = bad_run_id }

pub data Event : Type 0 where
  open_dialog close_dialog send_command bad_input start_read : Event
  answer : ℕ → Option Value → Event

abbrev pub started : Dialog → Option (ℕ × Dialog) → Dialog
started d none = d
started d (some (generation, d')) = d'

unfoldable pub handle : Event → Dialog → Dialog
unfolding begin_read end_read show close request_command reject_run_id
handle open_dialog d = show d
handle close_dialog d = close d
handle send_command d = request_command d
handle bad_input d = reject_run_id d
handle start_read d = started d (begin_read d)
handle (answer generation reply) d = end_read generation reply d

unfoldable pub run : List Event → Dialog → Dialog
run [] d = d
run (e ∷ es) d = run es (handle e d)
