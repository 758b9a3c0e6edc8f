-- ===== src/Removal/Dialog.antt =====
-- The state of the dialog of Ui/run-artifact-removal.js: its variables, its controls, `request`
-- and the event handlers. A request begins, and ends when the server's answer has been parsed; that
-- answer is looked at only if the dialog is open and nothing has been asked for since.
-- The texts of the status line are left out.
use sql_server_lab.Prelude.{
  ℕ, suc, String, Bool, true, false, not, ◌&&◌, ◌||◌, List, [], ◌∷◌, Option, none, some, ◌==◌, leb,
  get_elem?, is_nil, if◌then◌else◌,
}
use sql_server_lab.Js.{Value, get, is_true, is_str, array_of, text_of}
use sql_server_lab.Removal.{valid_preview, valid_targets, valid_removal}

pub data Action : Type 0 where
  read preview apply : Action

pub data Result : Type 0 where
  blank : Result
  previewed removed : Value → Result

pub record Dialog : Type 0 where
  pub revision : ℕ
  pub targets : List Value
  pub preview : Option Value
  pub busy : Bool
  pub pending_apply : Bool
  -- controls: the dialog, the selected option, the check box, the text of the result
  pub is_open : Bool
  pub selected : Option ℕ
  pub confirmed : Bool
  pub result : Result

abbrev target_at : List Value → Option ℕ → Option Value
target_at targets none = none
target_at targets (some n) = get_elem? targets n

-- `targets.find((t, index) => String(index) === el('target').value)`.
abbrev pub selected_target : Dialog → Option Value
selected_target d = target_at d.targets d.selected

abbrev pub can_apply : Option Value → Bool
can_apply none = false
can_apply (some v) = is_true (get v "CanApply")

abbrev is_some : Option Value → Bool
is_some none = false
is_some (some v) = true

-- The controls that `controls` enables.
pub record Enabled : Type 0 where
  pub target : Bool
  pub read : Bool
  pub preview : Bool
  pub confirm : Bool
  pub apply : Bool

-- controls.
unfoldable pub controls : Dialog → Enabled
controls d = record {
  target = not (d.pending_apply || is_nil d.targets);
  read = not (d.busy || d.pending_apply);
  preview = not (d.busy || d.pending_apply || not (is_some (selected_target d)));
  confirm = not (d.busy || d.pending_apply || not (can_apply d.preview));
  apply = not (d.busy || d.pending_apply || not (can_apply d.preview) || not d.confirmed);
}

-- invalidate.
unfoldable pub invalidate : Dialog → Dialog
invalidate d = record d {
  revision = suc d.revision;
  busy = false;
  preview = none;
  confirmed = false;
  result = blank;
}

abbrev forget_targets : Dialog → Dialog
forget_targets d = record d { targets = []; selected = none }

-- What is sent.
pub data Payload : Type 0 where
  read_targets : Payload
  preview_run : String → Payload
  apply_run : String → String → Payload

-- What a request remembers while it waits: `action`, `selected.RunId`, `current`.
pub record Ticket : Type 0 where
  pub action : Action
  pub run_id : String
  pub current : ℕ

abbrev pub run_of : Option Value → String
run_of none = ""
run_of (some t) = text_of (get t "RunId")

abbrev pub token_of : Option Value → String
token_of none = ""
token_of (some v) = text_of (get v "PreviewToken")

abbrev pub preview_is_of : Option Value → String → Bool
preview_is_of none run_id = false
preview_is_of (some v) run_id = is_str (get v "RunId") run_id

-- The early returns of `request` behind the first.
unfoldable pub is_permitted : Action → Dialog → Bool
is_permitted read d = true
is_permitted preview d = is_some (selected_target d)
is_permitted apply d =
    is_some (selected_target d)
    && can_apply d.preview
    && preview_is_of d.preview (run_of (selected_target d))
    && d.confirmed

unfoldable pub payload_of : Action → Dialog → Payload
payload_of read d = read_targets
payload_of preview d = preview_run (run_of (selected_target d))
payload_of apply d = apply_run (run_of (selected_target d)) (token_of d.preview)

unfoldable pub is_apply : Action → Bool
is_apply apply = true
is_apply _ = false

-- The dialog that waits for the answer to a request.
unfoldable pub waiting_dialog : Action → Dialog → Dialog
unfolding invalidate
waiting_dialog read d =
    forget_targets (record (invalidate d) { busy = true; pending_apply = false })
waiting_dialog preview d = record (invalidate d) { busy = true; pending_apply = false }
waiting_dialog apply d = record (invalidate d) { busy = true; pending_apply = true }

-- The first half of `request`; nothing happens in a dialog that is busy, waiting or closed.
unfoldable pub begin_request : Action → Dialog → Option (Ticket × Payload × Dialog)
begin_request action d =
    let ticket : Ticket = record {
      action = action;
      run_id = run_of (selected_target d);
      current = suc d.revision;
    } in
    if d.busy || d.pending_apply || not d.is_open
    then none
    else if is_permitted action d
    then some (ticket, payload_of action d, waiting_dialog action d)
    else none

-- The answer: none, or the parsed view with the size of its JSON text in bytes.
pub data Reply : Type 0 where
  failed : Reply
  answered : ℕ → Value → Reply

abbrev lose_answer : Dialog → Dialog
lose_answer d = record d { preview = none; result = blank }

-- The body of `try`, and the handler of `catch`, for an answer that is looked at.
unfoldable pub receive : Action → String → Value → Dialog → Dialog
receive read run_id view d =
    if valid_targets view
    then record d { targets = array_of (get view "Targets"); selected = none }
    else lose_answer d
receive preview run_id view d =
    if valid_preview view run_id
    then record d { preview = some view; result = previewed view }
    else lose_answer d
receive apply run_id view d =
    if valid_removal view run_id then record d { result = removed view } else lose_answer d

abbrev pub is_current : Ticket → Dialog → Bool
is_current ticket d = ticket.current == d.revision && d.is_open

unfoldable pub take_reply : Ticket → Reply → Dialog → Dialog
take_reply ticket failed d = lose_answer d
take_reply ticket (answered size view) d =
    if leb size 1048576 then receive ticket.action ticket.run_id view d else lose_answer d

-- The second half of `request`, with its `finally`.
unfoldable pub end_request : Ticket → Reply → Dialog → Dialog
unfolding take_reply receive is_apply
end_request ticket reply d =
    let seen : Dialog = if is_current ticket d then take_reply ticket reply d else d in
    record seen {
      pending_apply = if is_apply ticket.action then false else seen.pending_apply;
      busy = if ticket.current == seen.revision then false else seen.busy;
    }

-- The event handlers. Opening reads the targets at once, by an event of its own; so does the
-- `close` event that a closed dialog gets, which is one more `close_dialog`.
pub data Event : Type 0 where
  open_dialog close_dialog : Event
  press : Action → Event
  select : Option ℕ → Event
  confirm : Bool → Event
  answer : Ticket → Reply → Event

abbrev pub begun : Dialog → Option (Ticket × Payload × Dialog) → Dialog
begun d none = d
begun d (some (ticket, payload, d')) = d'

unfoldable pub handle : Event → Dialog → Dialog
unfolding invalidate begin_request end_request
handle open_dialog d = record (forget_targets (invalidate d)) { is_open = true }
handle close_dialog d = record (forget_targets (invalidate d)) { is_open = false }
handle (press action) d = begun d (begin_request action d)
handle (select n) d = record (invalidate d) { selected = n }
handle (confirm c) d = record d { confirmed = c }
handle (answer ticket reply) d = end_request ticket reply d

unfoldable pub run : List Event → Dialog → Dialog
run [] d = d
run (e ∷ es) d = run es (handle e d)
