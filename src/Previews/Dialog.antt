-- ===== src/Previews/Dialog.antt =====
-- The dialog that both previews have: its variables and controls, `invalidate`, `close`, `request`
-- and the event handlers. A request begins, and ends when the server's answer has been parsed; the
-- status line is left out, and `result` holds the plan that is shown.
use sql_server_lab.Prelude.{
  ℕ, suc, String, Bool, true, false, not, ◌&&◌, ◌||◌, List, [], ◌∷◌, Option, none, some, ◌==◌, leb,
  get_elem?, is_nil, if◌then◌else◌,
}
use sql_server_lab.Js.{Value, get, array_of, text_of}
use sql_server_lab.Previews.{Kind, valid_targets}

pub data Action : Type 0 where
  read preview : Action

pub record Dialog : Type 0 where
  pub revision : ℕ
  pub targets : List Value
  pub busy : Bool
  -- controls: the dialog, the selected option, the port or policy, the text of the result, and which
  -- of the controls are disabled
  pub is_open : Bool
  pub selected : Option ℕ
  pub choice : String
  pub result : Option Value
  pub plan_disabled : Bool
  pub read_disabled : Bool
  pub target_disabled : Bool

abbrev pub target_at : List Value → Option ℕ → Option Value
target_at targets none = none
target_at targets (some n) = get_elem? targets n

abbrev pub selected_target : Dialog → Option Value
selected_target d = target_at d.targets d.selected

unfoldable pub invalidate : Dialog → Dialog
invalidate d = record d {
  revision = suc d.revision;
  busy = false;
  result = none;
  plan_disabled = false;
  read_disabled = false;
}

unfoldable pub forget_targets : Dialog → Dialog
forget_targets d = record d { targets = []; selected = none; target_disabled = true }

-- What is sent: a change names the run, the instance and the choice, which for a port is sent as the
-- number that its text spells.
pub data Payload : Type 0 where
  read_targets : Payload
  preview_change : String → String → String → Payload

-- What a request remembers while it waits: `action`, `selected.Provider`, `current`.
pub record Ticket : Type 0 where
  pub action : Action
  pub provider : String
  pub revision : ℕ

-- The answer: none, or the parsed view with the size of its JSON text in bytes.
pub data Reply : Type 0 where
  failed : Reply
  answered : ℕ → Value → Reply

abbrev pub is_current : Ticket → Dialog → Bool
is_current ticket d = ticket.revision == d.revision && d.is_open

abbrev pub Begun : Type 0
Begun = Option (Ticket × Payload) × Dialog

unfoldable pub waiting_dialog : Dialog → Dialog
unfolding invalidate
waiting_dialog d = record (invalidate d) { busy = true; plan_disabled = true; read_disabled = true }

unfoldable pub ask : Action → String → Payload → Dialog → Begun
ask action provider payload d = (
  some (record { action = action; provider = provider; revision = suc d.revision }, payload),
  waiting_dialog d,
)

-- `catch`, for an answer that is looked at.
unfoldable pub reject : Action → Dialog → Dialog
reject read d = forget_targets (record d { result = none })
reject preview d = record d { result = none }

-- `finally`, for an answer that is looked at.
unfoldable pub release : Dialog → Dialog
release d = record d { busy = false; read_disabled = false; plan_disabled = is_nil d.targets }

-- The browser selects the first of the new options.
abbrev pub first_of : List Value → Option ℕ
first_of [] = none
first_of (t ∷ ts) = some 0

pub data Event : Type 0 where
  open_dialog close_dialog : Event
  press : Action → Event
  choose : String → Event
  select : Option ℕ → Event
  answer : Ticket → Reply → Event

module _ (kind : Kind) where
  unfoldable pub preview_request : Option Value → Dialog → Begun
  preview_request none d = (none, invalidate d)
  preview_request (some t) d =
      if kind.accepts d.choice
      then ask preview (text_of (get t "Provider"))
          (preview_change (text_of (get t "RunId")) (text_of (get t "InstanceId")) d.choice) d
      else (none, invalidate d)

  -- The first half of `request`: what is asked, if anything, and the dialog after it.
  unfoldable pub begin_request : Action → Dialog → Begun
  begin_request read d = if d.busy || not d.is_open then (none, d) else ask read "" read_targets d
  begin_request preview d =
      if d.busy || not d.is_open then (none, d) else preview_request (selected_target d) d

  -- The body of `try`, for an answer that is looked at.
  unfoldable pub receive : Action → String → Value → Dialog → Dialog
  receive read provider view d =
      if valid_targets kind.contract view
      then record d {
        targets = array_of (get view "Targets");
        selected = first_of (array_of (get view "Targets"));
        target_disabled = is_nil (array_of (get view "Targets"));
      }
      else reject read d
  receive preview provider view d =
      if kind.valid_plan view provider then record d { result = some view } else reject preview d

  unfoldable pub take_reply : Ticket → Reply → Dialog → Dialog
  take_reply ticket failed d = reject ticket.action d
  take_reply ticket (answered size view) d =
      if leb size 1048576
      then receive ticket.action ticket.provider view d
      else reject ticket.action d

  -- The second half of `request`.
  unfoldable pub end_request : Ticket → Reply → Dialog → Dialog
  end_request ticket reply d =
      if is_current ticket d then release (take_reply ticket reply d) else d

  unfoldable pub handle : Event → Dialog → Dialog
  handle open_dialog d = record (forget_targets (invalidate d)) { choice = ""; is_open = true }
  handle close_dialog d = record (forget_targets (invalidate d)) { choice = ""; is_open = false }
  handle (press action) d = (begin_request action d).1
  handle (choose text) d = invalidate (record d { choice = text })
  handle (select n) d = invalidate (record d { selected = n })
  handle (answer ticket reply) d = end_request ticket reply d

  unfoldable pub run : List Event → Dialog → Dialog
  run [] d = d
  run (e ∷ es) d = run es (handle e d)
