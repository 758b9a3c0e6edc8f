-- ===== src/Sessions.antt =====
-- The dialog of Ui/app.js that stops llama.cpp sessions of the module: llamaSessionView and the
-- other variables, updateLlamaSessionControls, invalidateLlamaSessionPlan, requestLlamaSession and
-- the event handlers. Texts are left out, and so is the notice of the view.
pub mod Laws
pub mod Awaited
mod Tests
use sql_server_lab.Prelude.{
  ℕ, suc, String, Bool, true, false, not, ◌&&◌, ◌||◌, List, [], ◌∷◌, Option, none, some, all, any,
  is_nil, ◌==◌, if◌then◌else◌,
}
use sql_server_lab.Js.{Value, undefined, null, get, is_str, is_array, array_of, truthy}
use sql_server_lab.Session.{Answer, lost, arrived}

pub record Dialog : Type 0 where
  pub revision : ℕ
  pub busy : Bool
  pub stopping : Bool
  -- the items of the view that was read
  pub view : Option (List Value)
  pub plan : Option Value
  -- controls: the dialog, the selected session, the confirmation
  pub is_open : Bool
  pub selection : String
  pub confirmed : Bool

abbrev pub is_some {ℓ} : {A : Type ℓ} → Option A → Bool
is_some none = false
is_some (some x) = true

abbrev pub items_of : Option (List Value) → List Value
items_of none = []
items_of (some vs) = vs

-- `llamaSessionView?.Items.some(item => item.OperationId === operationId)`.
unfoldable pub is_offered : String → Option (List Value) → Bool
is_offered operation view =
    any (λ (v : Value). is_str (get v "OperationId") operation) (items_of view)

-- updateLlamaSessionControls: which controls are not disabled.
pub record Enabled : Type 0 where
  pub select : Bool
  pub read : Bool
  pub preview : Bool
  pub confirm : Bool
  pub stop : Bool
  pub close : Bool

unfoldable pub controls : Dialog → Enabled
controls d = record {
  select = not (d.busy || is_nil (items_of d.view));
  read = not d.busy;
  preview = not (d.busy || not (is_offered d.selection d.view));
  confirm = not (d.busy || not (is_some d.plan));
  stop = not (d.busy || not (is_some d.plan) || not d.confirmed);
  close = not d.stopping;
}

-- invalidateLlamaSessionPlan.
abbrev pub invalidate : Dialog → Dialog
invalidate d = record d { plan = none; confirmed = false }

pub data Question : Type 0 where
  read : Question
  preview : String → Question
  stop : Value → Question

pub record Ticket : Type 0 where
  pub question : Question
  pub current : ℕ

abbrev pub waiting : Bool → Dialog → Dialog
waiting stops d = record (invalidate d) { revision = suc d.revision; busy = true; stopping = stops }

abbrev pub ticket : Question → Dialog → Ticket
ticket q d = record { question = q; current = suc d.revision }

-- The first half of requestLlamaSession, for each of its three actions.
unfoldable pub begin_read : Dialog → Option Ticket × Dialog
begin_read d = if d.busy then (none, d) else (some (ticket read d), waiting false d)

unfoldable pub begin_preview : Dialog → Option Ticket × Dialog
begin_preview d =
    if d.busy
    then (none, d)
    else if is_offered d.selection d.view
    then (some (ticket (preview d.selection) d), waiting false d)
    else (none, d)

unfoldable pub stop_plan : Option Value → Dialog → Option Ticket × Dialog
stop_plan none d = (none, d)
stop_plan (some p) d =
    if d.busy
    then (none, d)
    else if d.confirmed
    then (some (ticket (stop (get p "PlanId")) d), waiting true d)
    else (none, d)

abbrev pub begin_stop : Dialog → Option Ticket × Dialog
begin_stop d = stop_plan d.plan d

-- A property of null or undefined cannot be read; the attempt is caught.
abbrev has_properties : Value → Bool
has_properties undefined = false
has_properties null = false
has_properties _ = true

unfoldable pub valid_view : Value → Bool
valid_view v = is_array (get v "Items") && all has_properties (array_of (get v "Items"))

unfoldable pub valid_preview : Value → String → Bool
valid_preview v operation =
    is_str (get v "OperationId") operation
    && is_str (get v "ConsumerCoverage") "UNKNOWN"
    && truthy (get v "PlanId")

-- `catch`, for a current request in an open dialog.
unfoldable pub fail : Dialog → Dialog
fail d = record (invalidate d) { view = none }

-- The rest of `try`, or `catch`, for an answer to a current request in an open dialog.
unfoldable pub receive : Question → Answer → Dialog → Dialog
receive q lost d = fail d
receive read (arrived size v) d =
    if valid_view v
    then record d { view = some (array_of (get v "Items")); selection = "" }
    else fail d
receive (preview operation) (arrived size v) d =
    if valid_preview v operation then record d { plan = some v } else fail d
receive (stop id) (arrived size v) d = record d { view = none; selection = "" }

-- `finally`.
unfoldable pub release : Ticket → Dialog → Dialog
release t d = if t.current == d.revision then record d { busy = false; stopping = false } else d

-- The second half of requestLlamaSession.
unfoldable pub end_request : Ticket → Answer → Dialog → Dialog
end_request t answer d =
    release t (if t.current == d.revision && d.is_open then receive t.question answer d else d)

-- The `close` event of the dialog.
unfoldable pub closed : Dialog → Dialog
closed d = record (invalidate d) {
  revision = suc d.revision;
  busy = false;
  view = none;
  is_open = false;
}

-- What a dialog does that is to be closed; while a stop waits it stays. The key Escape is one whose
-- `cancel` event can be cancelled; a browser may close a dialog on a repeated Escape regardless.
unfoldable pub leave : Dialog → Dialog
leave d = if d.stopping then d else closed d

unfoldable pub opened : Dialog → Dialog
opened d = record (invalidate d) {
  revision = suc d.revision;
  busy = false;
  view = none;
  is_open = true;
}

pub data Event : Type 0 where
  open_dialog press_close press_escape press_read press_f5 press_preview press_stop : Event
  choose : String → Event
  confirm : Bool → Event

unfoldable pub handle : Event → Dialog → Option Ticket × Dialog
handle open_dialog d = begin_read (opened d)
handle press_close d = (none, leave d)
handle press_escape d = (none, leave d)
handle press_read d = begin_read d
handle press_f5 d = begin_read d
handle press_preview d = begin_preview d
handle press_stop d = begin_stop d
handle (choose operation) d =
    (none, record (invalidate d) { revision = suc d.revision; selection = operation })
handle (confirm checked) d = (none, record d { confirmed = checked })

-- A control that is disabled gets no events, and neither does the page behind the open dialog.
unfoldable pub is_possible : Event → Dialog → Bool
unfolding controls
is_possible open_dialog d = not d.is_open
is_possible press_close d = d.is_open && (controls d).close
is_possible press_escape d = d.is_open
is_possible press_read d = d.is_open && (controls d).read
is_possible press_f5 d = d.is_open
is_possible press_preview d = d.is_open && (controls d).preview
is_possible press_stop d = d.is_open && (controls d).stop
is_possible (choose operation) d = d.is_open && (controls d).select
is_possible (confirm checked) d = d.is_open && (controls d).confirm
