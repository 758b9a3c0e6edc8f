-- ===== src/Overrides.antt =====
-- The overrides of media sources of Ui/app.js: from updateMediaOverrideControls to the handlers of
-- the dialog. Texts that are only shown are left out.
pub mod Laws
use sql_server_lab.Prelude.{
  ℕ, suc, String, Bool, true, false, not, ◌&&◌, ◌||◌, List, [], ◌∷◌, Option, none, some, all, any,
  find, ◌==◌, if◌then◌else◌,
}
use sql_server_lab.Js.{Value, undefined, null, get, is_str, is_array, array_of, truthy, text_of}

pub record Dialog : Type 0 where
  pub revision : ℕ
  pub busy : Bool
  pub state : Option Value
  pub plan : Option Value
  -- controls: the dialog, the selected source and its address
  pub is_open : Bool
  pub selection : String
  pub url : String

abbrev pub is_some : Option Value → Bool
is_some none = false
is_some (some v) = true

abbrev is_ready : Option Value → Bool
is_ready none = false
is_ready (some v) = is_str (get v "Status") "READY"

abbrev changes : Option Value → Bool
changes none = false
changes (some plan) = not (truthy (get plan "IsNoOp"))

-- updateMediaOverrideControls: which controls are not disabled.
pub record Enabled : Type 0 where
  pub select : Bool
  pub edit : Bool
  pub apply : Bool
  pub read : Bool

unfoldable pub controls : Dialog → Enabled
controls d =
    let readable = is_some d.state && not d.busy in
    record {
      select = readable;
      edit = not (not readable || not (is_ready d.state));
      apply = not (not readable || not (changes d.plan));
      read = not d.busy;
    }

-- invalidateMediaOverridePlan.
abbrev pub invalidate_plan : Dialog → Dialog
invalidate_plan d = record d { plan = none }

-- What the dialog asks the server.
pub data Question : Type 0 where
  read : Question
  plan_override : String → String → String → Question
  apply_override : Value → Question

pub record Ticket : Type 0 where
  pub question : Question
  pub current : ℕ

-- The first half of runMediaOverrideRequest.
abbrev pub ticket : Question → Dialog → Ticket
ticket q d = record { question = q; current = d.revision }

unfoldable pub begin_request : Question → Dialog → Option Ticket × Dialog
begin_request q d =
    if d.busy || not d.is_open then (none, d) else (some (ticket q d), record d { busy = true })

abbrev has_properties : Value → Bool
has_properties undefined = false
has_properties null = false
has_properties _ = true

-- Whether renderMediaOverride reads nothing of null or undefined.
unfoldable pub can_render : Value → Bool
can_render v = is_array (get v "Items") && all has_properties (array_of (get v "Items"))

abbrev items_of : Option Value → List Value
items_of none = []
items_of (some v) = array_of (get v "Items")

abbrev selected_item : Option Value → String → Option Value
selected_item state id = find (λ (i : Value). is_str (get i "Id") id) (items_of state)

abbrev first_id : List Value → String
first_id [] = ""
first_id (i ∷ is) = text_of (get i "Id")

abbrev reselect : String → List Value → String
reselect previous is =
    if any (λ (i : Value). is_str (get i "Id") previous) is then previous else first_id is

-- `catch`, for a current request in an open dialog.
abbrev pub fail : Dialog → Dialog
fail d = record d { state = none; plan = none }

-- What comes back: nothing that can be used, or the `Result` of a request.
pub data Outcome : Type 0 where
  failed : Outcome
  result : Value → Outcome

-- `finally`.
unfoldable pub release : Ticket → Dialog → Dialog
release t d = if t.current == d.revision then record d { busy = false } else d

-- previewMediaOverride, for `Edit` and for `Reset`.
unfoldable pub preview_edit : Dialog → Option Ticket × Dialog
preview_edit d =
    if d.busy || not (is_some d.state) || not d.is_open
    then (none, d)
    else begin_request (plan_override d.selection "Edit" d.url) (invalidate_plan d)

unfoldable pub preview_reset : Dialog → Option Ticket × Dialog
preview_reset d =
    if d.busy || not (is_some d.state) || not d.is_open
    then (none, d)
    else begin_request (plan_override d.selection "Reset" "") (invalidate_plan d)

-- The handler of media-override-apply.
unfoldable pub press_apply_plan : Option Value → Dialog → Option Ticket × Dialog
press_apply_plan none d = (none, d)
press_apply_plan (some plan) d =
    if d.busy || truthy (get plan "IsNoOp") || not d.is_open
    then (none, d)
    else begin_request (apply_override plan) (invalidate_plan d)

pub data Event : Type 0 where
  open_dialog close_dialog press_read press_preview press_reset press_apply : Event
  choose type_url : String → Event

-- A control that is disabled gets no events.
unfoldable pub is_possible : Event → Dialog → Bool
unfolding controls
is_possible open_dialog d = not d.is_open
is_possible close_dialog d = d.is_open
is_possible press_read d = (controls d).read
is_possible press_preview d = (controls d).edit
is_possible press_reset d = (controls d).select
is_possible press_apply d = (controls d).apply
is_possible (choose id) d = (controls d).select
is_possible (type_url text) d = (controls d).edit

-- `shown_text` is the text that an input shows of a value.
module _ (shown_text : Value → String) where
  abbrev url_of : Option Value → String
  url_of none = ""
  url_of (some i) = if truthy (get i "EffectiveUrl") then shown_text (get i "EffectiveUrl") else ""

  -- selectMediaOverride.
  unfoldable pub select_item : Dialog → Dialog
  select_item d = record (invalidate_plan d) { url = url_of (selected_item d.state d.selection) }

  -- renderMediaOverride.
  unfoldable pub render : Value → Dialog → Dialog
  unfolding select_item
  render v d =
      if can_render v
      then select_item
          (record d { state = some v; selection = reselect d.selection (array_of (get v "Items")) })
      else fail d

  -- The `receive` of a request, or `catch`, for a current request in an open dialog.
  unfoldable pub receive : Question → Outcome → Dialog → Dialog
  receive q failed d = fail d
  receive read (result v) d = render v d
  receive (apply_override plan) (result v) d = render v d
  receive (plan_override id operation url) (result v) d =
      if has_properties v then record d { plan = if truthy v then some v else none } else fail d

  -- The second half of runMediaOverrideRequest.
  unfoldable pub end_request : Ticket → Outcome → Dialog → Dialog
  end_request t o d =
      release t (if t.current == d.revision && d.is_open then receive t.question o d else d)

  -- openMediaOverrideDialog, readMediaOverride and the event handlers.
  unfoldable pub handle : Event → Dialog → Option Ticket × Dialog
  handle open_dialog d = begin_request read (record d {
    revision = suc d.revision;
    busy = false;
    state = none;
    plan = none;
    is_open = true;
  })
  handle close_dialog d =
      (none, record d { revision = suc d.revision; busy = false; plan = none; is_open = false })
  handle press_read d = begin_request read (invalidate_plan d)
  handle press_preview d = preview_edit d
  handle press_reset d = preview_reset d
  handle press_apply d = press_apply_plan d.plan d
  handle (choose id) d = (none, select_item (record d { selection = id }))
  handle (type_url text) d = (none, record (invalidate_plan d) { url = text })
