-- ===== src/Sessions/Tests.antt =====
-- The dialog of llama.cpp sessions at concrete inputs.
use sql_server_lab.Prelude.{true, false, List, [], ◌∷◌, none, some, ◌≡◌, refl}
use sql_server_lab.Js.{Value, num, str, obj, field, end, get}
use sql_server_lab.Session.{lost, arrived, initially, quietly, asking, receiving}
use sql_server_lab.Sessions.{
  Dialog, preview, stop, Ticket, begin_preview, stop_plan, valid_preview, is_offered, end_request,
  receive, release, Event, press_preview, press_stop, press_escape, press_f5, choose, confirm,
  handle,
}
use sql_server_lab.Sessions.Laws.{stop_is_selected}
use sql_server_lab.Sessions.Awaited.{run, IsQuiet, IsOver, stop_is_awaited}

abbrev session : Value
session = obj (
    field "OperationId" (str "op-1") (field "Port" (num 8080) (field "Status" (str "RUNNING") end)))

abbrev previewed : Value
previewed = obj (
    field "OperationId" (str "op-1")
      (field "ConsumerCoverage" (str "UNKNOWN") (field "PlanId" (str "plan-7") end)))

abbrev dialog : Dialog
dialog = record {
  revision = 3;
  busy = false;
  stopping = false;
  view = some (session ∷ []);
  plan = none;
  is_open = true;
  selection = "op-1";
  confirmed = false;
}

abbrev asked : Ticket
asked = record { question = preview "op-1"; current = 4 }

abbrev asking_preview : Dialog
asking_preview = record dialog { revision = 4; busy = true }

abbrev planned : Dialog
planned = record dialog { revision = 4; plan = some previewed }

abbrev ready : Dialog
ready = record planned { confirmed = true }

abbrev stop_ticket : Ticket
stop_ticket = record { question = stop (str "plan-7"); current = 5 }

abbrev stopping : Dialog
stopping = record dialog { revision = 5; busy = true; stopping = true }

stop_is_selected_example :
    (p : Value) × (stop_ticket.question ≡ stop (get p "PlanId"))
    × (true ≡ true)
    × (valid_preview p "op-1" ≡ true)
    × (is_offered "op-1" (some (session ∷ [])) ≡ true)
unfolding handle begin_preview is_offered stop_plan end_request receive release valid_preview
stop_is_selected_example =
    stop_is_selected ready [] stop_ticket
      (quietly (confirm true) planned [] refl (
        receiving 0 asked (arrived 90 previewed) asking_preview (asked ∷ []) refl
          (asking press_preview dialog asked [] refl (initially dialog tt))))
      refl

abbrev pressed : List Event
pressed = press_escape ∷ press_f5 ∷ choose "op-2" ∷ press_stop ∷ []

stop_is_awaited_example :
    (run pressed stopping ≡ stopping)
    × IsQuiet pressed stopping
    × IsOver (end_request stop_ticket lost (run pressed stopping))
unfolding handle stop_plan
stop_is_awaited_example = stop_is_awaited ready stop_ticket pressed lost refl refl
