-- ===== src/Cms/Tests.antt =====
-- The inspection at concrete inputs.
use sql_server_lab.Prelude.{Bool, true, false, some, [], ◌∷◌, refl}
use sql_server_lab.Js.{Value, str, obj, field, end}
use sql_server_lab.Js.Patterns.{hex}
use sql_server_lab.Js.Coerce.{text_value, element_text}
use sql_server_lab.Session.{arrived, initially, asking}
use sql_server_lab.Cms.{
  Dialog, can_inspect, inspect, Ticket, inspect_view, end_request, press_check, handle,
}
use sql_server_lab.Cms.Laws.{LeavesTarget, inspection_target_stays}

abbrev registered : Value
registered = obj (
    field "Status" (str "NOT_CHECKED") (
      field "SelectionKey" (str "0123456789abcdef0123456789abcdef0123456789abcdef0123456789abcdef")
        (field "Provider" (str "docker")
          (field "RunId" (str "r") (field "InstanceId" (str "i") end)))))

abbrev observed : Value
observed = obj (
    field "Result"
      (obj (
        field "ContractVersion" (str "SqlServerLab.CmsInspection/1.0") (
          field "Status" (str "OBSERVED") (
            field "SelectionKey"
              (str "0123456789abcdef0123456789abcdef0123456789abcdef0123456789abcdef")
              (field "Provider" (str "docker")
                (field "RunId" (str "r") (field "InstanceId" (str "i") end)))))))
      end)

abbrev dialog : Dialog
dialog = record {
  revision = 2;
  busy = false;
  view = some registered;
  is_open = true;
  shows_result = false;
}

abbrev ticket : Ticket
ticket = record { question = inspect registered; revision = 2 }

abbrev waiting : Dialog
waiting = record dialog { busy = true }

abbrev parses : Value → Bool
parses v = true

-- The view of the run r is checked, and the answer is about its target.
inspection_target_stays_example :
    LeavesTarget waiting (end_request parses ticket (arrived 90 observed) waiting)
unfolding handle inspect_view can_inspect hex text_value element_text
inspection_target_stays_example =
    inspection_target_stays parses waiting (ticket ∷ []) 0 ticket registered (arrived 90 observed)
      (asking press_check dialog ticket [] refl (initially dialog tt)) refl refl
