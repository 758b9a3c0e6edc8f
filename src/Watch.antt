-- ===== src/Watch.antt =====
-- The watch of resources of Ui/app.js: readResourceWatch and the handlers of its dialog. `shown` is
-- what the dialog says.
pub mod Laws
use sql_server_lab.Prelude.{
  ℕ, suc, Bool, true, false, not, ◌&&◌, ◌||◌, List, [], ◌∷◌, Option, none, some, all, ◌==◌,
  if◌then◌else◌,
}
use sql_server_lab.Js.{Value, undefined, null, get, is_array, array_of, truthy}
use sql_server_lab.Session.{Answer, lost, arrived}

pub data Shown : Type 0 where
  reading unclear : Shown
  listed : Value → Shown

pub record Dialog : Type 0 where
  pub revision : ℕ
  pub busy : Bool
  pub is_open : Bool
  pub shown : Shown

-- updateResourceWatchControls: both buttons are disabled or none.
abbrev pub can_press : Dialog → Bool
can_press d = not d.busy

-- A request reads the findings of the session, or has the sources checked first.
pub record Ticket : Type 0 where
  pub refresh : Bool
  pub revision : ℕ

-- The first half of readResourceWatch.
unfoldable pub begin_read : Bool → Dialog → Option Ticket × Dialog
begin_read refresh d =
    if d.busy || not d.is_open
    then (none, d)
    else (some (record { refresh = refresh; revision = d.revision }), record d { busy = true })

abbrev has_properties : Value → Bool
has_properties undefined = false
has_properties null = false
has_properties _ = true

-- Whether the view can be shown: nothing is read of null or undefined.
unfoldable pub can_list : Value → Bool
can_list v =
    has_properties v
    && (not (truthy (get v "Items"))
        || (is_array (get v "Items") && all has_properties (array_of (get v "Items"))))

-- The rest of `try`, or `catch`, for an answer to a current request in an open dialog.
unfoldable pub receive : Answer → Dialog → Dialog
receive lost d = record d { shown = unclear }
receive (arrived size payload) d =
    if can_list (get payload "Result")
    then record d { shown = listed (get payload "Result") }
    else record d { shown = unclear }

-- `finally`.
unfoldable pub release : Ticket → Dialog → Dialog
release t d = if t.revision == d.revision then record d { busy = false } else d

-- The second half of readResourceWatch.
unfoldable pub end_request : Ticket → Answer → Dialog → Dialog
end_request t answer d =
    release t (if t.revision == d.revision && d.is_open then receive answer d else d)

pub data Event : Type 0 where
  open_dialog close_dialog press_read press_check : Event

unfoldable pub handle : Event → Dialog → Option Ticket × Dialog
handle open_dialog d =
    begin_read false
      (record d { revision = suc d.revision; busy = false; is_open = true; shown = reading })
handle close_dialog d =
    (none, record d { revision = suc d.revision; busy = false; is_open = false })
handle press_read d = begin_read false d
handle press_check d = begin_read true d
