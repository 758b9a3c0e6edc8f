-- ===== src/Cms.antt =====
-- The inspection of the central management server: Ui/app.js, from cmsInspectionRevision to its
-- handlers. Texts are left out; `shows_result` says that a result is shown.
pub mod Laws
mod Tests
use sql_server_lab.Prelude.{
  ℕ, suc, String, Bool, true, false, not, ◌&&◌, ◌||◌, List, [], ◌∷◌, Option, none, some, str_eq,
  ◌==◌, if◌then◌else◌,
}
use sql_server_lab.Js.{
  Value, undefined, null, bool, num, negative, fraction, str, get, is_str, is_one_of, is_integer_in,
  truthy,
}
use sql_server_lab.Js.Coerce.{test_or_empty}
use sql_server_lab.Js.Patterns.{hex}
use sql_server_lab.Session.{Answer, lost, arrived}

pub record Dialog : Type 0 where
  pub revision : ℕ
  pub busy : Bool
  pub view : Option Value
  pub is_open : Bool
  pub shows_result : Bool

-- `cmsInspectionView` may be inspected.
unfoldable pub can_inspect : Value → Bool
can_inspect v =
    is_str (get v "Status") "NOT_CHECKED"
    && test_or_empty (hex 64) (get v "SelectionKey")
    && is_one_of ("docker" ∷ "podman" ∷ []) (get v "Provider")

abbrev can_inspect_any : Option Value → Bool
can_inspect_any none = false
can_inspect_any (some v) = can_inspect v

-- updateCmsInspectionControls: which controls are not disabled.
pub record Enabled : Type 0 where
  pub read : Bool
  pub check : Bool

unfoldable pub controls : Dialog → Enabled
unfolding can_inspect
controls d = record { read = not d.busy; check = not (d.busy || not (can_inspect_any d.view)) }

-- `===`, for values of two answers, of which no object or array is the same.
unfoldable pub same_value : Value → Value → Bool
same_value undefined undefined = true
same_value null null = true
same_value (bool true) (bool b) = b
same_value (bool false) (bool b) = not b
same_value (num m) (num n) = m == n
same_value (negative m) (negative n) = m == n
same_value (fraction s) (fraction t) = str_eq s t
same_value (str s) (str t) = str_eq s t
same_value _ _ = false

unfoldable pub same_target : Value → Value → Bool
same_target v w =
    same_value (get v "SelectionKey") (get w "SelectionKey")
    && same_value (get v "RunId") (get w "RunId")
    && same_value (get v "InstanceId") (get w "InstanceId")
    && same_value (get v "Provider") (get w "Provider")

-- A request reads the registration, or inspects the view that is selected.
pub data Question : Type 0 where
  read : Question
  inspect : Value → Question

pub record Ticket : Type 0 where
  pub question : Question
  pub revision : ℕ

abbrev pub ticket : Question → Dialog → Ticket
ticket q d = record { question = q; revision = d.revision }

abbrev pub waiting : Dialog → Dialog
waiting d = record d { busy = true; shows_result = false }

-- The first half of readCmsInspection, without and with the argument.
unfoldable pub begin_read : Dialog → Option Ticket × Dialog
begin_read d = if d.busy || not d.is_open then (none, d) else (some (ticket read d), waiting d)

unfoldable pub inspect_view : Option Value → Dialog → Option Ticket × Dialog
inspect_view none d = (none, d)
inspect_view (some v) d =
    if d.busy || not d.is_open
    then (none, d)
    else if can_inspect v
    then (some (ticket (inspect v) d), waiting d)
    else (none, d)

-- Whether the `Result` of an answer is accepted.
unfoldable pub is_accepted : Question → Value → Bool
is_accepted read view = is_str (get view "ContractVersion") "SqlServerLab.CmsInspection/1.0"
is_accepted (inspect selection) view =
    is_str (get view "ContractVersion") "SqlServerLab.CmsInspection/1.0"
    && same_target view selection

abbrev is_major : Value → Bool
is_major (num n) = n == 15 || n == 16 || n == 17
is_major _ = false

-- `parses` is whether `Date.parse` gives a time.
module _ (parses : Value → Bool) where
  -- Whether renderCmsInspection finds a result in a view.
  unfoldable pub is_observed : Value → Bool
  is_observed v =
      is_str (get v "Status") "OBSERVED"
      && is_major (get v "SqlMajor")
      && is_integer_in 0 9007199254740991 (get v "ManagedGroupCount")
      && is_integer_in 0 9007199254740991 (get v "ManagedServerCount")
      && parses (get v "ObservedAt")

  -- The rest of `try`, or `catch`, for an answer to a current request in an open dialog.
  unfoldable pub receive : Question → Answer → Dialog → Dialog
  receive q lost d = record d { view = none; shows_result = false }
  receive q (arrived size payload) d =
      if is_accepted q (get payload "Result")
      then record d {
        view = some (get payload "Result");
        shows_result = is_observed (get payload "Result");
      }
      else record d { view = none; shows_result = false }

  -- `finally`.
  unfoldable pub release : Ticket → Dialog → Dialog
  release t d = if t.revision == d.revision then record d { busy = false } else d

  -- The second half of readCmsInspection.
  unfoldable pub end_request : Ticket → Answer → Dialog → Dialog
  end_request t answer d =
      release t (if t.revision == d.revision && d.is_open then receive t.question answer d else d)

pub data Event : Type 0 where
  open_dialog close_dialog press_read press_check : Event

abbrev pub opened : Dialog → Dialog
opened d = record d {
  revision = suc d.revision;
  busy = false;
  view = none;
  is_open = true;
  shows_result = false;
}

unfoldable pub handle : Event → Dialog → Option Ticket × Dialog
handle open_dialog d = begin_read (opened d)
handle close_dialog d =
    (none, record d { revision = suc d.revision; busy = false; view = none; is_open = false })
handle press_read d = begin_read d
handle press_check d = inspect_view d.view d
