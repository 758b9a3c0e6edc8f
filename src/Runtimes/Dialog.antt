-- ===== src/Runtimes/Dialog.antt =====
-- The dialog of Ui/external-runtime-capability.js: its variables and controls, `request` and the
-- event handlers. The status line is left out; `result` and `history` are the answers that are shown.
use sql_server_lab.Prelude.{
  ℕ, suc, String, Bool, true, false, not, ◌&&◌, ◌||◌, List, [], ◌∷◌, Option, none, some, includes,
  get_elem?, ◌==◌, if◌then◌else◌,
}
use sql_server_lab.Js.{Value, get, shape, is_str, is_one_of, array_of, text_of, matches}
use sql_server_lab.Js.Patterns.{variant_id, version_number}
use sql_server_lab.Session.{Answer, lost, arrived}
use sql_server_lab.Runtimes.{
  catalog_status, software, valid_options, valid_evaluation, valid_history,
}

pub record Dialog : Type 0 where
  pub revision : ℕ
  pub busy : Bool
  pub options : List Value
  -- controls: the dialog, the provider, the SQL version, the index of the choice, the results
  pub is_open : Bool
  pub provider : String
  pub sql : String
  pub choice : Option ℕ
  pub result : Option Value
  pub history : Option Value

abbrev option_at : List Value → Option ℕ → Option Value
option_at options none = none
option_at options (some n) = get_elem? options n

-- selected.
abbrev pub selected : Dialog → Option Value
selected d = option_at d.options d.choice

-- Whether the catalogue supports an option: the buttons behind the choice are enabled.
abbrev pub is_supported : Value → Bool
is_supported o = is_str (catalog_status (get o "Decision")) "DECLARED_SUPPORTED"

abbrev supported : Option Value → Bool
supported none = false
supported (some o) = is_supported o

-- controls: the inputs, and the three buttons.
pub record Enabled : Type 0 where
  pub inputs : Bool
  pub buttons : Bool

unfoldable pub controls : Dialog → Enabled
controls d = record { inputs = not d.busy; buttons = not (d.busy || not (supported (selected d))) }

-- clear.
unfoldable pub clear : Dialog → Dialog
clear d = record d {
  revision = suc d.revision;
  busy = false;
  options = [];
  choice = none;
  result = none;
  history = none;
}

-- What is asked: the options, with a variant to select afterwards if the host matrix names one; a
-- decision on a variant, with or without a check of the host; or its recorded history.
pub data Question : Type 0 where
  read_options : Option Value → Question
  evaluate : Bool → Value → Question
  read_history : Value → Question

pub record Ticket : Type 0 where
  pub question : Question
  pub provider : String
  pub sql : String
  pub current : ℕ

unfoldable pub valid_target : Dialog → Bool
valid_target d =
    includes ("docker" ∷ "podman" ∷ []) d.provider && includes ("2019" ∷ "2022" ∷ "2025" ∷ []) d.sql

abbrev pub ticket : Question → Dialog → Ticket
ticket q d = record { question = q; provider = d.provider; sql = d.sql; current = suc d.revision }

abbrev pub waiting : Dialog → Dialog
waiting d = record d { revision = suc d.revision; busy = true; result = none; history = none }

-- The first half of `request`, for the options and for a variant.
unfoldable pub begin_read : Option Value → Dialog → Option Ticket × Dialog
begin_read wanted d =
    if d.busy || not d.is_open
    then (none, d)
    else if valid_target d
    then (some (ticket (read_options wanted) d), waiting d)
    else (none, d)

unfoldable pub begin_for : (Value → Question) → Option Value → Dialog → Option Ticket × Dialog
begin_for q none d = (none, d)
begin_for q (some o) d =
    if d.busy || not d.is_open
    then (none, d)
    else if valid_target d && is_supported o
    then (some (ticket (q o) d), waiting d)
    else (none, d)

-- The test of an event of the host matrix.
unfoldable pub valid_wish : Value → Bool
valid_wish detail =
    shape detail ("SqlVersion" ∷ "Provider" ∷ "SoftwareId" ∷ "RuntimeVersion" ∷ "VariantId" ∷ [])
    && is_one_of ("2019" ∷ "2022" ∷ "2025" ∷ []) (get detail "SqlVersion")
    && is_one_of ("docker" ∷ "podman" ∷ []) (get detail "Provider")
    && is_one_of software (get detail "SoftwareId")
    && matches version_number (get detail "RuntimeVersion")
    && matches variant_id (get detail "VariantId")

-- The dialog that such an event opens.
abbrev pub opened_for : Value → Dialog → Dialog
opened_for detail d = record (clear d) {
  provider = text_of (get detail "Provider");
  sql = text_of (get detail "SqlVersion");
  is_open = true;
}

unfoldable pub begin_wish : Value → Dialog → Option Ticket × Dialog
begin_wish detail d =
    if valid_wish detail then begin_read (some detail) (opened_for detail d) else (none, d)

unfoldable pub is_wanted : Value → Value → Bool
is_wanted tuple o =
    is_str (get o "SoftwareId") (text_of (get tuple "SoftwareId"))
    && is_str (get o "RuntimeVersion") (text_of (get tuple "RuntimeVersion"))
    && is_str (get o "VariantId") (text_of (get tuple "VariantId"))
    && is_supported o

-- `options.findIndex(…)`, from the given index on.
unfoldable pub find_index : (Value → Bool) → ℕ → List Value → Option ℕ
find_index p n [] = none
find_index p n (o ∷ os) = if p o then some n else find_index p (suc n) os

abbrev pub wanted_choice : Option Value → List Value → Option ℕ
wanted_choice none options = none
wanted_choice (some tuple) options = find_index (is_wanted tuple) 0 options

-- The rest of `try`, or `catch`, for an answer to a current request in an open dialog; and what the
-- host matrix's event does when its options have been read.
unfoldable pub receive : Question → String → String → Answer → Dialog → Dialog
receive q provider sql lost d = clear d
receive (read_options wanted) provider sql (arrived size view) d =
    if valid_options view provider sql
    then record d {
      options = array_of (get view "Options");
      choice = wanted_choice wanted (array_of (get view "Options"));
    }
    else clear d
receive (evaluate check o) provider sql (arrived size view) d =
    if valid_evaluation view check provider sql o then record d { result = some view } else clear d
receive (read_history o) provider sql (arrived size view) d =
    if valid_history view provider sql o then record d { history = some view } else clear d

-- `finally`.
unfoldable pub release : Ticket → Dialog → Dialog
release t d = if t.current == d.revision then record d { busy = false } else d

-- The second half of `request`.
unfoldable pub end_request : Ticket → Answer → Dialog → Dialog
end_request t answer d = release t (
    if t.current == d.revision && d.is_open
    then receive t.question t.provider t.sql answer d
    else d)

pub data Event : Type 0 where
  open_dialog close_dialog press_read press_history : Event
  press_evaluate : Bool → Event
  choose_provider choose_sql : String → Event
  choose : Option ℕ → Event
  matrix_asks : Value → Event

unfoldable pub handle : Event → Dialog → Option Ticket × Dialog
handle open_dialog d = (none, record (clear d) { is_open = true })
handle close_dialog d = (none, record (clear d) { is_open = false })
handle press_read d = begin_read none d
handle press_history d = begin_for read_history (selected d) d
handle (press_evaluate check) d = begin_for (evaluate check) (selected d) d
handle (choose_provider provider) d = (none, clear (record d { provider = provider }))
handle (choose_sql sql) d = (none, clear (record d { sql = sql }))
handle (choose n) d =
    (none, record d { revision = suc d.revision; choice = n; result = none; history = none })
handle (matrix_asks detail) d = begin_wish detail d
