-- ===== src/Llama/Start.antt =====
-- Ui/llama-start.js: the inputs of a start, the contract of its answer, the state of the dialog and
-- its event handlers. A request begins, and ends when the server's answer has been parsed. The
-- texts of the status line are left out; `result` holds the id of the session that is shown.
use sql_server_lab.Prelude.{
  ℕ, suc, String, Bool, true, false, not, ◌&&◌, ◌||◌, List, [], ◌∷◌, Option, none, some, ◌==◌, leb,
  is_nil, if◌then◌else◌, require, ◌>>=◌, ◌>>◌,
}
use sql_server_lab.Js.{
  Value, get, shape, is_str, is_null, is_true, is_false, is_bool, is_one_of, text_of, matches,
  codes,
}
use sql_server_lab.Js.Patterns.{guid, trim, model_name, api_key}
use sql_server_lab.Llama.{Common, Numbers, read_numbers, valid_choices, is_short, cleared, defaults}

pub data Action : Type 0 where
  what_if start : Action

-- The controls that the preview does not have.
pub record Secrets : Type 0 where
  pub alias : String
  pub certificate : String
  pub private_key : String
  pub api_key : String
  pub trusted_root : String

pub record Form : Type 0 where
  pub common : Common
  pub secrets : Secrets

abbrev no_secrets : Secrets
no_secrets = record {
  alias = "";
  certificate = "";
  private_key = "";
  api_key = "";
  trusted_root = "";
}

abbrev pub empty_form : Form
empty_form = record { common = cleared; secrets = no_secrets }

abbrev default_form : Form
default_form = record { common = defaults; secrets = no_secrets }

pub record Inputs : Type 0 where
  pub form : Form
  pub numbers : Numbers

-- A path of at most 4096 units that is not blank.
unfoldable pub is_path : String → Bool
is_path text = is_short text && not (is_nil (trim (codes text)))

-- readLlamaStartInputs.
unfoldable pub read_inputs : Form → Option Inputs
read_inputs form = do
  require (
      is_path form.common.runtime
      && is_path form.common.model
      && is_path form.secrets.certificate
      && is_path form.secrets.private_key
      && is_short form.secrets.trusted_root)
  require (valid_choices form.common)
  require (model_name (codes form.secrets.alias) && api_key (codes form.secrets.api_key))
  numbers ← read_numbers form.common
  some (record { form = form; numbers = numbers })

-- The tests of validLlamaStartResult that every answer has to pass. The source compares the keys
-- sorted and joined; as every name's value is tested too, that is the comparison of `shape`.
unfoldable pub result_head : Value → Bool
result_head view =
    shape view (
      "Contract" ∷ "Status" ∷ "OperationId" ∷ "SqlReadiness" ∷ "PossibleOwnSession"
      ∷ "SameModuleRequired" ∷ "AutoStopAllowed" ∷ "RetryAllowed" ∷ [])
    && is_str (get view "Contract") "SqlServerLab.BrowserLlamaStartResult/1.0"
    && is_str (get view "SqlReadiness") "NOT_CHECKED"
    && is_true (get view "SameModuleRequired")
    && is_false (get view "AutoStopAllowed")
    && is_false (get view "RetryAllowed")
    && is_bool (get view "PossibleOwnSession")

unfoldable pub is_start : Action → Bool
is_start start = true
is_start what_if = false

unfoldable pub is_verified : Value → Bool
is_verified view = is_str (get view "Status") "ENDPOINT_VERIFIED"

-- validLlamaStartResult.
unfoldable pub valid_result : Value → Action → Bool
valid_result view action =
    result_head view
    && (if is_verified view
        then is_start action
          && is_true (get view "PossibleOwnSession")
          && matches guid (get view "OperationId")
        else is_one_of ("WHATIF_ONLY" ∷ "NOT_CONFIRMED" ∷ "RECOVERY_REQUIRED" ∷ [])
            (get view "Status")
          && is_null (get view "OperationId")
          && (not (is_str (get view "Status") "WHATIF_ONLY")
              || is_false (get view "PossibleOwnSession")))

pub record Dialog : Type 0 where
  pub revision : ℕ
  pub busy : Bool
  pub attempted : Bool
  -- controls: the dialog, the inputs, the check box, the text of the result
  pub is_open : Bool
  pub form : Form
  pub confirmed : Bool
  pub result : Option String

-- updateLlamaStartControls: the inputs and the two buttons that it enables.
pub record Enabled : Type 0 where
  pub inputs : Bool
  pub buttons : Bool

unfoldable pub controls : Dialog → Enabled
controls d = record { inputs = not d.busy; buttons = not (d.busy || d.attempted) }

unfoldable pub clear_inputs : Dialog → Dialog
clear_inputs d = record d { form = empty_form; confirmed = false }

-- invalidateLlamaStart.
unfoldable pub invalidate : Bool → Dialog → Dialog
unfolding clear_inputs
invalidate clear d =
    let next : Dialog = record d { revision = suc d.revision; busy = false; result = none } in
    if clear then clear_inputs next else next

-- What is sent: `Action`, `Confirmed` and `Parameters`.
pub record Request : Type 0 where
  pub action : Action
  pub confirmed : Bool
  pub inputs : Inputs

-- What a request remembers while it waits.
pub record Ticket : Type 0 where
  pub action : Action
  pub revision : ℕ

-- Whether a button is pressed in vain: the early returns at the top of requestLlamaStart.
unfoldable pub is_refused : Action → Dialog → Bool
is_refused action d = d.busy || d.attempted || not d.is_open || (is_start action && not d.confirmed)

-- The dialog that waits for an answer; its inputs are gone.
unfoldable pub waiting_dialog : Dialog → Dialog
unfolding clear_inputs
waiting_dialog d =
    clear_inputs
      (record d { revision = suc d.revision; busy = true; attempted = true; result = none })

-- The answer: none, or the parsed view.
pub data Reply : Type 0 where
  failed : Reply
  answered : Value → Reply

abbrev pub is_current : Ticket → Dialog → Bool
is_current ticket d = ticket.revision == d.revision && d.is_open

unfoldable pub take_reply : Ticket → Reply → Dialog → Dialog
take_reply ticket failed d = d
take_reply ticket (answered view) d =
    if valid_result view ticket.action
    then record d {
      result = if is_verified view then some (text_of (get view "OperationId")) else none;
    }
    else d

-- `finally`.
unfoldable pub release : Ticket → Dialog → Dialog
unfolding clear_inputs
release ticket d =
    if ticket.revision == d.revision then clear_inputs (record d { busy = false }) else d

-- The second half of requestLlamaStart.
unfoldable pub end_request : Ticket → Reply → Dialog → Dialog
end_request ticket reply d =
    release ticket (if is_current ticket d then take_reply ticket reply d else d)

pub data Event : Type 0 where
  open_dialog close_dialog : Event
  edit : Form → Bool → Event
  press : Action → Event
  answer : Ticket → Reply → Event

-- The size of the body that `JSON.stringify` makes, in UTF-16 units and in bytes.
module _ (size_of : Request → ℕ × ℕ) where
  abbrev pub fits : Request → Bool
  fits request = leb (size_of request).0 32768 && leb (size_of request).1 65536

  unfoldable pub body_for : Action → Dialog → Option Request
  body_for action d = do
    inputs ← read_inputs d.form
    let request : Request = record { action = action; confirmed = is_start action; inputs = inputs }
    require (fits request)
    some request

  -- The first half of requestLlamaStart.
  unfoldable pub begin_request : Action → Dialog → Option (Ticket × Request × Dialog)
  begin_request action d = do
    require (not (is_refused action d))
    request ← body_for action d
    some (record { action = action; revision = suc d.revision }, request, waiting_dialog d)

  abbrev pub begun : Dialog → Option (Ticket × Request × Dialog) → Dialog
  begun d none = d
  begun d (some (ticket, request, d')) = d'

  unfoldable pub handle : Event → Dialog → Dialog
  handle open_dialog d = record (invalidate true d) {
    attempted = false;
    form = default_form;
    is_open = true;
  }
  handle close_dialog d = record (invalidate true d) { is_open = false }
  handle (edit form confirmed) d =
      invalidate false (record d { form = form; confirmed = confirmed })
  handle (press action) d = begun d (begin_request action d)
  handle (answer ticket reply) d = end_request ticket reply d

  unfoldable pub run : List Event → Dialog → Dialog
  run [] d = d
  run (e ∷ es) d = run es (handle e d)
