-- ===== src/Llama/Plan.antt =====
-- Ui/llama-start-plan.js: the inputs of a preview, the contract of its answer, the state of the
-- dialog and its event handlers. A request begins, and ends when the server's answer has been
-- parsed. `result` holds the view that is shown; the status line is left out.
use sql_server_lab.Prelude.{
  ℕ, suc, String, Bool, true, false, not, ◌&&◌, ◌||◌, List, [], ◌∷◌, Option, none, some, ◌==◌, all,
  str_eq, if◌then◌else◌, require, ◌>>=◌, ◌>>◌,
}
use sql_server_lab.Js.{
  is_list_of, Value, get, shape, is_str, is_false, is_empty_array, is_integer_in,
}
use sql_server_lab.Llama.{Common, Numbers, read_numbers, valid_choices, is_short, cleared, defaults}

pub record Inputs : Type 0 where
  pub form : Common
  pub numbers : Numbers

unfoldable pub is_file : String → Bool
is_file text = not (str_eq text "") && is_short text

-- readLlamaStartPlanInputs.
unfoldable pub read_inputs : Common → Option Inputs
read_inputs form = do
  require (is_file form.runtime && is_file form.model)
  require (valid_choices form)
  numbers ← read_numbers form
  some (record { form = form; numbers = numbers })

-- llamaStartPlanFixed.
abbrev fixed : List (String × String)
fixed =
    ("Mode", "PLAN_ONLY")
    ∷ ("Status", "BLOCKED")
    ∷ ("RuntimeEvidence", "FILES_ONLY")
    ∷ ("ModelFormat", "GGUF")
    ∷ ("InputObservation", "METADATA_STABLE_NOT_CAS")
    ∷ ("DeviceReadiness", "NOT_CHECKED")
    ∷ ("PortAvailability", "NOT_CHECKED")
    ∷ ("EmbeddingReadiness", "NOT_CHECKED")
    ∷ ("TlsReadiness", "NOT_CHECKED")
    ∷ ("PrivateKeyMatch", "NOT_CHECKED")
    ∷ ("SanTrust", "NOT_CHECKED")
    ∷ ("SqlReadiness", "NOT_CHECKED")
    ∷ []

abbrev names : List String
names =
    "Mode" ∷ "Status" ∷ "RuntimeEvidence" ∷ "ModelFormat" ∷ "InputObservation" ∷ "DeviceReadiness"
    ∷ "PortAvailability" ∷ "EmbeddingReadiness" ∷ "TlsReadiness" ∷ "PrivateKeyMatch" ∷ "SanTrust"
    ∷ "SqlReadiness" ∷ "Dimension" ∷ "Port" ∷ "StartTimeoutSeconds" ∷ "LeaseSeconds" ∷ "ContextSize"
    ∷ "Backend" ∷ "Accelerator" ∷ "Pooling" ∷ "Contract" ∷ "Actions" ∷ "ExecutionSupported"
    ∷ "MutationAllowed" ∷ "Blockers" ∷ "NextSteps" ∷ []

-- llamaStartPlanArrays.
abbrev blockers : List String
blockers =
    "LIVE_READINESS_NOT_CHECKED" ∷ "TLS_AND_SECRETS_NOT_SUPPLIED" ∷ "SQL_EMBEDDING_NOT_CHECKED" ∷ []

abbrev next_steps : List String
next_steps =
    "SELECT_EXPLICIT_START_INPUTS" ∷ "VALIDATE_TLS_AND_DEVICE_READINESS_SEPARATELY"
    ∷ "USE_EXISTING_START_WITH_FRESH_INPUT_VALIDATION" ∷ []

abbrev is_number : ℕ → Value → Bool
is_number n v = is_integer_in n n v

-- What every preview says, whatever the inputs.
unfoldable pub plan_head : Value → Bool
plan_head view =
    shape view names
    && shape (get view "Contract") ("Name" ∷ "Version" ∷ [])
    && is_str (get (get view "Contract") "Name") "SqlServerLab.LlamaCppStartPlan"
    && is_str (get (get view "Contract") "Version") "1.0"
    && all (λ (e : String × String). is_str (get view e.0) e.1) fixed

-- What it repeats of the inputs.
unfoldable pub repeats : Value → Inputs → Bool
repeats view inputs =
    is_str (get view "Backend") inputs.form.backend
    && is_str (get view "Accelerator") inputs.form.accelerator
    && is_str (get view "Pooling") inputs.form.pooling
    && is_number inputs.numbers.dimension (get view "Dimension")
    && is_number inputs.numbers.port (get view "Port")
    && is_number inputs.numbers.timeout (get view "StartTimeoutSeconds")
    && is_number inputs.numbers.lease (get view "LeaseSeconds")
    && is_number inputs.numbers.context (get view "ContextSize")

-- What it must not offer.
unfoldable pub plan_tail : Value → Bool
plan_tail view =
    is_false (get view "ExecutionSupported")
    && is_false (get view "MutationAllowed")
    && is_empty_array (get view "Actions")
    && is_list_of blockers (get view "Blockers")
    && is_list_of next_steps (get view "NextSteps")

-- validLlamaStartPlan.
unfoldable pub valid_plan : Value → Inputs → Bool
valid_plan view inputs = plan_head view && repeats view inputs && plan_tail view

pub record Dialog : Type 0 where
  pub revision : ℕ
  pub busy : Bool
  pub is_open : Bool
  pub form : Common
  pub result : Option Value

-- updateLlamaStartPlanControls: whether the inputs and the button are enabled.
unfoldable pub controls : Dialog → Bool
controls d = not d.busy

-- invalidateLlamaStartPlan.
unfoldable pub invalidate : Bool → Dialog → Dialog
invalidate clear d =
    let next : Dialog = record d { revision = suc d.revision; busy = false; result = none } in
    if clear then record next { form = cleared } else next

-- What a request remembers while it waits; its inputs are what it sends.
pub record Ticket : Type 0 where
  pub inputs : Inputs
  pub revision : ℕ

-- The first half of requestLlamaStartPlan.
unfoldable pub begin_request : Dialog → Option (Ticket × Dialog)
begin_request d = do
  require (not (d.busy || not d.is_open))
  inputs ← read_inputs d.form
  some (
    record { inputs = inputs; revision = suc d.revision },
    record d { revision = suc d.revision; busy = true; result = none },
  )

-- The answer: none, or the parsed view.
pub data Reply : Type 0 where
  failed : Reply
  answered : Value → Reply

abbrev pub is_current : Ticket → Dialog → Bool
is_current ticket d = ticket.revision == d.revision && d.is_open

unfoldable pub take_reply : Ticket → Reply → Dialog → Dialog
take_reply ticket failed d = d
take_reply ticket (answered view) d =
    if valid_plan view ticket.inputs then record d { result = some view } else d

-- The second half, with its `finally`.
unfoldable pub end_request : Ticket → Reply → Dialog → Dialog
end_request ticket reply d =
    let seen : Dialog = if is_current ticket d then take_reply ticket reply d else d in
    if ticket.revision == seen.revision then record seen { busy = false } else seen

pub data Event : Type 0 where
  open_dialog close_dialog press : Event
  edit : Common → Event
  answer : Ticket → Reply → Event

abbrev pub begun : Dialog → Option (Ticket × Dialog) → Dialog
begun d none = d
begun d (some (ticket, d')) = d'

unfoldable pub handle : Event → Dialog → Dialog
handle open_dialog d = record (invalidate true d) { form = defaults; is_open = true }
handle close_dialog d = record (invalidate true d) { is_open = false }
handle press d = begun d (begin_request d)
handle (edit form) d = invalidate false (record d { form = form })
handle (answer ticket reply) d = end_request ticket reply d

unfoldable pub run : List Event → Dialog → Dialog
run [] d = d
run (e ∷ es) d = run es (handle e d)
