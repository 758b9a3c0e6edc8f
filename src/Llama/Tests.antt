-- ===== src/Llama/Tests.antt =====
-- The theorems about the dialogs of llama.cpp sessions at concrete inputs.
use sql_server_lab.Prelude.{
  ℕ, String, true, false, not, ◌&&◌, List, [], ◌∷◌, none, some, ◌≡◌, refl, ◌↔◌, ◌⊎◌, Any,
}
use sql_server_lab.Js.{
  same_texts, is_list_of, Value, bool, num, str, arr, obj, end, field, no_more, items,
}
use sql_server_lab.Js.Patterns.{digits_between, trim, trim_start, guid, model_name, api_key}
use sql_server_lab.Llama.{
  Common, Numbers, read_limited, read_numbers, valid_choices, is_short, defaults,
}
use sql_server_lab.Llama.Start.{
  what_if, start, Form, empty_form, is_path, read_inputs, is_start, is_verified, result_head,
  valid_result, Dialog, clear_inputs, Request, Ticket, is_refused, waiting_dialog, answered,
  take_reply, release, end_request, Event, close_dialog, edit, press, answer, fits, body_for,
  begin_request, handle, run,
}
use sql_server_lab.Llama.Laws.{IsWithinLimits, read_numbers_iff}
use sql_server_lab.Llama.Safety.{sends_once, sends_and_forgets}
use sql_server_lab.Llama.Shown.{Reports, shown_session}
use sql_server_lab.Llama.Plan
use sql_server_lab.Llama.Preview.{initially, requesting, receiving, shown_plan_fits}

abbrev numbers : Numbers
numbers = record { dimension = 768; port = 19435; timeout = 120; lease = 900; context = 512 }

abbrev filled : Common
filled = record defaults { runtime = "/opt/llama"; model = "/models/m.gguf" }

read_numbers_iff_example : (read_numbers filled ≡ some numbers) ↔ IsWithinLimits filled numbers
read_numbers_iff_example = read_numbers_iff filled numbers

abbrev form : Form
form = record {
  common = filled;
  secrets = record {
    alias = "m";
    certificate = "/tls/cert";
    private_key = "/tls/key";
    api_key = "0123456789abcdef01234567";
    trusted_root = "";
  };
}

abbrev ready : Dialog
ready = record {
  revision = 4;
  busy = false;
  attempted = false;
  is_open = true;
  form = form;
  confirmed = true;
  result = none;
}

abbrev request : Request
request = record {
  action = start;
  confirmed = true;
  inputs = record { form = form; numbers = numbers };
}

abbrev size_of : Request → ℕ × ℕ
size_of q = (700, 700)

abbrev ticket : Ticket
ticket = record { action = start; revision = 5 }

abbrev waiting : Dialog
waiting = record {
  revision = 5;
  busy = true;
  attempted = true;
  is_open = true;
  form = empty_form;
  confirmed = false;
  result = none;
}

sent : begin_request size_of start ready ≡ some (ticket, request, waiting)
unfolding begin_request is_refused is_start body_for read_inputs read_numbers read_limited
    digits_between is_path is_short trim trim_start valid_choices model_name api_key waiting_dialog
    clear_inputs
sent = refl

sends_once_example :
    begin_request size_of what_if (run size_of (close_dialog ∷ edit form true ∷ []) waiting) ≡ none
sends_once_example =
    sends_once size_of (close_dialog ∷ edit form true ∷ []) start what_if ready ticket request
      waiting (refl, (refl, tt)) sent

sends_and_forgets_example :
    (read_inputs form ≡ some request.inputs)
    × (start ≡ start)
    × (true ≡ is_start start)
    × ((is_start start && not true) ≡ false)
    × (fits size_of request ≡ true)
    × (empty_form ≡ empty_form)
    × (false ≡ false)
sends_and_forgets_example = sends_and_forgets size_of start ready ticket request waiting sent

abbrev session : String
session = "0f8fad5b-d9cb-469f-a165-70867728950e"

abbrev verified : Value
verified = obj (
    field "Contract" (str "SqlServerLab.BrowserLlamaStartResult/1.0") (
      field "Status" (str "ENDPOINT_VERIFIED") (
        field "OperationId" (str session) (
          field "SqlReadiness" (str "NOT_CHECKED") (
            field "PossibleOwnSession" (bool true) (
              field "SameModuleRequired" (bool true)
                (field "AutoStopAllowed" (bool false) (field "RetryAllowed" (bool false) end))))))))

abbrev events : List Event
events = press start ∷ answer ticket (answered verified) ∷ []

shown_session_example : (ready.result ≡ some session) ⊎ Any (Reports session) events
unfolding run handle begin_request is_refused is_start body_for read_inputs read_numbers
    read_limited digits_between is_path is_short trim trim_start valid_choices model_name api_key
    waiting_dialog clear_inputs end_request take_reply release valid_result result_head is_verified
    guid
shown_session_example = shown_session size_of events ready session refl

abbrev plan : Value
plan = obj (
    field "Mode" (str "PLAN_ONLY") (
      field "Status" (str "BLOCKED") (
        field "RuntimeEvidence" (str "FILES_ONLY") (
          field "ModelFormat" (str "GGUF") (
            field "InputObservation" (str "METADATA_STABLE_NOT_CAS") (
              field "DeviceReadiness" (str "NOT_CHECKED") (
                field "PortAvailability" (str "NOT_CHECKED") (
                  field "EmbeddingReadiness" (str "NOT_CHECKED") (
                    field "TlsReadiness" (str "NOT_CHECKED") (
                      field "PrivateKeyMatch" (str "NOT_CHECKED") (
                        field "SanTrust" (str "NOT_CHECKED") (
                          field "SqlReadiness" (str "NOT_CHECKED") (
                            field "Backend" (str "LlamaCppCuda") (
                              field "Accelerator" (str "CPU") (
                                field "Pooling" (str "mean") (
                                  field "Dimension" (num 768) (
                                    field "Port" (num 19435) (
                                      field "StartTimeoutSeconds" (num 120) (
                                        field "LeaseSeconds" (num 900) (
                                          field "ContextSize" (num 512) (
                                            field "Contract"
                                              (obj (
                                                field "Name" (str "SqlServerLab.LlamaCppStartPlan")
                                                  (field "Version" (str "1.0") end)))
                                              (field "Actions" (arr no_more) (
                                                field "ExecutionSupported" (bool false) (
                                                  field "MutationAllowed" (bool false) (
                                                    field "Blockers"
                                                      (arr (
                                                        items (
                                                          str "LIVE_READINESS_NOT_CHECKED"
                                                          ∷ str "TLS_AND_SECRETS_NOT_SUPPLIED"
                                                          ∷ str "SQL_EMBEDDING_NOT_CHECKED"
                                                          ∷ [])))
                                                      (field "NextSteps"
                                                        (arr (
                                                          items (
                                                            str "SELECT_EXPLICIT_START_INPUTS"
                                                            ∷ str
                                                            "VALIDATE_TLS_AND_DEVICE_READINESS_SEPARATELY"
                                                            ∷ str
                                                            "USE_EXISTING_START_WITH_FRESH_INPUT_VALIDATION"
                                                            ∷ [])))
                                                        end))))))))))))))))))))))))))

abbrev drafting : Plan.Dialog
drafting = record { revision = 2; busy = false; is_open = true; form = filled; result = none }

abbrev draft : Plan.Inputs
draft = record { form = filled; numbers = numbers }

abbrev asked : Plan.Ticket
asked = record { inputs = draft; revision = 3 }

abbrev asking : Plan.Dialog
asking = record drafting { revision = 3; busy = true }

drafted : Plan.begin_request drafting ≡ some (asked, asking)
unfolding Plan.begin_request Plan.read_inputs Plan.is_file read_numbers read_limited digits_between
    is_short valid_choices
drafted = refl

shown_plan_fits_example :
    (inputs : Plan.Inputs) × (Plan.read_inputs filled ≡ some inputs)
    × (Plan.valid_plan plan inputs ≡ true)
unfolding Plan.end_request Plan.take_reply Plan.valid_plan Plan.plan_head Plan.repeats
    Plan.plan_tail same_texts is_list_of
shown_plan_fits_example =
    shown_plan_fits (Plan.end_request asked (Plan.answered plan) asking) (asked ∷ []) plan
      (receiving 0 asked (Plan.answered plan) asking (asked ∷ []) refl
        (requesting drafting asking asked [] drafted (initially drafting refl)))
      refl
