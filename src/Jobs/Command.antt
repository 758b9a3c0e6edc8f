-- ===== src/Jobs/Command.antt =====
-- A command submission: readUiJobResponse and submitUiCommandBody of Ui/app.js.
-- A command is posted in two steps: a one-time grant is asked for, and the command is sent with it.
pub mod Laws
use Prim.Native.String
use sql_server_lab.Prelude.{
  ℕ, String, Bool, true, false, not, ◌&&◌, ◌||◌, List, [], ◌∷◌, Option, none, some, str_eq,
  includes, if◌then◌else◌, ◌==◌,
}
use sql_server_lab.Js.{Value, get, is_object, is_string, is_str, matches, text_of}
use sql_server_lab.Js.Patterns.{hex}

-- The body of a response: parsed JSON, or the message of the error that parsing throws.
pub data Body : Type 0 where
  json : Value → Body
  broken : String → Body

-- What wins the race of `Promise.race`: the fetch fails with a message, a response arrives with its
-- `ok` flag, its status and its body, or the timer fires first.
pub data Arrival : Type 0 where
  failed : String → Arrival
  answered : Bool → ℕ → Body → Arrival
  timed_out : Arrival

pub data Reply : Type 0 where
  ok : Value → Reply
  error : String → Reply

-- readUiJobResponse. The timer is cleared in every case, and the request is aborted when it fires.
unfoldable pub read_ui_job_response : String → Arrival → Reply
read_ui_job_response endpoint (failed message) = error message
read_ui_job_response endpoint (answered true status (json v)) = ok v
read_ui_job_response endpoint (answered true status (broken message)) = error message
read_ui_job_response endpoint (answered false status body) = error (
    if str_eq endpoint "/api/command-grants" && status == 429
    then "UI_COMMAND_GRANT_CAPACITY"
    else "UI_REQUEST_UNCONFIRMED")
read_ui_job_response endpoint timed_out = error "UI_REQUEST_TIMEOUT"

-- The requests that a submission makes: for a grant with the body, of the command with the grant
-- header and the body, and for the cancellation of a grant by its receipt.
pub data Call : Type 0 where
  ask_grant : String → Call
  send_command : String → String → Call
  cancel_grant : String → Call

abbrev pub endpoint_of : Call → String
endpoint_of (ask_grant body) = "/api/command-grants"
endpoint_of (send_command grant body) = "/api/commands"
endpoint_of (cancel_grant receipt) =
    String.◌++◌ (String.◌++◌ "/api/command-grants/" receipt) "/cancel"

pub data Outcome : Type 0 where
  accepted : Value → Outcome
  refused : String → Option String → Outcome

-- The calls that were made, in order, and the outcome.
pub record Submission : Type 0 where
  pub calls : List Call
  pub outcome : Outcome

unfoldable pub is_grant : Value → Bool
is_grant g = is_object g && matches (hex 64) (get g "grant") && matches (hex 32) (get g "receiptId")

unfoldable pub has_receipt : Value → Bool
has_receipt g = is_object g && matches (hex 32) (get g "receiptId")

abbrev non_empty : Value → Bool
non_empty v = is_string v && not (is_str v "")

unfoldable pub is_acceptance : Value → Value → Bool
is_acceptance grant v =
    is_object v
    && non_empty (get v "id")
    && matches (hex 32) (get v "receiptId")
    && is_str (get v "receiptId") (text_of (get grant "receiptId"))

abbrev pub public_messages : List String
public_messages =
    "UI_COMMAND_GRANT_CAPACITY" ∷ "UI_REQUEST_TIMEOUT" ∷ "UI_REQUEST_UNCONFIRMED"
    ∷ "UI_COMMAND_UNCONFIRMED" ∷ []

-- The messages that the page passes on; any other is replaced.
unfoldable pub public_message : String → String
public_message m = if includes public_messages m then m else "UI_COMMAND_UNCONFIRMED"

-- The reply to the command is accepted if it carries an id and the grant's receipt.
unfoldable pub judge : Value → Reply → Outcome
judge grant (ok v) =
    if is_acceptance grant v
    then accepted v
    else refused "UI_COMMAND_UNCONFIRMED" (some (text_of (get grant "receiptId")))
judge grant (error m) = refused (public_message m) (some (text_of (get grant "receiptId")))

-- The second request, after `submitted = true`: a failure does not cancel the grant.
send_with : (Call → Arrival) → Value → String → Submission
send_with net grant body =
    let call = send_command (text_of (get grant "grant")) body in
    record {
      calls = ask_grant body ∷ call ∷ [];
      outcome = judge grant (read_ui_job_response (endpoint_of call) (net call));
    }

-- The handler for a reply that is no grant: what it shows of a receipt is cancelled, whatever
-- becomes of that request.
give_up : Value → String → Submission
give_up grant body =
    if has_receipt grant
    then record {
      calls = ask_grant body ∷ cancel_grant (text_of (get grant "receiptId")) ∷ [];
      outcome = refused "UI_COMMAND_UNCONFIRMED" (some (text_of (get grant "receiptId")));
    }
    else record { calls = ask_grant body ∷ []; outcome = refused "UI_COMMAND_UNCONFIRMED" none }

after_grant : (Call → Arrival) → String → Reply → Submission
after_grant net body (error m) = record {
  calls = ask_grant body ∷ [];
  outcome = refused (public_message m) none;
}
after_grant net body (ok grant) =
    if is_grant grant then send_with net grant body else give_up grant body

-- submitUiCommandBody, where `net` says how each request ends.
unfoldable pub submit_ui_command_body : (Call → Arrival) → String → Submission
unfolding after_grant send_with give_up
submit_ui_command_body net body =
    after_grant net body
      (read_ui_job_response (endpoint_of (ask_grant body)) (net (ask_grant body)))
