-- ===== src/Jobs/Board/Submitting.antt =====
-- The submission of an action: submitUiAction of Ui/app.js, split where it waits for the server.
-- Timestamps and the navigation to the messages are left out.
use Prim.Native.String
use sql_server_lab.Prelude.{
  ℕ, zero, suc, ◌/◌, ◌%◌, String, Bool, true, false, not, ◌&&◌, List, [], ◌∷◌, ◌++◌, Option, none,
  some, str_eq, if◌then◌else◌, ltb, ◌==◌,
}
use sql_server_lab.Js.{Value, get, is_string, is_str, text_of, codes}
use sql_server_lab.Js.Patterns.{hex}
use sql_server_lab.Js.Maps.{Map, lookup, has, insert, remove}
use sql_server_lab.Jobs.Command.{Reply, ok, error, Outcome, accepted, refused}
use sql_server_lab.Jobs.Board.{Job, Board, render_jobs}
use sql_server_lab.Jobs.Board.Polling.{text}

digit : ℕ → String → String
digit n String.[] = ""
digit zero (String.◌∷◌ c s) = String.◌∷◌ c String.[]
digit (suc n) (String.◌∷◌ c s) = digit n s

-- The decimal text of a number; a number has fewer digits than its value plus one.
decimal_from : ℕ → ℕ → String
decimal_from zero n = ""
decimal_from (suc f) n = elim (ltb n 10) [
  | true ↦ digit n "0123456789"
  | false ↦ String.◌++◌ (decimal_from f (n / 10)) (digit (n % 10) "0123456789")
]

decimal : ℕ → String
decimal n = decimal_from (suc n) n

pub pending_id : ℕ → String
pending_id n = String.◌++◌ "pending-" (decimal n)

unfoldable pub update : (ℕ → Job) → ℕ → Job → ℕ → Job
update store n job m = if n == m then job else store m

unfoldable pub submitting : ℕ → String → Job
submitting n action = record {
  id = pending_id n;
  action = action;
  state = "Submitting";
  source = "";
  lines =
      text (String.◌++◌ (String.◌++◌ "[ANFORDERUNG] " action) " wurde im Browser ausgelöst.")
      ∷ text "[WARTEN] Auftrag wird an den lokalen Workflow-Server übergeben."
      ∷ [];
  receipt_id = none;
}

-- submitUiAction up to the request, for the key of the action's identity; `none` is the refusal of
-- an action that is already submitted.
unfoldable pub begin_submission : String → String → Board → Option (ℕ × Board)
begin_submission key action b =
    let n = suc b.sequence in
    let job = submitting n action in
    if has key b.submissions
    then none
    else some (
      n,
      render_jobs [] (record b {
        sequence = n;
        store = update b.store n job;
        submissions = insert key n b.submissions;
        line_cache = insert job.id job.lines b.line_cache;
        optimistic = b.optimistic ++ n ∷ [];
      }),
    )

abbrev pub is_command : String → Bool
is_command endpoint = str_eq endpoint "/api/commands"

-- The lines that the page keeps for a job move to the id that the server gave it.
abbrev pub moved : String → String → Map (List Value) → Option (List Value) → Map (List Value)
moved previous next cache none = cache
moved previous next cache (some lines) = remove previous (insert next lines cache)

unfoldable pub move_lines : String → String → Map (List Value) → Map (List Value)
move_lines previous next cache =
    if str_eq previous next then cache else moved previous next cache (lookup previous cache)

unfoldable pub accept_job : String → Value → Job → Job
accept_job endpoint v job = record job {
  id = text_of (get v "id");
  state = "Accepted";
  lines =
      job.lines
      ++ text "[AKZEPTIERT] Auftrag angenommen; Ausführungsstart noch nicht bestätigt."
        ∷ (if is_str (get v "hostStart") "Failed"
            then text "[HOSTSTART] OPERATION_HOST_START_FAILED · Keine automatische Wiederholung."
              ∷ []
            else []);
  receipt_id = if is_command endpoint then some (text_of (get v "receiptId")) else job.receipt_id;
}

abbrev pub is_receipt : Option String → Bool
is_receipt none = false
is_receipt (some r) = hex 32 (codes r)

abbrev pub receipt_line : Option String → List Value
receipt_line none = []
receipt_line (some r) = text (String.◌++◌ "[ANNAHMEREFERENZ] " r) ∷ []

-- The `catch` of submitUiAction: only a refusal for want of grants is certain.
unfoldable pub fail_job : String → String → Option String → Job → Job
fail_job endpoint message receipt job =
    let certain = record job {
      state = "Rejected";
      lines =
          text
            "[STATUS] Commandfreigaben dieser Sitzung sind ausgeschöpft. Laufende Aufträge und Recoverystatus prüfen."
          ∷ [];
    } in
    let shown = is_command endpoint && is_receipt receipt in
    let uncertain = record job {
      state = "Unknown";
      lines =
          text
            "[STATUS] Übermittlung oder Annahme unbestätigt; Status prüfen, keine automatische Wiederholung."
          ∷ (if shown then receipt_line receipt else []);
      receipt_id = if shown then receipt else job.receipt_id;
    } in
    if str_eq message "UI_COMMAND_GRANT_CAPACITY" then certain else uncertain

-- `typeof accepted.id === 'string' && accepted.id`.
abbrev pub has_id : Value → Bool
has_id v = is_string (get v "id") && not (is_str (get v "id") "")

-- The rest of submitUiAction for the submission with a number.
unfoldable pub end_submission : ℕ → String → Outcome → Board → Board
end_submission n endpoint (refused message receipt) b =
    render_jobs []
      (record b { store = update b.store n (fail_job endpoint message receipt (b.store n)) })
end_submission n endpoint (accepted v) b =
    let failed = record b {
      store = update b.store n (fail_job endpoint "SUBMISSION_UNCONFIRMED" none (b.store n));
    } in
    let job = accept_job endpoint v (b.store n) in
    let taken = record b {
      store = update b.store n job;
      line_cache = move_lines (b.store n).id job.id b.line_cache;
    } in
    render_jobs [] (if has_id v then taken else failed)

-- `/api/actions` is posted without a grant.
pub outcome_of : Reply → Outcome
outcome_of (ok v) = accepted v
outcome_of (error message) = refused message none
