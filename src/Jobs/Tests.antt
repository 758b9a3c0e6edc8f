-- ===== src/Jobs/Tests.antt =====
-- The theorems about submissions and jobs at concrete inputs, and runs of the definitions.
use sql_server_lab.Prelude.{
  String, true, false, List, [], ◌∷◌, none, some, ◌≡◌, refl, ◌⊎◌, if◌then◌else◌, All,
}
use sql_server_lab.Js.{Value, bool, str, obj, end, field}
use sql_server_lab.Js.Maps.{lookup, map_keys}
use sql_server_lab.Js.Patterns.{hex}
use sql_server_lab.Jobs.Identity.{Descriptor, is_allowed, non_secret_submission_identity, to_lower}
use sql_server_lab.Jobs.Identity.Laws.{
  identity_ignores_sensitive, identity_targets_allowed, with_parameter,
}
use sql_server_lab.Jobs.Command.{
  Arrival, answered, timed_out, json, Call, ask_grant, send_command, cancel_grant, accepted, error,
  submit_ui_command_body, read_ui_job_response, is_grant, is_acceptance, judge,
}
use sql_server_lab.Jobs.Command.Laws.{
  Flow, submit-Flow, IsConfirmed, accepted-IsConfirmed, IsPublic, submit-IsPublic,
}
use sql_server_lab.Jobs.Board.{Job, Board, state_at, render_jobs}
use sql_server_lab.Jobs.Board.Observed.{IsTable}
use sql_server_lab.Jobs.Board.Own.{names, lost_state, Treats, end_poll-Treats}
use sql_server_lab.Jobs.Board.Polling.{end_poll, contains}
use sql_server_lab.Jobs.Board.Submitting.{begin_submission}
use sql_server_lab.Jobs.Board.Events.{poll, submit, run}
use sql_server_lab.Jobs.Board.Polls.{end_poll-state_at, recorded_after}
use sql_server_lab.Jobs.Board.Remembered.{IsSound, has_ended, render_jobs-lookup}
use sql_server_lab.Jobs.Board.Trace.{EndsDuring, resubmission_refused}

abbrev receipt : String
receipt = "0123456789abcdef0123456789abcdef"

abbrev grant_text : String
grant_text = "0123456789abcdef0123456789abcdef0123456789abcdef0123456789abcdef"

abbrev grant : Value
grant = obj (field "grant" (str grant_text) (field "receiptId" (str receipt) end))

abbrev acceptance : Value
acceptance = obj (field "id" (str "job-1") (field "receiptId" (str receipt) end))

-- A server that grants and accepts, and one that does not answer the command.
abbrev kind_server : Call → Arrival
kind_server (ask_grant body) = answered true 200 (json grant)
kind_server (send_command g body) = answered true 200 (json acceptance)
kind_server (cancel_grant r) = timed_out

abbrev silent_server : Call → Arrival
silent_server (ask_grant body) = answered true 200 (json grant)
silent_server call = timed_out

code : Unit {0}
unfolding submit_ui_command_body read_ui_job_response is_grant is_acceptance hex judge
code = tt

submit_accepted : (submit_ui_command_body kind_server "{}").outcome ≡ accepted acceptance
unfolding code
submit_accepted = refl

submit-Flow_example : Flow "{}" (submit_ui_command_body silent_server "{}").calls
submit-Flow_example = submit-Flow silent_server "{}"

accepted-IsConfirmed_example : IsConfirmed kind_server "{}" acceptance
accepted-IsConfirmed_example = accepted-IsConfirmed kind_server "{}" acceptance submit_accepted

submit-IsPublic_example : IsPublic (submit_ui_command_body silent_server "{}").outcome
submit-IsPublic_example = submit-IsPublic silent_server "{}"

-- A command with a target and a password.
abbrev run_id : Descriptor
run_id = record {
  name = str "RunId";
  sensitive = bool false;
  is_credential = bool false;
  type_name = str "System.String";
}

abbrev password : Descriptor
password = record {
  name = str "Provider";
  sensitive = bool true;
  is_credential = bool false;
  type_name = str "System.String";
}

abbrev run_id_parameter : List (String × Value)
run_id_parameter = ("RunId", str "a1") ∷ []

identity_ignores_sensitive_example :
    non_secret_submission_identity "Command: X" "/api/commands"
      (with_parameter run_id_parameter "Provider" (str "secret") [] (str "Default"))
      (run_id ∷ password ∷ [])
    ≡ non_secret_submission_identity "Command: X" "/api/commands"
        (with_parameter run_id_parameter "Provider" (str "other") [] (str "Default"))
        (run_id ∷ password ∷ [])
unfolding to_lower
identity_ignores_sensitive_example =
    identity_ignores_sensitive "Command: X" (str "Default") (run_id ∷ password ∷ [])
      run_id_parameter [] "Provider" password (str "secret") (str "other") refl refl

identity_targets_allowed_example :
    All
      (λ j. is_allowed j ≡ true)
      (map_keys
        (non_secret_submission_identity "Command: X" "/api/commands"
          (with_parameter run_id_parameter "Provider" (str "secret") [] (str "Default"))
          (run_id ∷ password ∷ [])).targets)
identity_targets_allowed_example =
    identity_targets_allowed "Command: X" "/api/commands"
      (with_parameter run_id_parameter "Provider" (str "secret") [] (str "Default"))
      (run_id ∷ password ∷ [])

-- A page with one submission, whose job has the id `job-1`.
abbrev job_one : String → Job
job_one state = record {
  id = "job-1";
  action = "Start";
  state = state;
  source = "";
  lines = [];
  receipt_id = none;
}

abbrev board : Board
board = record {
  store = λ n. job_one "Accepted";
  sequence = 1;
  optimistic = 1 ∷ [];
  observed = [];
  submissions = ("key", 1) ∷ [];
  line_cache = [];
  active_count = 1;
  polling = false;
  configured_limit = some 300;
}

board-IsSound : IsSound board
unfolding lookup
board-IsSound = record { unique = (refl, tt); keyed = tt }

board_remembers : lookup "key" board.submissions ≡ some 1
unfolding lookup
board_remembers = refl

resubmission_refused_example :
    (begin_submission "key" "Start" (run (poll (error "x") ∷ submit "other" "Stop" ∷ []) board)
      ≡ none)
    ⊎ EndsDuring 1 (poll (error "x") ∷ submit "other" "Stop" ∷ []) board
resubmission_refused_example =
    resubmission_refused "key" "Start" 1 (poll (error "x") ∷ submit "other" "Stop" ∷ []) board
      board-IsSound board_remembers

render_jobs-lookup_example :
    lookup "key" (render_jobs (job_one "Completed" ∷ []) board).submissions
    ≡ (if has_ended 1 (render_jobs (job_one "Completed" ∷ []) board) then none else some 1)
render_jobs-lookup_example =
    render_jobs-lookup "key" 1 (job_one "Completed" ∷ []) board board-IsSound board_remembers

-- The page knows of a job that runs.
abbrev running : Board
running = record board { observed = ("job-1", job_one "Running") ∷ [] }

running-IsTable : IsTable running.observed
unfolding state_at
running-IsTable = (refl, refl, tt)

end_poll-state_at_example :
    state_at "job-1" (end_poll (error "x") running).observed
    ≡ recorded_after (error "x") "job-1" (state_at "job-1" running.observed)
end_poll-state_at_example = end_poll-state_at "job-1" (error "x") running running-IsTable

end_poll-Treats_example :
    Treats (names (error "x") "job-1") (lost_state (error "x")) board 1 (end_poll (error "x") board)
unfolding contains
end_poll-Treats_example = end_poll-Treats (error "x") board 1 refl
