-- ===== src/Jobs/Board/Polling.antt =====
-- The poll of the jobs: refreshJobs of Ui/app.js, split where it waits for the server.
use sql_server_lab.Prelude.{
  ℕ, String, Bool, true, false, ◌&&◌, ◌||◌, List, [], ◌∷◌, map, Option, none, some, str_eq,
  if◌then◌else◌, includes, ◌==◌, all,
}
use sql_server_lab.Js.{Value, str, get, is_string, is_array, array_of, text_of}
use sql_server_lab.Js.Maps.{Map}
use sql_server_lab.Jobs.Command.{Reply, ok, error}
use sql_server_lab.Jobs.Board.{Job, Board, is_terminal, render_jobs}

abbrev pub text : String → Value
text s = str s

-- One element of the answer of `/api/jobs`.
unfoldable pub is_job : Value → Bool
is_job v = is_string (get v "Id") && is_string (get v "State") && is_string (get v "Action")

unfoldable pub job_of : Value → Job
job_of v = record {
  id = text_of (get v "Id");
  action = text_of (get v "Action");
  state = text_of (get v "State");
  source = text_of (get v "Source");
  lines = array_of (get v "Lines");
  receipt_id = none;
}

-- A job that has not ended, and of which nothing is known any more, for a reason.
unfoldable pub lose : String → String → Job → Job
lose state note job =
    if is_terminal job.state then job else record job { state = state; lines = text note ∷ [] }

unfoldable pub lose_absent : List String → String → Job → Job
lose_absent present id job =
    if includes present id then job else lose "Unknown" "[STATUS] STATUS_SOURCE_MISSING" job

unfoldable pub lose_observed : (String → Job → Job) → Map Job → Map Job
lose_observed f [] = []
lose_observed f ((id, job) ∷ m) = (id, f id job) ∷ lose_observed f m

-- The same for the page's own jobs, unless they are being submitted.
unfoldable pub lose_own : String → String → Job → Job
lose_own state note job =
    if str_eq job.state "Submitting"
    then job
    else record job { state = state; lines = text note ∷ [] }

unfoldable pub contains : List ℕ → ℕ → Bool
contains [] n = false
contains (m ∷ ms) n = m == n || contains ms n

-- A change of the objects of the optimistic jobs.
unfoldable pub change_own : (Job → Job) → Board → ℕ → Job
change_own f b n = if contains b.optimistic n then f (b.store n) else b.store n

-- The beginning of refreshJobs: nothing happens while a poll is under way.
unfoldable pub begin_poll : Board → Option Board
begin_poll b = if b.polling then none else some (record b { polling = true })

abbrev pub is_job_list : Value → Bool
is_job_list v = is_array v && all is_job (array_of v)

unfoldable pub poll_answered : List Job → Board → Board
poll_answered jobs b =
    let present = map (λ (j : Job). j.id) jobs in
    render_jobs jobs (record b {
      observed = lose_observed (lose_absent present) b.observed;
      store =
          change_own
            (λ j.
              if includes present j.id
              then j
              else lose_own "Unknown"
                  "[STATUS] STATUS_SOURCE_MISSING · Annahme oder Ergebnis unbestätigt." j)
            b;
    })

unfoldable pub poll_lost : Board → Board
poll_lost b = render_jobs [] (record b {
  observed =
      lose_observed
        (λ id. lose "ConnectionLost" "[STATUS] Verbindung verloren; aktueller Status unbekannt.")
        b.observed;
  store =
      change_own
        (lose_own "ConnectionLost"
          "[STATUS] Verbindung verloren; Annahme oder Ergebnis unbestätigt.")
        b;
})

unfoldable pub poll_reply : Reply → Board → Board
poll_reply (ok v) b =
    if is_job_list v then poll_answered (map job_of (array_of v)) b else poll_lost b
poll_reply (error message) b = poll_lost b

-- The rest of refreshJobs.
unfoldable pub end_poll : Reply → Board → Board
end_poll reply b = record (poll_reply reply b) { polling = false }
