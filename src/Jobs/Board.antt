-- ===== src/Jobs/Board.antt =====
-- The page's table of jobs: the global variables of Ui/app.js (lines 2 to 9) and renderJobs.
--
-- A submission's job object is shared: the list of optimistic jobs and the map of submissions hold
-- the same object, whose fields change when the server answers. The model keeps such objects in a
-- store and holds their numbers. The HTML that renderJobs writes is left out.
pub mod Polling
pub mod Submitting
pub mod Events
pub mod Observed
pub mod Rendered
pub mod Own
pub mod Polls
pub mod Remembered
pub mod Trace
use sql_server_lab.Prelude.{
  ℕ, zero, suc, ◌-◌, String, Bool, true, false, not, ◌&&◌, ◌||◌, List, [], ◌∷◌, ◌++◌, map, Option,
  none, some, str_eq, if◌then◌else◌, includes, keep, length, ◌==◌,
}
use sql_server_lab.Js.{Value}
use sql_server_lab.Js.Maps.{Map, lookup, insert, values}

pub record Job : Type 0 where
  pub id : String
  pub action : String
  pub state : String
  pub source : String
  pub lines : List Value
  pub receipt_id : Option String

pub record Board : Type 0 where
  -- the objects of the page's own submissions, by the number in `pending-<n>`
  pub store : ℕ → Job
  pub sequence : ℕ
  pub optimistic : List ℕ
  pub observed : Map Job
  pub submissions : Map ℕ
  pub line_cache : Map (List Value)
  pub active_count : ℕ
  pub polling : Bool
  -- `Number(uiConfig.jobLogBurstLimit)` rounded down, if it is finite; 0 for a negative number
  pub configured_limit : Option ℕ

abbrev pub terminal_states : List String
terminal_states = "Completed" ∷ "Failed" ∷ "Stopped" ∷ "Cancelled" ∷ []

pub is_terminal : String → Bool
is_terminal = includes terminal_states

-- `observedJobs.get(id)?.State`.
unfoldable pub state_at : String → Map Job → Option String
state_at id [] = none
state_at id ((k, job) ∷ m) = if str_eq k id then some job.state else state_at id m

-- `terminalJobStates.has(observedJobs.get(id)?.State)`.
abbrev pub settled : Option String → Bool
settled none = false
settled (some state) = is_terminal state

pub is_settled : Map Job → String → Bool
is_settled observed id = settled (state_at id observed)

-- `jobsByServer.forEach((job) => observedJobs.set(String(job.Id), job))`.
pub observe_all : List Job → Map Job → Map Job
observe_all [] observed = observed
observe_all (job ∷ jobs) observed = observe_all jobs (insert job.id job observed)

abbrev pub ids : List Job → List String
ids [] = []
ids (job ∷ jobs) = job.id ∷ ids jobs

pub burst_limit : Option ℕ → ℕ
burst_limit none = 300
burst_limit (some zero) = 1
burst_limit (some (suc n)) = suc n

pub drop : {A : Type 0} → ℕ → List A → List A
drop zero xs = xs
drop (suc n) [] = []
drop (suc n) (x ∷ xs) = drop n xs

-- `lines.slice(-limit)` for a positive limit.
pub take_last : {A : Type 0} → ℕ → List A → List A
take_last limit xs = drop (length xs - limit) xs

abbrev or_none : Option (List Value) → List Value
or_none none = []
or_none (some lines) = lines

-- `Array.isArray(jobLineCache[id]) ? jobLineCache[id] : []`.
abbrev lines_of : Map (List Value) → String → List Value
lines_of cache id = or_none (lookup id cache)

-- The part of the loop over the jobs that keeps state: the lines of a job are added to those kept
-- for it, except for a job that the server does not yet know and for a persistent batch, and the
-- observed job gives its lines up.
pub is_replaced : List String → List String → Job → Bool
is_replaced optimistic_ids known job =
    (includes optimistic_ids job.id && not (includes known job.id))
    || str_eq job.source "PersistentBatch"

pub merge_lines : Option ℕ → Bool → Map (List Value) → Job → List Value
merge_lines limit replaced cache job =
    take_last (burst_limit limit)
      (if replaced then job.lines else lines_of cache job.id ++ job.lines)

pub give_lines_up : Bool → Job → Map Job → Map Job
give_lines_up replaced job observed =
    if replaced then observed else insert job.id (record job { lines = [] }) observed

pub merge_job :
    Option ℕ
    → List String
    → List String
    → Map (List Value) × Map Job
    → Job
    → Map (List Value) × Map Job
merge_job limit optimistic_ids known (cache, observed) job =
    let replaced = is_replaced optimistic_ids known job in
    (
      insert job.id (merge_lines limit replaced cache job) cache,
      give_lines_up replaced job observed,
    )

pub merge_all :
    Option ℕ
    → List String
    → List String
    → List Job
    → Map (List Value) × Map Job
    → Map (List Value) × Map Job
merge_all limit optimistic_ids known [] state = state
merge_all limit optimistic_ids known (job ∷ jobs) state =
    merge_all limit optimistic_ids known jobs (merge_job limit optimistic_ids known state job)

pub count_active : List Job → ℕ
count_active [] = 0
count_active (job ∷ jobs) =
    let rest = count_active jobs in if is_terminal job.state then rest else suc rest

-- The entries of `actionSubmissions` that stay: those whose job has not ended.
pub open_submissions : (ℕ → Job) → Map Job → Map ℕ → Map ℕ
open_submissions store observed =
    keep (λ (e : String × ℕ). not (is_settled observed (store e.1).id))

-- The lines kept for jobs that are no longer there are dropped.
pub prune_cache : List Job → Map (List Value) → Map (List Value)
prune_cache jobs = keep (λ (e : String × List Value). includes (ids jobs) e.0)

-- renderJobs.
pub render_jobs : List Job → Board → Board
render_jobs server b =
    let observed = observe_all server b.observed in
    let known = ids server in
    let optimistic_ids = ids (map b.store b.optimistic) in
    let optimistic = keep (λ (n : ℕ). not (includes known (b.store n).id)) b.optimistic in
    let jobs = map b.store optimistic ++ values observed in
    let merged = merge_all b.configured_limit optimistic_ids known jobs (b.line_cache, observed) in
    record b {
      optimistic = optimistic;
      observed = merged.1;
      submissions = open_submissions b.store observed b.submissions;
      line_cache = prune_cache jobs merged.0;
      active_count = count_active jobs;
    }
