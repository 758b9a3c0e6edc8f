-- ===== src/Jobs/Board/Polls.antt =====
-- What a poll does to the states in `observedJobs` (Ui/app.js, refreshJobs).
use sql_server_lab.Prelude.{
  String, true, List, [], ◌∷◌, map, Option, none, some, str_eq, eq_iff, ◌≡◌, refl, ◌∙◌, arith,
  if◌then◌else◌, includes, Bool-cases, inl, inr, ap,
}
use sql_server_lab.Js.{array_of}
use sql_server_lab.Js.Maps.{Map}
use sql_server_lab.Jobs.Command.{Reply, ok, error}
use sql_server_lab.Jobs.Board.{Job, Board, is_terminal, state_at}
use sql_server_lab.Jobs.Board.Polling.{
  job_of, lose, lose_absent, lose_observed, is_job_list, poll_answered, poll_lost, poll_reply,
  end_poll,
}
use sql_server_lab.Jobs.Board.Observed.{reported, IsTable}
use sql_server_lab.Jobs.Board.Rendered.{render_jobs-state_at}

-- The state of a job of which a poll says nothing: an ended job stays ended.
abbrev pub aged : String → Option String → Option String
aged lost none = none
aged lost (some state) = some (if is_terminal state then state else lost)

-- A change of every job that depends on its id and its state.
abbrev changed : (String → String) → Option String → Option String
changed g none = none
changed g (some state) = some (g state)

state_at-lose_observed :
    (f : String → Job → Job) (g : String → String → String) (id : String) (m : Map Job)
    → ((k : String) (j : Job) → (f k j).state ≡ g k j.state)
    → state_at id (lose_observed f m) ≡ changed (g id) (state_at id m)
unfolding state_at lose_observed
state_at-lose_observed f g id [] h = refl
state_at-lose_observed f g id ((k, job) ∷ m) h = elim (Bool-cases (str_eq k id)) [
  | inl e ↦ rw e (ap some (h k job ∙ ap (λ t. g t job.state) ((eq_iff k id).0 e)))
  | inr e ↦ rw e (state_at-lose_observed f g id m h)
]

lose_observed-IsTable :
    (f : String → Job → Job) (g : String → String → String) (m : Map Job)
    → ((k : String) (j : Job) → (f k j).state ≡ g k j.state)
    → ((k : String) (j : Job) → (f k j).id ≡ j.id)
    → IsTable m
    → IsTable (lose_observed f m)
unfolding lose_observed
lose_observed-IsTable f g [] h i t = tt
lose_observed-IsTable f g ((k, job) ∷ m) h i (e, u, t) = (
  i k job ∙ e,
  state_at-lose_observed f g k m h ∙ ap (changed (g k)) u,
  lose_observed-IsTable f g m h i t,
)

abbrev ageing : String → String → String
ageing lost state = if is_terminal state then state else lost

lose-state : (lost note : String) (j : Job) → (lose lost note j).state ≡ ageing lost j.state
unfolding lose
lose-state lost note j = ground arith

lose-id : (lost note : String) (j : Job) → (lose lost note j).id ≡ j.id
unfolding lose
lose-id lost note j = ground arith

abbrev ageing_absent : List String → String → String → String
ageing_absent present id state = if includes present id then state else ageing "Unknown" state

lose_absent-state :
    (present : List String) (k : String) (j : Job)
    → (lose_absent present k j).state ≡ ageing_absent present k j.state
unfolding lose_absent
lose_absent-state present k j = elim (Bool-cases (includes present k)) [
  | inl e ↦ rw e refl
  | inr e ↦ rw e (lose-state _ _ j)
]

lose_absent-id :
    (present : List String) (k : String) (j : Job) → (lose_absent present k j).id ≡ j.id
unfolding lose_absent
lose_absent-id present k j = elim (Bool-cases (includes present k)) [
  | inl e ↦ rw e refl
  | inr e ↦ rw e (lose-id _ _ j)
]

-- The change that a poll makes before it renders keeps the table.
pub lose-IsTable :
    (lost note : String) (m : Map Job) → IsTable m → IsTable (lose_observed (λ k. lose lost note) m)
lose-IsTable lost note m t =
    lose_observed-IsTable _ (λ k. ageing lost) m (λ k. lose-state _ _) (λ k. lose-id _ _) t

pub lose_absent-IsTable :
    (present : List String) (m : Map Job)
    → IsTable m
    → IsTable (lose_observed (lose_absent present) m)
lose_absent-IsTable present m t =
    lose_observed-IsTable _ (ageing_absent present) m (lose_absent-state present)
      (lose_absent-id present) t

changed-ageing : (lost : String) (s : Option String) → changed (ageing lost) s ≡ aged lost s
changed-ageing lost none = refl
changed-ageing lost (some s) = refl

poll_lost-state_at :
    (id : String) (b : Board)
    → IsTable b.observed
    → state_at id (poll_lost b).observed ≡ aged "ConnectionLost" (state_at id b.observed)
unfolding poll_lost reported
poll_lost-state_at id b t =
    render_jobs-state_at id [] _ (
      lose_observed-IsTable _ (λ k. ageing "ConnectionLost") b.observed (λ k. lose-state _ _)
        (λ k. lose-id _ _) t)
    ∙ state_at-lose_observed _ (λ k. ageing "ConnectionLost") id b.observed (λ k. lose-state _ _)
    ∙ changed-ageing "ConnectionLost" (state_at id b.observed)

-- Where the list names the id, what was recorded before does not matter.
reported_irrelevant :
    (id : String) (jobs : List Job) (x y : Option String)
    → includes (map (λ (j : Job). j.id) jobs) id ≡ true
    → reported id jobs x ≡ reported id jobs y
unfolding reported
reported_irrelevant id [] x y h = cc
reported_irrelevant id (job ∷ jobs) x y h = elim (Bool-cases (str_eq job.id id)) [
  | inl e ↦ rw e
  | inr e ↦ rw e (reported_irrelevant id jobs x y (rw e at h))
]

reported-absent :
    (id : String) (jobs : List Job) (s : Option String)
    → reported id jobs (changed (ageing_absent (map (λ (j : Job). j.id) jobs) id) s)
      ≡ reported id jobs (aged "Unknown" s)
reported-absent id jobs none = refl
reported-absent id jobs (some s) = elim (Bool-cases (includes (map (λ (j : Job). j.id) jobs) id)) [
  | inl e ↦ reported_irrelevant id jobs _ _ e
  | inr e ↦ rw e refl
]

poll_answered-state_at :
    (id : String) (jobs : List Job) (b : Board)
    → IsTable b.observed
    → state_at id (poll_answered jobs b).observed
      ≡ reported id jobs (aged "Unknown" (state_at id b.observed))
unfolding poll_answered
poll_answered-state_at id jobs b t =
    let present = map (λ (j : Job). j.id) jobs in
    render_jobs-state_at id jobs _ (
      lose_observed-IsTable _ (ageing_absent present) b.observed (lose_absent-state present)
        (lose_absent-id present) t)
    ∙ ap (reported id jobs)
        (state_at-lose_observed _ (ageing_absent present) id b.observed (lose_absent-state present))
    ∙ reported-absent id jobs (state_at id b.observed)

-- The state that `observedJobs` holds for an id after a poll, from the one before.
abbrev pub recorded_after : Reply → String → Option String → Option String
recorded_after (error message) id before = aged "ConnectionLost" before
recorded_after (ok v) id before =
    if is_job_list v
    then reported id (map job_of (array_of v)) (aged "Unknown" before)
    else aged "ConnectionLost" before

-- After a poll that is answered by a list of jobs, `observedJobs` holds for an id the state that the
-- list reports (the last one counts); where the list does not name the id, an ended job stays as it
-- was and any other is `Unknown`. After a poll that fails, or is answered by anything else, an ended
-- job stays as it was and any other is `ConnectionLost`. The keys of the table before the poll are
-- the ids of its jobs. The page's own jobs, which it shows beside these, are not in this table.
pub end_poll-state_at :
    (id : String) (reply : Reply) (b : Board)
    → IsTable b.observed
    → state_at id (end_poll reply b).observed ≡ recorded_after reply id (state_at id b.observed)
unfolding end_poll poll_reply
end_poll-state_at id (error message) b t = poll_lost-state_at id b t
end_poll-state_at id (ok v) b t = elim (Bool-cases (is_job_list v)) [
  | inl e ↦ rw e (poll_answered-state_at id (map job_of (array_of v)) b t)
  | inr e ↦ rw e (poll_lost-state_at id b t)
]
