-- ===== src/Jobs/Board/Observed.antt =====
-- The states in `observedJobs` come from the server: what observing and merging do to `state_at`.
use sql_server_lab.Prelude.{
  ℕ, String, Bool, true, false, List, [], ◌∷◌, Option, none, some, str_eq, eq_iff, eq_refl, ◌≡◌,
  refl, sym, ◌∙◌, arith, if◌then◌else◌, All, Bool-cases, inl, inr, ◌⊎◌, ap, All-weaken,
}
use sql_server_lab.Js.{Value}
use sql_server_lab.Js.Maps.{Map, insert, values}
use sql_server_lab.Jobs.Board.{
  Job, state_at, observe_all, is_replaced, give_lines_up, merge_job, merge_all,
}

pub state_at-insert :
    (k j : String) (job : Job) (m : Map Job)
    → state_at j (insert k job m) ≡ (if str_eq k j then some job.state else state_at j m)
unfolding state_at insert
state_at-insert k j job [] = refl
state_at-insert k j job ((i, w) ∷ m) =
    ground (arith, eq_iff k j, eq_iff i k, eq_iff i j, state_at-insert k j job m)

-- The state that a list of jobs reports for an id, the last one of the list counting, and otherwise
-- the given state.
unfoldable pub reported : String → List Job → Option String → Option String
reported id [] before = before
reported id (job ∷ jobs) before =
    reported id jobs (if str_eq job.id id then some job.state else before)

pub state_at-observe_all :
    (id : String) (jobs : List Job) (m : Map Job)
    → state_at id (observe_all jobs m) ≡ reported id jobs (state_at id m)
unfolding observe_all reported
state_at-observe_all id [] m = refl
state_at-observe_all id (job ∷ jobs) m =
    state_at-observe_all id jobs (insert job.id job m) ∙ (rw (state_at-insert job.id id job m))

-- Merging the lines of a job changes no state, if the job is not written back or the table has its
-- state already.
abbrev pub Agrees : List String → List String → Map Job → Job → Type 0
Agrees optimistic_ids known m job =
    is_replaced optimistic_ids known job ≡ false → state_at job.id m ≡ some job.state

give_lines_up-state_at :
    (id : String) (replaced : Bool) (job : Job) (m : Map Job)
    → (replaced ≡ false → state_at job.id m ≡ some job.state)
    → state_at id (give_lines_up replaced job m) ≡ state_at id m
unfolding give_lines_up
give_lines_up-state_at id true job m h = refl
give_lines_up-state_at id false job m h =
    state_at-insert job.id id (record job { lines = [] }) m
    ∙ same_state (Bool-cases (str_eq job.id id))
  where
    same_state :
        ((str_eq job.id id ≡ true) ⊎ (str_eq job.id id ≡ false))
        → (if str_eq job.id id then some job.state else state_at id m) ≡ state_at id m
    same_state (inl e) = rw e (sym (h refl) ∙ ap (λ t. state_at t m) ((eq_iff job.id id).0 e))
    same_state (inr e) = rw e

merge_job-state_at :
    (id : String) (limit : Option ℕ) (own known : List String) (c : Map (List Value)) (m : Map Job)
    (job : Job)
    → Agrees own known m job
    → state_at id (merge_job limit own known (c, m) job).1 ≡ state_at id m
unfolding merge_job
merge_job-state_at id limit own known c m job h =
    give_lines_up-state_at id (is_replaced own known job) job m h

Agrees-All :
    (own known : List String) (m n : Map Job) (jobs : List Job)
    → ((id : String) → state_at id n ≡ state_at id m)
    → All (Agrees own known m) jobs
    → All (Agrees own known n) jobs
Agrees-All own known m n [] h a = tt
Agrees-All own known m n (job ∷ jobs) h (a, r) =
    ((λ e. h job.id ∙ a e), Agrees-All own known m n jobs h r)

pub merge_all-state_at :
    (id : String) (limit : Option ℕ) (own known : List String) (jobs : List Job)
    (c : Map (List Value)) (m : Map Job)
    → All (Agrees own known m) jobs
    → state_at id (merge_all limit own known jobs (c, m)).1 ≡ state_at id m
unfolding merge_all
merge_all-state_at id limit own known [] c m a = refl
merge_all-state_at id limit own known (job ∷ jobs) c m (a, r) =
    let next = merge_job limit own known (c, m) job in
    merge_all-state_at id limit own known jobs next.0 next.1
      (Agrees-All own known m next.1 jobs (λ j. merge_job-state_at j limit own known c m job a) r)
    ∙ merge_job-state_at id limit own known c m job a

-- A table holds each job under the job's own id, and each id once.
abbrev pub IsTable : Map Job → Type 0
IsTable [] = Unit
IsTable ((k, job) ∷ m) = (job.id ≡ k) × (state_at k m ≡ none) × IsTable m

pub insert-IsTable : (job : Job) (m : Map Job) → IsTable m → IsTable (insert job.id job m)
unfolding insert state_at
insert-IsTable job [] t = (refl, refl, tt)
insert-IsTable job ((k, w) ∷ m) (e, u, t) = elim (Bool-cases (str_eq k job.id)) [
  | inl same ↦ rw same (sym ((eq_iff k job.id).0 same), u, t)
  | inr other ↦ rw other (
    e,
    state_at-insert job.id k job m ∙ ground (arith, u, eq_iff k job.id, eq_iff job.id k),
    insert-IsTable job m t,
  )
]

pub observe_all-IsTable : (jobs : List Job) (m : Map Job) → IsTable m → IsTable (observe_all jobs m)
unfolding observe_all
observe_all-IsTable [] m t = t
observe_all-IsTable (job ∷ jobs) m t =
    observe_all-IsTable jobs (insert job.id job m) (insert-IsTable job m t)

state_at_other :
    (k : String) (job w : Job) (m : Map Job)
    → state_at k m ≡ none
    → state_at w.id m ≡ some w.state
    → state_at w.id ((k, job) ∷ m) ≡ some w.state
unfolding state_at
state_at_other k job w m u h = ground (arith, u, h, eq_iff k w.id)

state_at_self :
    (k : String) (job : Job) (m : Map Job)
    → job.id ≡ k
    → state_at job.id ((k, job) ∷ m) ≡ some job.state
unfolding state_at
state_at_self k job m e = rw (e, eq_refl k)

pub values-state_at :
    (m : Map Job) → IsTable m → All (λ (j : Job). state_at j.id m ≡ some j.state) (values m)
values-state_at [] t = tt
values-state_at ((k, job) ∷ m) (e, u, t) = (
  state_at_self k job m e,
  All-weaken (values m) (λ w h. state_at_other k job w m u h) (values-state_at m t),
)
