-- ===== src/Jobs/Board/Remembered.antt =====
-- A submission is remembered until the server reports the end of its job (Ui/app.js, renderJobs,
-- refreshJobs, submitUiAction): the page refuses to send the same action again.
use sql_server_lab.Prelude.{
  ℕ, String, Bool, true, false, not, List, [], ◌∷◌, Option, none, some, ◌≡◌, refl, sym, ◌∙◌,
  if◌then◌else◌, Bool-cases, inl, inr, ◌⊎◌, ap,
}
use sql_server_lab.Js.{Value}
use sql_server_lab.Js.Maps.{Map, lookup, IsMap, lookup-keep, keep-IsMap}
use sql_server_lab.Jobs.Board.{
  Job, Board, state_at, settled, is_settled, observe_all, open_submissions, render_jobs,
  is_replaced, give_lines_up, merge_job, merge_all,
}
use sql_server_lab.Jobs.Board.Polling.{}
use sql_server_lab.Jobs.Board.Observed.{
  state_at-observe_all, IsTable, insert-IsTable, observe_all-IsTable,
}
use sql_server_lab.Jobs.Board.Rendered.{render_jobs-state_at}

give_lines_up-IsTable :
    (replaced : Bool) (job : Job) (m : Map Job) → IsTable m → IsTable (give_lines_up replaced job m)
unfolding give_lines_up
give_lines_up-IsTable true job m t = t
give_lines_up-IsTable false job m t = insert-IsTable (record job { lines = [] }) m t

merge_all-IsTable :
    (limit : Option ℕ) (own known : List String) (jobs : List Job) (c : Map (List Value))
    (m : Map Job)
    → IsTable m
    → IsTable (merge_all limit own known jobs (c, m)).1
unfolding merge_all merge_job
merge_all-IsTable limit own known [] c m t = t
merge_all-IsTable limit own known (job ∷ jobs) c m t =
    merge_all-IsTable limit own known jobs _ (give_lines_up (is_replaced own known job) job m)
      (give_lines_up-IsTable (is_replaced own known job) job m t)

-- What holds between two events.
pub record IsSound (b : Board) : Type 0 where
  pub unique : IsMap b.submissions
  pub keyed : IsTable b.observed

pub render_jobs-IsSound :
    (server : List Job) (b : Board) → IsSound b → IsSound (render_jobs server b)
unfolding render_jobs open_submissions
render_jobs-IsSound server b s = record {
  unique = keep-IsMap _ b.submissions s.unique;
  keyed =
      merge_all-IsTable b.configured_limit _ _ _ b.line_cache _
        (observe_all-IsTable server b.observed s.keyed);
}

-- Whether the page has learnt that the job of the submission with a number has ended.
abbrev pub has_ended : ℕ → Board → Bool
has_ended n b = settled (state_at (b.store n).id b.observed)

settled-render_jobs :
    (id : String) (server : List Job) (b : Board)
    → IsTable b.observed
    → is_settled (observe_all server b.observed) id
      ≡ settled (state_at id (render_jobs server b).observed)
unfolding is_settled
settled-render_jobs id server b t =
    ap settled
      (state_at-observe_all id server b.observed ∙ sym (render_jobs-state_at id server b t))

opposite : (t : Bool) (n : ℕ) → (if not t then some n else none) ≡ (if t then none else some n)
opposite true n = refl
opposite false n = refl

-- A rendering forgets a submission exactly if its job has ended.
pub render_jobs-lookup :
    (key : String) (n : ℕ) (server : List Job) (b : Board)
    → IsSound b
    → lookup key b.submissions ≡ some n
    → lookup key (render_jobs server b).submissions
      ≡ (if has_ended n (render_jobs server b) then none else some n)
unfolding render_jobs open_submissions
render_jobs-lookup key n server b s h =
    lookup-keep _ key n b.submissions s.unique h
    ∙ opposite (is_settled (observe_all server b.observed) (b.store n).id) n
    ∙ ap (λ t. if t then none else some n) (settled-render_jobs (b.store n).id server b s.keyed)

-- The submission with a key is still remembered, or its job has ended.
abbrev pub Kept : String → ℕ → Board → Type 0
Kept key n b = (lookup key b.submissions ≡ some n) ⊎ (has_ended n b ≡ true)

pub render_jobs-Kept :
    (key : String) (n : ℕ) (server : List Job) (b : Board)
    → IsSound b
    → lookup key b.submissions ≡ some n
    → Kept key n (render_jobs server b)
render_jobs-Kept key n server b s h = elim (Bool-cases (has_ended n (render_jobs server b))) [
  | inl e ↦ inr e
  | inr e ↦ inl (render_jobs-lookup key n server b s h ∙ rw e refl)
]
