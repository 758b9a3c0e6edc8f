-- ===== src/Jobs/Board/Trace.antt =====
-- Over any sequence of polls, submissions and answers (Ui/app.js, refreshJobs and submitUiAction):
-- a submitted action is refused until the page has learnt that its job has ended.
use sql_server_lab.Prelude.{
  ℕ, String, Bool, true, false, List, [], ◌∷◌, map, none, some, str_eq, eq_iff, ◌≡◌, ◌∙◌,
  Bool-cases, inl, inr, ◌⊎◌,
}
use sql_server_lab.Js.{array_of}
use sql_server_lab.Js.Maps.{lookup, has, insert, insert-IsMap, has_of_lookup, lookup-insert}
use sql_server_lab.Jobs.Command.{Reply, ok, error, Outcome, accepted, refused}
use sql_server_lab.Jobs.Board.{Job, Board, render_jobs}
use sql_server_lab.Jobs.Board.Polling.{
  is_job_list, poll_answered, poll_lost, poll_reply, end_poll, job_of,
}
use sql_server_lab.Jobs.Board.Submitting.{begin_submission, end_submission, has_id}
use sql_server_lab.Jobs.Board.Events.{Event, poll, submit, answer, or_same, handle, run}
use sql_server_lab.Jobs.Board.Polls.{lose-IsTable, lose_absent-IsTable}
use sql_server_lab.Jobs.Board.Remembered.{
  IsSound, has_ended, Kept, render_jobs-IsSound, render_jobs-Kept,
}

-- An event keeps the invariant, and a submission that was remembered.
abbrev Keeps : String → ℕ → Board → Board → Type 0
Keeps key n b b' = IsSound b' × (lookup key b.submissions ≡ some n → Kept key n b')

-- So does any rendering of a sound table whose submissions still hold the entry.
render_jobs-Keeps :
    (key : String) (n : ℕ) (server : List Job) (b b' : Board)
    → IsSound b'
    → (lookup key b.submissions ≡ some n → lookup key b'.submissions ≡ some n)
    → Keeps key n b (render_jobs server b')
render_jobs-Keeps key n server b b' t f =
    (render_jobs-IsSound server b' t, λ h. render_jobs-Kept key n server b' t (f h))

module _ (key : String) (n : ℕ) (b : Board) (s : IsSound b) where
  poll_lost-Keeps : Keeps key n b (poll_lost b)
  unfolding poll_lost
  poll_lost-Keeps =
      render_jobs-Keeps key n [] b _
        (record { unique = s.unique; keyed = lose-IsTable _ _ b.observed s.keyed }) (λ h. h)

  poll_answered-Keeps : (jobs : List Job) → Keeps key n b (poll_answered jobs b)
  unfolding poll_answered
  poll_answered-Keeps jobs =
      render_jobs-Keeps key n jobs b _
        (record { unique = s.unique; keyed = lose_absent-IsTable _ b.observed s.keyed }) (λ h. h)

  poll_reply-Keeps : (reply : Reply) → Keeps key n b (poll_reply reply b)
  unfolding poll_reply
  poll_reply-Keeps (error message) = poll_lost-Keeps
  poll_reply-Keeps (ok v) = elim (Bool-cases (is_job_list v)) [
    | inl e ↦ rw e (poll_answered-Keeps (map job_of (array_of v)))
    | inr e ↦ rw e poll_lost-Keeps
  ]

  end_poll-Keeps : (reply : Reply) → Keeps key n b (end_poll reply b)
  unfolding end_poll
  end_poll-Keeps reply =
      let k = poll_reply-Keeps reply in (record { unique = k.0.unique; keyed = k.0.keyed }, k.1)

  other_key :
      (key' : String) (m : ℕ)
      → has key' b.submissions ≡ false
      → lookup key b.submissions ≡ some n
      → lookup key (insert key' m b.submissions) ≡ some n
  other_key key' m fresh h = elim (Bool-cases (str_eq key' key)) [
    | inl e ↦
        absurd (clash (has_of_lookup key n b.submissions h) (rw ((eq_iff key' key).0 e) at fresh))
    | inr e ↦ lookup-insert key' key m b.submissions ∙ rw e h
  ]
    where
      clash : {t : Bool} → t ≡ true → t ≡ false → ⊥
      clash p q = cc

  submit-Keeps : (key' action : String) → Keeps key n b (or_same b (begin_submission key' action b))
  unfolding begin_submission
  submit-Keeps key' action = elim (Bool-cases (has key' b.submissions)) [
    | inl e ↦ rw e (s, λ h. inl h)
    | inr e ↦ rw e (
        render_jobs-Keeps key n [] b _
          (record { unique = insert-IsMap key' _ b.submissions s.unique; keyed = s.keyed })
          (other_key key' _ e))
  ]

  end_submission-Keeps :
      (m : ℕ) (endpoint : String) (o : Outcome) → Keeps key n b (end_submission m endpoint o b)
  unfolding end_submission
  end_submission-Keeps m endpoint (refused message receipt) =
      render_jobs-Keeps key n [] b _ (record { unique = s.unique; keyed = s.keyed }) (λ h. h)
  end_submission-Keeps m endpoint (accepted v) = elim (Bool-cases (has_id v)) [
    | inl e ↦
        rw e
          (render_jobs-Keeps key n [] b _ (record { unique = s.unique; keyed = s.keyed }) (λ h. h))
    | inr e ↦
        rw e
          (render_jobs-Keeps key n [] b _ (record { unique = s.unique; keyed = s.keyed }) (λ h. h))
  ]

  handle-Keeps : (e : Event) → Keeps key n b (handle e b)
  unfolding handle
  handle-Keeps (poll reply) = end_poll-Keeps reply
  handle-Keeps (submit key' action) = submit-Keeps key' action
  handle-Keeps (answer m endpoint o) = end_submission-Keeps m endpoint o

-- After some event of the sequence the page has learnt that the job of the submission has ended.
abbrev pub EndsDuring : ℕ → List Event → Board → Type 0
EndsDuring n [] b = ⊥
EndsDuring n (e ∷ es) b = (has_ended n (handle e b) ≡ true) ⊎ EndsDuring n es (handle e b)

later {ℓ} : {A B C : Type ℓ} → A ⊎ B → A ⊎ (C ⊎ B)
later (inl a) = inl a
later (inr c) = inr (inr c)

remembered-run :
    (key : String) (n : ℕ) (es : List Event) (b : Board)
    → IsSound b
    → lookup key b.submissions ≡ some n
    → (lookup key (run es b).submissions ≡ some n) ⊎ EndsDuring n es b
unfolding run
remembered-run key n [] b s h = inl h
remembered-run key n (e ∷ es) b s h =
    let k : Keeps key n b (handle e b) = handle-Keeps key n b s e in
    elim (k.1 h) [
      | inr ended ↦ inr (inl ended)
      | inl kept ↦ later (remembered-run key n es (handle e b) k.0 kept)
    ]

begin_refused :
    (key action : String) (n : ℕ) (b : Board)
    → lookup key b.submissions ≡ some n
    → begin_submission key action b ≡ none
unfolding begin_submission
begin_refused key action n b h = rw (has_of_lookup key n b.submissions h)

-- However polls, submissions and answers follow one another, an action whose key is remembered is
-- refused when it is submitted again, unless after one of these events the page had learnt from
-- the server that the job of the remembered submission has ended.
pub resubmission_refused :
    (key action : String) (n : ℕ) (es : List Event) (b : Board)
    → IsSound b
    → lookup key b.submissions ≡ some n
    → (begin_submission key action (run es b) ≡ none) ⊎ EndsDuring n es b
resubmission_refused key action n es b s h = elim (remembered-run key n es b s h) [
  | inl kept ↦ inl (begin_refused key action n (run es b) kept)
  | inr ended ↦ inr ended
]
