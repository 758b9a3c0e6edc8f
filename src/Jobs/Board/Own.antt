-- ===== src/Jobs/Board/Own.antt =====
-- What a poll makes of the page's own jobs, whose submission is not confirmed yet: the objects that
-- refreshJobs changes and renderJobs drops (Ui/app.js).
use sql_server_lab.Prelude.{
  ℕ, String, Bool, true, false, not, ◌&&◌, List, [], ◌∷◌, map, str_eq, ◌≡◌, refl, ap, ◌∙◌,
  if◌then◌else◌, includes, keep, ◌==◌, ==_iff, Bool-cases, inl, inr, arith,
}
use sql_server_lab.Js.{array_of}
use sql_server_lab.Jobs.Command.{Reply, ok, error}
use sql_server_lab.Jobs.Board.{Job, Board, ids, render_jobs}
use sql_server_lab.Jobs.Board.Polling.{
  job_of, lose_own, contains, change_own, is_job_list, poll_answered, poll_lost, poll_reply,
  end_poll,
}

-- Whether the answer to a poll is a list of jobs that names an id.
abbrev pub names : Reply → String → Bool
names (ok v) id = is_job_list v && includes (ids (map job_of (array_of v))) id
names (error message) id = false

-- The state of a job of which a poll tells nothing.
abbrev pub lost_state : Reply → String
lost_state (ok v) = if is_job_list v then "Unknown" else "ConnectionLost"
lost_state (error message) = "ConnectionLost"

abbrev pub own_after : Bool → String → String → String
own_after named lost state =
    if named then state else if str_eq state "Submitting" then state else lost

contains-keep :
    (p : ℕ → Bool) (xs : List ℕ) (n : ℕ) → contains (keep p xs) n ≡ (contains xs n && p n)
unfolding contains
contains-keep p [] n = refl
contains-keep p (m ∷ ms) n = elim (Bool-cases (m == n)) [
  | inl e ↦ elim (Bool-cases (p n)) [
    | inl q ↦ let here : p m ≡ true = ap p ((==_iff m n).0 e) ∙ q in rw (here, e, q) refl
    | inr q ↦
        let here : p m ≡ false = ap p ((==_iff m n).0 e) ∙ q in
        let rest = contains-keep p ms n in rw (here, e, q) (ground (arith, rest, q))
  ]
  | inr e ↦ elim (Bool-cases (p m)) [
    | inl q ↦ rw (q, e) (contains-keep p ms n)
    | inr q ↦ rw (q, e) (contains-keep p ms n)
  ]
]

ids-eq-map : (jobs : List Job) → map (λ (j : Job). j.id) jobs ≡ ids jobs
ids-eq-map [] = refl
ids-eq-map (j ∷ jobs) = ap (λ (xs : List String). j.id ∷ xs) (ids-eq-map jobs)

lose_own-id : (lost note : String) (j : Job) → (lose_own lost note j).id ≡ j.id
unfolding lose_own
lose_own-id lost note j = ground arith

lose_own-state :
    (lost note : String) (j : Job) → (lose_own lost note j).state ≡ own_after false lost j.state
unfolding lose_own
lose_own-state lost note j = ground arith

-- What a poll does to the page's own job `n`, of which `named` is whether the answer names it.
abbrev pub Treats : Bool → String → Board → ℕ → Board → Type 0
Treats named lost b n b' =
    (contains b'.optimistic n ≡ not named)
    × ((b'.store n).state ≡ own_after named lost (b.store n).state)

change_own-own :
    (f : Job → Job) (b : Board) (n : ℕ)
    → contains b.optimistic n ≡ true
    → change_own f b n ≡ f (b.store n)
unfolding change_own
change_own-own f b n h = rw h refl

-- A rendering after a change of the page's own jobs.
changed-Treats :
    (jobs : List Job) (f : Job → Job) (lost : String) (b b' : Board) (n : ℕ)
    → contains b.optimistic n ≡ true
    → b'.optimistic ≡ b.optimistic
    → b'.store n ≡ change_own f b n
    → (f (b.store n)).id ≡ (b.store n).id
    → (f (b.store n)).state ≡ own_after (includes (ids jobs) (b.store n).id) lost (b.store n).state
    → Treats (includes (ids jobs) (b.store n).id) lost b n (render_jobs jobs b')
unfolding render_jobs
changed-Treats jobs f lost b b' n own o e i s =
    let stored : b'.store n ≡ f (b.store n) = e ∙ change_own-own f b n own in
    let named : (b'.store n).id ≡ (b.store n).id = ap (λ (j : Job). j.id) stored ∙ i in
    let dropped =
      contains-keep (λ (m : ℕ). not (includes (ids jobs) (b'.store m).id)) b'.optimistic n in
    let still : contains b'.optimistic n ≡ true = ap (λ (xs : List ℕ). contains xs n) o ∙ own in
    (
      dropped
          ∙ ap (λ (c : Bool). c && not (includes (ids jobs) (b'.store n).id)) still
          ∙ ap (λ (id : String). not (includes (ids jobs) id)) named,
      ap (λ (j : Job). j.state) stored ∙ s,
    )

poll_lost-Treats :
    (b : Board) (n : ℕ)
    → contains b.optimistic n ≡ true
    → Treats false "ConnectionLost" b n (poll_lost b)
unfolding poll_lost
poll_lost-Treats b n own =
    changed-Treats [] _ "ConnectionLost" b _ n own refl refl (lose_own-id _ _ (b.store n))
      (lose_own-state _ _ (b.store n))

poll_answered-Treats :
    (jobs : List Job) (b : Board) (n : ℕ)
    → contains b.optimistic n ≡ true
    → Treats (includes (ids jobs) (b.store n).id) "Unknown" b n (poll_answered jobs b)
unfolding poll_answered
poll_answered-Treats jobs b n own =
    let same : includes (map (λ (j : Job). j.id) jobs) (b.store n).id
        ≡ includes (ids jobs) (b.store n).id =
      ap (λ (xs : List String). includes xs (b.store n).id) (ids-eq-map jobs) in
    elim (Bool-cases (includes (ids jobs) (b.store n).id)) [
      | inl e ↦
          changed-Treats jobs _ "Unknown" b _ n own refl refl (rw (same, e) refl)
            (rw (same, e) refl)
      | inr e ↦
          changed-Treats jobs _ "Unknown" b _ n own refl refl
            (rw (same, e) (lose_own-id _ _ (b.store n)))
            (rw (same, e) (lose_own-state _ _ (b.store n)))
    ]

-- The page's own jobs, which it shows beside those in `observedJobs`: a poll that is answered by a
-- list of jobs takes one off the list of own jobs exactly if it names its id, and leaves its state;
-- a poll that fails, or is answered by anything else, takes none off. The state of an own job that
-- stays is `Submitting` if it was, and otherwise `Unknown` after a list of jobs and `ConnectionLost`
-- after anything else.
pub end_poll-Treats :
    (reply : Reply) (b : Board) (n : ℕ)
    → contains b.optimistic n ≡ true
    → Treats (names reply (b.store n).id) (lost_state reply) b n (end_poll reply b)
unfolding end_poll poll_reply
end_poll-Treats (error message) b n own = poll_lost-Treats b n own
end_poll-Treats (ok v) b n own = elim (Bool-cases (is_job_list v)) [
  | inl e ↦ rw e (poll_answered-Treats (map job_of (array_of v)) b n own)
  | inr e ↦ rw e (poll_lost-Treats b n own)
]
