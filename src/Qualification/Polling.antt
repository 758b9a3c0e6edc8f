-- ===== src/Qualification/Polling.antt =====
-- The requests of a live check: the start of the job and the polls for its result, which a counter
-- ends. A request that is never answered is left out.
use sql_server_lab.Prelude.{
  ℕ, zero, suc, ◌+◌, ◌≤◌, ◌<◌, Bool, true, ◌&&◌, Option, none, some, if◌then◌else◌, ◌≡◌, refl,
  subst, ap, ◌∙◌, arith, if_any, ltb, false, Bool-cases, inl, inr,
}
use sql_server_lab.Js.{Value, get, is_str, is_string, text_of}
use sql_server_lab.Js.Coerce.{text_value}
use sql_server_lab.Js.Patterns.{hex}
use sql_server_lab.Session.{Answer, lost, arrived}

-- The acceptance of the job.
unfoldable pub is_acceptance : Value → Bool
is_acceptance v = is_str (get v "Status") "ACCEPTED" && hex 32 (text_value (get v "Id"))

-- What the polls came to: how many there were, and the `Result` of the job unless one of them threw.
pub record Polled : Type 0 where
  pub polls : ℕ
  pub result : Option Value

-- One answer to a poll: an error, or the job, pending or complete.
pub data Observed : Type 0 where
  rejected pending : Observed
  complete : Value → Observed

unfoldable pub observe : Value → Answer → Observed
observe id lost = rejected
observe id (arrived size v) =
    if is_string id && is_str (get v "Id") (text_of id)
    then (if is_str (get v "Status") "PENDING"
        then pending
        else if is_str (get v "Status") "COMPLETE"
        then complete (get v "Result")
        else rejected)
    else rejected

-- The rest of one turn of the loop, after the n-th request from 0, with what the turns after it
-- would come to.
unfoldable pub turn : Observed → ℕ → Option Polled → Option Polled
turn rejected n rest = some (record { polls = suc n; result = none })
turn (complete v) n rest = some (record { polls = suc n; result = some v })
turn pending n rest = rest

-- The loop, after `n` requests; `answers` are those of the network, each of which comes. The counter
-- is the number of requests, so that the test of `++polls` is one of `suc n`. The first argument
-- bounds the turns of the model only: nothing is the result when it runs out.
module _ (id : Value) (answers : ℕ → Answer) where
  unfoldable pub poll : ℕ → ℕ → Option Polled
  poll zero n = none
  poll (suc fuel) n =
      let rest = poll fuel (suc n) in
      if ltb 300 (suc n)
      then some (record { polls = n; result = none })
      else turn (observe id (answers n)) n rest

-- The requests of one check: the start of the job, and the polls for its result.
unfoldable pub check_result : ℕ → Answer → (ℕ → Answer) → Option Polled
check_result fuel lost answers = some (record { polls = 0; result = none })
check_result fuel (arrived size v) answers =
    if is_acceptance v
    then poll (get v "Id") answers fuel 0
    else some (record { polls = 0; result = none })

-- A loop that comes to an end, with at most 300 requests.
abbrev pub Ends : Option Polled → Type 0
Ends o = (r : Polled) × (o ≡ some r) × (r.polls ≤ 300)

turn-Ends :
    (o : Observed) (n : ℕ) (rest : Option Polled) → n < 300 → Ends rest → Ends (turn o n rest)
unfolding turn
turn-Ends rejected n rest l h = (_, refl, omega (arith, l))
turn-Ends (complete v) n rest l h = (_, refl, omega (arith, l))
turn-Ends pending n rest l h = h

module _ (id : Value) (answers : ℕ → Answer) where
  poll-Ends : (fuel n : ℕ) → n ≤ 300 → 301 ≤ n + fuel → Ends (poll id answers fuel n)
  unfolding poll
  poll-Ends zero n l h = absurd (omega (arith, l, h))
  poll-Ends (suc fuel) n l h = elim (Bool-cases (ltb 300 (suc n))) [
    | inl e ↦ rw e (_, refl, l)
    | inr e ↦
        let room : n < 300 = ground (arith, e) in
        rw e (
          turn-Ends (observe id (answers n)) n (poll id answers fuel (suc n)) room
            (poll-Ends fuel (suc n) (omega (arith, room)) (omega (arith, h))))
  ]

  poll_finds :
      (fuel n k : ℕ) (v : Value)
      → k < fuel
      → n + k < 300
      → ((i : ℕ) → i < k → observe id (answers (n + i)) ≡ pending)
      → observe id (answers (n + k)) ≡ complete v
      → poll id answers fuel n ≡ some (record { polls = suc (n + k); result = some v })
  unfolding poll turn
  poll_finds zero n k v h l p c = absurd (omega (arith, h))
  poll_finds (suc fuel) n zero v h l p c =
      let here : observe id (answers n) ≡ complete v =
        subst (λ i. observe id (answers i) ≡ complete v) (omega arith) c in
      let allowed : ltb 300 (suc n) ≡ false = ground (arith, l) in
      let count : n ≡ n + 0 = omega arith in
      rw (allowed, here) (ap (λ (m : ℕ). some (record { polls = suc m; result = some v })) count)
  poll_finds (suc fuel) n (suc k) v h l p c =
      let here : observe id (answers n) ≡ pending =
        subst (λ i. observe id (answers i) ≡ pending) (omega arith) (p 0 (omega arith)) in
      let allowed : ltb 300 (suc n) ≡ false = ground (arith, l) in
      let later : (i : ℕ) → i < k → observe id (answers (suc n + i)) ≡ pending = λ i b.
        subst (λ j. observe id (answers j) ≡ pending) (omega arith)
          (p (suc i) (omega (arith, b))) in
      let found : observe id (answers (suc n + k)) ≡ complete v =
        subst (λ j. observe id (answers j) ≡ complete v) (omega arith) c in
      let count : suc n + k ≡ n + suc k = omega arith in
      let rest = poll_finds fuel (suc n) k v (omega (arith, h)) (omega (arith, l)) later found in
      rw (allowed, here)
        (rest ∙ ap (λ (m : ℕ). some (record { polls = suc m; result = some v })) count)

-- If every request is answered in the end, then whatever the answers are a check comes to an end,
-- after at most 300 requests for its result: 301 turns are enough, the last of which stops at the
-- test of the counter.
pub check_result-Ends :
    (fuel : ℕ) (a : Answer) (answers : ℕ → Answer) → 301 ≤ fuel → Ends (check_result fuel a answers)
unfolding check_result
check_result-Ends fuel lost answers h = (_, refl, omega arith)
check_result-Ends fuel (arrived size v) answers h =
    if_any (λ (x : Option Polled). Ends x) (is_acceptance v) (poll (get v "Id") answers fuel 0)
      (some (record { polls = 0; result = none }))
      (poll-Ends (get v "Id") answers fuel 0 (omega arith) (omega (arith, h)))
      (record { polls = 0; result = none }, refl, omega arith)

-- If the job of a check is accepted and one of the first 300 answers says that it is complete,
-- after answers that it is pending, then the check ends with this answer and has its result.
pub check_result_found :
    (fuel size : ℕ) (accepted : Value) (answers : ℕ → Answer) (k : ℕ) (v : Value)
    → 301 ≤ fuel
    → is_acceptance accepted ≡ true
    → k < 300
    → ((i : ℕ) → i < k → observe (get accepted "Id") (answers i) ≡ pending)
    → observe (get accepted "Id") (answers k) ≡ complete v
    → check_result fuel (arrived size accepted) answers
      ≡ some (record { polls = suc k; result = some v })
unfolding check_result
check_result_found fuel size accepted answers k v f c h p o = rw c (
    poll_finds (get accepted "Id") answers fuel 0 k v (omega (arith, f, h)) (omega (arith, h))
      (λ i l. subst (λ j. observe (get accepted "Id") (answers j) ≡ pending) (omega arith) (p i l))
      (subst (λ j. observe (get accepted "Id") (answers j) ≡ complete v) (omega arith) o)
    ∙ ap (λ (m : ℕ). some (record { polls = suc m; result = some v })) (omega arith))
