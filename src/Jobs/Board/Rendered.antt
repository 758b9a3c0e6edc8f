-- ===== src/Jobs/Board/Rendered.antt =====
-- Rendering records the states that were reported (Ui/app.js, renderJobs).
use sql_server_lab.Prelude.{
  ℕ, String, Bool, true, false, not, List, [], ◌∷◌, ◌++◌, map, str_eq, eq_refl, ◌≡◌, refl, ◌∙◌,
  arith, includes, All, ◌||◌, keep, All-weaken, All-append, All-keep,
}
use sql_server_lab.Js.Maps.{Map, values}
use sql_server_lab.Jobs.Board.{Job, Board, state_at, observe_all, ids, is_replaced, render_jobs}
use sql_server_lab.Jobs.Board.Polling.{}
use sql_server_lab.Jobs.Board.Observed.{
  reported, state_at-observe_all, Agrees, merge_all-state_at, IsTable, observe_all-IsTable,
  values-state_at,
}

own_includes :
    (store : ℕ → Job) (ns : List ℕ)
    → All (λ n. includes (ids (map store ns)) (store n).id ≡ true) ns
own_includes store [] = tt
own_includes store (n ∷ ns) = (
  rw (eq_refl (store n).id) refl,
  All-weaken ns (λ m h. later (str_eq (store n).id (store m).id) h) (own_includes store ns),
)
  where
    later : (a : Bool) {b : Bool} → b ≡ true → (a || b) ≡ true
    later a h = ground arith

-- The page's own jobs that stay are not written into the table.
own_replaced :
    (own known : List String) (job : Job)
    → (not (includes known job.id) ≡ true) × (includes own job.id ≡ true)
    → is_replaced own known job ≡ true
unfolding is_replaced
own_replaced own known job (a, b) = rw (a, b)

own_agree :
    (own known : List String) (m : Map Job) (store : ℕ → Job) (ns : List ℕ)
    → All (λ n. (not (includes known (store n).id) ≡ true) × (includes own (store n).id ≡ true)) ns
    → All (Agrees own known m) (map store ns)
own_agree own known m store [] h = tt
own_agree own known m store (n ∷ ns) (h, r) =
    ((λ e. absurd (clash (own_replaced own known (store n) h) e)), own_agree own known m store ns r)
  where
    clash : {b : Bool} → b ≡ true → b ≡ false → ⊥
    clash p q = cc

-- After a rendering `observedJobs` holds, for every id, the state reported last in the server's list,
-- and the state before where the list does not name the id.
pub render_jobs-state_at :
    (id : String) (server : List Job) (b : Board)
    → IsTable b.observed
    → state_at id (render_jobs server b).observed ≡ reported id server (state_at id b.observed)
unfolding render_jobs
render_jobs-state_at id server b t =
    let observed = observe_all server b.observed in
    let own = ids (map b.store b.optimistic) in
    let known = ids server in
    let kept = keep (λ (n : ℕ). not (includes known (b.store n).id)) b.optimistic in
    merge_all-state_at id b.configured_limit own known (map b.store kept ++ values observed)
      b.line_cache observed
      (All-append _ (map b.store kept) (values observed)
        (own_agree own known observed b.store kept
          (All-keep _ _ b.optimistic (own_includes b.store b.optimistic)))
        (All-weaken (values observed) (λ j h e. h)
          (values-state_at observed (observe_all-IsTable server b.observed t))))
    ∙ state_at-observe_all id server b.observed
