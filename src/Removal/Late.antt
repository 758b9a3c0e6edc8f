-- ===== src/Removal/Late.antt =====
-- Answers that come late at the dialog that removes artifacts (Ui/run-artifact-removal.js).
use sql_server_lab.Prelude.{
  String, sym, suc, Bool, true, false, not, ◌||◌, List, [], ◌∷◌, none, some, ◌≡◌, refl, subst, ◌≤◌,
  ◌<◌, if◌then◌else◌, Bool-cases, inl, inr, arith, lt→neq, some_injective, leb,
}
use sql_server_lab.Js.{Value}
use sql_server_lab.Removal.Dialog.{
  Action, read, preview, apply, Dialog, invalidate, Payload, Ticket, payload_of, is_permitted,
  is_apply, waiting_dialog, begin_request, Reply, failed, answered, receive, is_current, take_reply,
  end_request, Event, open_dialog, close_dialog, press, select, confirm, answer, begun, handle, run,
  selected_target, run_of,
}

receive-revision :
    (action : Action) (run_id : String) (view : Value) (d : Dialog)
    → (receive action run_id view d).revision ≡ d.revision
unfolding receive
receive-revision read run_id view d = ground arith
receive-revision preview run_id view d = ground arith
receive-revision apply run_id view d = ground arith

take_reply-revision :
    (ticket : Ticket) (reply : Reply) (d : Dialog)
    → (take_reply ticket reply d).revision ≡ d.revision
unfolding take_reply
take_reply-revision ticket failed d = refl
take_reply-revision ticket (answered size view) d = elim (Bool-cases (leb size 1048576)) [
  | inl e ↦ rw e (receive-revision ticket.action ticket.run_id view d)
  | inr e ↦ rw e refl
]

end_request-revision :
    (ticket : Ticket) (reply : Reply) (d : Dialog)
    → (end_request ticket reply d).revision ≡ d.revision
unfolding end_request
end_request-revision ticket reply d = elim (Bool-cases (is_current ticket d)) [
  | inl e ↦ rw e (take_reply-revision ticket reply d)
  | inr e ↦ rw e refl
]

waiting_dialog-revision :
    (action : Action) (d : Dialog) → (waiting_dialog action d).revision ≡ suc d.revision
unfolding waiting_dialog
waiting_dialog-revision read d = refl
waiting_dialog-revision preview d = refl
waiting_dialog-revision apply d = refl

begin_request-revision :
    (action : Action) (d : Dialog) → d.revision ≤ (begun d (begin_request action d)).revision
unfolding begin_request
begin_request-revision action d =
    let moved = waiting_dialog-revision action d in
    elim (Bool-cases (d.busy || d.pending_apply || not d.is_open)) [
      | inl e ↦ rw e (omega arith)
      | inr e ↦ elim (Bool-cases (is_permitted action d)) [
        | inl p ↦ rw (e, p) (omega (arith, moved))
        | inr p ↦ rw (e, p) (omega arith)
      ]
    ]

handle-revision : (e : Event) (d : Dialog) → d.revision ≤ (handle e d).revision
unfolding handle invalidate
handle-revision open_dialog d = omega arith
handle-revision close_dialog d = omega arith
handle-revision (press action) d = begin_request-revision action d
handle-revision (select n) d = omega arith
handle-revision (confirm c) d = omega arith
handle-revision (answer ticket reply) d = omega (arith, end_request-revision ticket reply d)

run-revision : (es : List Event) (d : Dialog) → d.revision ≤ (run es d).revision
unfolding run
run-revision [] d = omega arith
run-revision (e ∷ es) d = omega (arith, handle-revision e d, run-revision es (handle e d))

-- The events by which the user leaves what a request was made for.
abbrev pub leaves : Event → Bool
leaves open_dialog = true
leaves close_dialog = true
leaves (select n) = true
leaves _ = false

left-revision : (e : Event) (d : Dialog) → leaves e ≡ true → d.revision < (handle e d).revision
unfolding handle invalidate
left-revision open_dialog d h = omega arith
left-revision close_dialog d h = omega arith
left-revision (press action) d h = cc
left-revision (select n) d h = omega arith
left-revision (confirm c) d h = cc
left-revision (answer ticket reply) d h = cc

begun-revision :
    (action : Action) (d d' : Dialog) (ticket : Ticket) (payload : Payload)
    → begin_request action d ≡ some (ticket, payload, d')
    → ticket.current ≡ d'.revision
unfolding begin_request
begun-revision action d d' ticket payload h =
    asked (d.busy || d.pending_apply || not d.is_open) (is_permitted action d)
      (
        record { action = action; run_id = run_of (selected_target d); current = suc d.revision },
        payload_of action d,
        waiting_dialog action d,
      )
      (sym (waiting_dialog-revision action d)) h
  where
    asked :
        (stop go : Bool) (next : Ticket × Payload × Dialog)
        → next.0.current ≡ next.2.revision
        → (if stop then none else if go then some next else none) ≡ some (ticket, payload, d')
        → ticket.current ≡ d'.revision
    asked true go next same e = cc
    asked false true next same e =
        subst (λ (x : Ticket × Payload × Dialog). x.0.current ≡ x.2.revision)
          (some_injective next (ticket, payload, d') e) same
    asked false false next same e = cc

passed :
    (ticket : Ticket) (reply : Reply) (d : Dialog)
    → ticket.current < d.revision
    → end_request ticket reply d
      ≡ record d { pending_apply = if is_apply ticket.action then false else d.pending_apply }
unfolding end_request
passed ticket reply d h = let e = lt→neq ticket.current d.revision h in rw (e, e) refl

-- Once the dialog was opened anew or closed or another target was selected, the answer to a request
-- that began before changes nothing, whatever happens before and after and whatever the answer is,
-- except that the answer to a removal ends the wait for it.
pub late_answer_ignored :
    (action : Action) (d d' : Dialog) (ticket : Ticket) (payload : Payload) (reply : Reply)
    (es later : List Event) (e : Event)
    → begin_request action d ≡ some (ticket, payload, d')
    → leaves e ≡ true
    → end_request ticket reply (run later (handle e (run es d')))
      ≡ record (run later (handle e (run es d'))) {
        pending_apply =
            if is_apply ticket.action
            then false
            else (run later (handle e (run es d'))).pending_apply;
      }
late_answer_ignored action d d' ticket payload reply es later e h l =
    let before = run es d' in
    let left = handle e before in
    passed ticket reply (run later left) (
      omega (
        arith,
        begun-revision action d d' ticket payload h,
        run-revision es d',
        left-revision e before l,
        run-revision later left,
      ))
