-- ===== src/Sessions/Awaited.antt =====
-- What the user can do while the stop of a session waits for its answer: nothing.
use sql_server_lab.Prelude.{
  ℕ, true, false, List, [], ◌∷◌, Option, none, some, ◌≡◌, refl, sym, ap, subst, ◌∙◌, if◌then◌else◌,
}
use sql_server_lab.Js.{Value, get}
use sql_server_lab.Session.{Answer, lost, arrived}
use sql_server_lab.Session.Laws.{ask_sent, looked, looked_now}
use sql_server_lab.Sessions.{
  Dialog, controls, Question, stop, Ticket, waiting, ticket, begin_read, begin_preview, stop_plan,
  begin_stop, fail, receive, release, end_request, leave, Event, open_dialog, press_close,
  press_escape, press_read, press_f5, press_preview, press_stop, choose, confirm, handle,
  is_possible,
}

-- An event, if it is possible.
abbrev pub step : Event → Dialog → Option Ticket × Dialog
step e d = if is_possible e d then handle e d else (none, d)

-- The dialog after some events, and whether one of them sent a request.
abbrev pub run : List Event → Dialog → Dialog
run [] d = d
run (e ∷ es) d = run es (step e d).1

abbrev pub IsQuiet : List Event → Dialog → Type 0
IsQuiet [] d = Unit
IsQuiet (e ∷ es) d = ((step e d).0 ≡ none) × IsQuiet es (step e d).1

abbrev Awaits : Dialog → Type 0
Awaits d = (d.busy ≡ true) × (d.stopping ≡ true) × (d.is_open ≡ true)

step_frozen : (e : Event) (d : Dialog) → Awaits d → step e d ≡ (none, d)
unfolding is_possible controls handle leave begin_read begin_preview
step_frozen open_dialog d (b, s, o) = rw o refl
step_frozen press_close d (b, s, o) = rw (o, s) refl
step_frozen press_escape d (b, s, o) = rw (o, s) refl
step_frozen press_read d (b, s, o) = rw (o, b) refl
step_frozen press_f5 d (b, s, o) = rw (o, b) refl
step_frozen press_preview d (b, s, o) = rw (o, b) refl
step_frozen press_stop d (b, s, o) = rw (o, b) refl
step_frozen (choose operation) d (b, s, o) = rw (o, b) refl
step_frozen (confirm checked) d (b, s, o) = rw (o, b) refl

run_frozen : (es : List Event) (d : Dialog) → Awaits d → (run es d ≡ d) × IsQuiet es d
run_frozen [] d w = (refl, tt)
run_frozen (e ∷ es) d w =
    let here = step_frozen e d w in
    let rest = run_frozen es d w in
    (
      subst (λ (x : Option Ticket × Dialog). run es x.1 ≡ d) (sym here) rest.0,
      (
        ap (λ (x : Option Ticket × Dialog). x.0) here,
        subst (λ (x : Option Ticket × Dialog). IsQuiet es x.1) (sym here) rest.1,
      ),
    )

-- What the dialog has become when the stop has been answered.
abbrev pub IsOver : Dialog → Type 0
IsOver d =
    (d.is_open ≡ true) × (d.busy ≡ false) × (d.stopping ≡ false) × (d.view ≡ none) × (d.plan ≡ none)

abbrev free : Dialog → Dialog
free d = record d { busy = false; stopping = false }

abbrev revision_of : Dialog → ℕ
revision_of d = d.revision

receive-IsOver :
    (id : Value) (a : Answer) (d : Dialog)
    → d.is_open ≡ true
    → d.plan ≡ none
    → (d.revision ≡ (receive (stop id) a d).revision) × IsOver (free (receive (stop id) a d))
unfolding receive fail
receive-IsOver id lost d o p = (refl, (o, refl, refl, refl, refl))
receive-IsOver id (arrived size v) d o p = (refl, (o, refl, refl, refl, p))

end_stop :
    (t : Ticket) (id : Value) (a : Answer) (d : Dialog)
    → t.question ≡ stop id
    → t.current ≡ d.revision
    → d.is_open ≡ true
    → d.plan ≡ none
    → IsOver (end_request t a d)
unfolding end_request release
end_stop t id a d q e o p =
    let next : Question → Dialog = λ u. receive u a d in
    let over = receive-IsOver id a d o p in
    let answered : IsOver (looked revision_of free t.current true (next (stop id)) d) =
      subst IsOver (sym (looked_now revision_of free t.current (next (stop id)) d e (e ∙ over.0)))
        over.1 in
    subst (λ b. IsOver (looked revision_of free t.current b (next t.question) d)) (sym o)
      (subst (λ u. IsOver (looked revision_of free t.current true (next u) d)) (sym q) answered)

abbrev Stops : Dialog → Ticket → Dialog → Type 0
Stops d t w =
    Awaits w × (w.plan ≡ none) × (t.current ≡ w.revision) × ((id : Value) × (t.question ≡ stop id))

begin_stop_waits :
    (o : Option Value) (d : Dialog) (t : Ticket)
    → d.is_open ≡ true
    → (stop_plan o d).0 ≡ some t
    → Stops d t (stop_plan o d).1
unfolding stop_plan
begin_stop_waits none d t o h = cc
begin_stop_waits (some p) d t o h =
    ask_sent (ticket (stop (get p "PlanId")) d) d (waiting true d) d (Stops d) d.busy d.confirmed t
      (λ calm go. ((refl, refl, o), refl, refl, (get p "PlanId", refl))) h

-- After an open dialog has sent a stop, whatever the user does, as far as the controls allow it, no
-- request is sent and the dialog stays as it is until the answer comes; and any answer, also that
-- there is none, then frees it, open and with no session and no plan left.
pub stop_is_awaited :
    (d : Dialog) (t : Ticket) (es : List Event) (a : Answer)
    → d.is_open ≡ true
    → (handle press_stop d).0 ≡ some t
    → (run es (handle press_stop d).1 ≡ (handle press_stop d).1)
      × IsQuiet es (handle press_stop d).1
      × IsOver (end_request t a (run es (handle press_stop d).1))
unfolding handle
stop_is_awaited d t es a o h =
    let w = begin_stop_waits d.plan d t o h in
    let frozen = run_frozen es (begin_stop d).1 w.0 in
    (
      frozen.0,
      frozen.1,
      subst (λ x. IsOver (end_request t a x)) (sym frozen.0)
          (end_stop t w.3.0 a (begin_stop d).1 w.3.1 w.2 w.0.2 w.1),
    )
