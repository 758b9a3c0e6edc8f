-- ===== src/Sessions/Laws.antt =====
-- The dialog that stops llama.cpp sessions: its plan fits its selection, and a stop is waited for.
use sql_server_lab.Prelude.{
  Bool, true, false, List, Option, none, some, ◌≡◌, refl, sym, subst, ◌⊎◌, inl, inr, ◌≤◌, ◌<◌,
  arith, Bool-cases,
}
use sql_server_lab.Js.{Value, get, array_of}
use sql_server_lab.Session.{Machine, IsSafe, Answer, lost, arrived, Reachable}
use sql_server_lab.Session.Laws.{
  Reachable-Fits, looked_stale, looked_keeps, unchanged, ask_calm, ask_sent, ask_any,
}
use sql_server_lab.Sessions.{
  Dialog, is_offered, Question, read, preview, stop, Ticket, waiting, ticket, begin_read,
  begin_preview, stop_plan, valid_view, valid_preview, fail, receive, release, end_request, closed,
  leave, opened, Event, open_dialog, press_close, press_escape, press_read, press_f5, press_preview,
  press_stop, choose, confirm, handle,
}

-- A plan is one for the selected session, which is among those that were read.
abbrev pub Fits : Dialog → Option Value → Type 0
Fits d none = Unit
Fits d (some p) = (valid_preview p d.selection ≡ true) × (is_offered d.selection d.view ≡ true)

abbrev pub Shows : Dialog → Type 0
Shows d = Fits d d.plan

abbrev pub IsAskedFor : Dialog → Question → Type 0
IsAskedFor d read = d.plan ≡ none
IsAskedFor d (preview operation) = (operation ≡ d.selection) × (is_offered operation d.view ≡ true)
IsAskedFor d (stop id) = d.plan ≡ none

abbrev pub IsFor : Dialog → Ticket → Type 0
IsFor d t = IsAskedFor d t.question

abbrev Calm : Dialog → Dialog → Type 0
Calm d d' =
    (d.revision < d'.revision)
    ⊎ ((d'.revision ≡ d.revision) × (d'.busy ≡ d.busy) × ((t : Ticket) → IsFor d t → IsFor d' t))

same : (d : Dialog) → Calm d d
same d = inr (refl, refl, λ t f. f)

begin_preview_calm : (d : Dialog) → (begin_preview d).0 ≡ none → Calm d (begin_preview d).1
unfolding begin_preview
begin_preview_calm d h =
    ask_calm (ticket (preview d.selection) d) d (waiting false d) d (Calm d) d.busy
      (is_offered d.selection d.view) (same d) (same d) h

begin_read_calm : (d : Dialog) → (begin_read d).0 ≡ none → Calm d (begin_read d).1
unfolding begin_read
begin_read_calm d h =
    ask_calm (ticket read d) d (waiting false d) d (Calm d) d.busy true (same d) (same d) h

stop_plan_calm :
    (o : Option Value) (d : Dialog) → (stop_plan o d).0 ≡ none → Calm d (stop_plan o d).1
unfolding stop_plan
stop_plan_calm none d h = same d
stop_plan_calm (some p) d h =
    ask_calm (ticket (stop (get p "PlanId")) d) d (waiting true d) d (Calm d) d.busy d.confirmed
      (same d) (same d) h

leave_calm : (d : Dialog) → Calm d (leave d)
unfolding leave closed
leave_calm d = elim (Bool-cases d.stopping) [
  | inl e ↦ rw e (same d)
  | inr e ↦ rw e (inl (omega arith))
]

confirm_calm : (d : Dialog) (b : Bool) → Calm d (record d { confirmed = b })
confirm_calm d b = inr (refl, refl, λ t f. still t.question f)
  where
    still : (q : Question) → IsAskedFor d q → IsAskedFor (record d { confirmed = b }) q
    still read f = f
    still (preview operation) f = f
    still (stop id) f = f

calm : (e : Event) (d : Dialog) → (handle e d).0 ≡ none → Calm d (handle e d).1
unfolding handle opened begin_read
calm open_dialog d h = cc
calm press_close d h = leave_calm d
calm press_escape d h = leave_calm d
calm press_read d h = begin_read_calm d h
calm press_f5 d h = begin_read_calm d h
calm press_preview d h = begin_preview_calm d h
calm press_stop d h = stop_plan_calm d.plan d h
calm (choose operation) d h = inl (omega arith)
calm (confirm checked) d h = confirm_calm d checked

abbrev Asked : Dialog → Ticket → Dialog → Type 0
Asked d t d' =
    ((d.busy ≡ false) ⊎ (d.revision < d'.revision))
    × (d.revision ≤ d'.revision)
    × (t.current ≡ d'.revision)
    × (d'.busy ≡ true)
    × IsFor d' t

begin_read_asked :
    (d : Dialog) (t : Ticket) → (begin_read d).0 ≡ some t → Asked d t (begin_read d).1
unfolding begin_read
begin_read_asked d t h =
    ask_sent (ticket read d) d (waiting false d) d (Asked d) d.busy true t
      (λ calm go. (inl calm, omega arith, refl, refl, refl)) h

stop_plan_asked :
    (o : Option Value) (d : Dialog) (t : Ticket)
    → (stop_plan o d).0 ≡ some t
    → Asked d t (stop_plan o d).1
unfolding stop_plan
stop_plan_asked none d t h = cc
stop_plan_asked (some p) d t h =
    ask_sent (ticket (stop (get p "PlanId")) d) d (waiting true d) d (Asked d) d.busy d.confirmed t
      (λ calm go. (inl calm, omega arith, refl, refl, refl)) h

asked : (e : Event) (d : Dialog) (t : Ticket) → (handle e d).0 ≡ some t → Asked d t (handle e d).1
unfolding handle begin_preview opened
asked open_dialog d t h =
    let sent : Asked (opened d) t (begin_read (opened d)).1 = begin_read_asked (opened d) t h in
    (inr (omega (arith, sent.1)), omega (arith, sent.1), sent.2, sent.3, sent.4)
asked press_close d t h = cc
asked press_escape d t h = cc
asked press_read d t h = begin_read_asked d t h
asked press_f5 d t h = begin_read_asked d t h
asked press_preview d t h =
    ask_sent (ticket (preview d.selection) d) d (waiting false d) d (Asked d) d.busy
      (is_offered d.selection d.view) t (λ calm go. (inl calm, omega arith, refl, refl, (refl, go)))
      h
asked press_stop d t h = stop_plan_asked d.plan d t h
asked (choose operation) d t h = cc
asked (confirm checked) d t h = cc

start_read-Shows : (d : Dialog) → Shows d → Shows (begin_read d).1
unfolding begin_read
start_read-Shows d f = ask_any (ticket read d) d (waiting false d) d Shows d.busy true f tt f

stop_plan-Shows : (o : Option Value) (d : Dialog) → Shows d → Shows (stop_plan o d).1
unfolding stop_plan
stop_plan-Shows none d f = f
stop_plan-Shows (some p) d f =
    ask_any (ticket (stop (get p "PlanId")) d) d (waiting true d) d Shows d.busy d.confirmed f tt f

leave-Shows : (d : Dialog) → Shows d → Shows (leave d)
unfolding leave closed
leave-Shows d f = elim (Bool-cases d.stopping) [ inl e ↦ rw e f | inr e ↦ rw e tt ]

handle-Shows : (e : Event) (d : Dialog) → Shows d → Shows (handle e d).1
unfolding handle opened begin_preview
handle-Shows open_dialog d f = start_read-Shows (opened d) tt
handle-Shows press_close d f = leave-Shows d f
handle-Shows press_escape d f = leave-Shows d f
handle-Shows press_read d f = start_read-Shows d f
handle-Shows press_f5 d f = start_read-Shows d f
handle-Shows press_preview d f =
    ask_any (ticket (preview d.selection) d) d (waiting false d) d Shows d.busy
      (is_offered d.selection d.view) f tt f
handle-Shows press_stop d f = stop_plan-Shows d.plan d f
handle-Shows (choose operation) d f = tt
handle-Shows (confirm checked) d f = still d.plan f
  where
    still : (o : Option Value) → Fits d o → Fits (record d { confirmed = checked }) o
    still none f = f
    still (some p) f = f

abbrev free : Dialog → Dialog
free d = record d { busy = false; stopping = false }

free-Fits : (d : Dialog) (o : Option Value) → Fits d o → Fits (free d) o
free-Fits d none f = f
free-Fits d (some p) f = f

end_request_stale :
    (t : Ticket) (a : Answer) (d : Dialog) → t.current < d.revision → end_request t a d ≡ d
unfolding end_request release
end_request_stale t a d h =
    looked_stale (λ (x : Dialog). x.revision) free t.current d.is_open (receive t.question a d) d h

-- What an answer to the current request leaves.
abbrev Left : Dialog → Dialog → Type 0
Left d d' = (d.revision ≤ d'.revision) × Shows d'

receive_current : (q : Question) (a : Answer) (d : Dialog) → IsAskedFor d q → Left d (receive q a d)
unfolding receive fail
receive_current read lost d f = (omega arith, tt)
receive_current (preview operation) lost d f = (omega arith, tt)
receive_current (stop id) lost d f = (omega arith, tt)
receive_current read (arrived size v) d f = elim (Bool-cases (valid_view v)) [
  | inl e ↦ rw e (
    omega arith,
    subst (Fits (record d { view = some (array_of (get v "Items")); selection = "" })) (sym f) tt,
  )
  | inr e ↦ rw e (omega arith, tt)
]
receive_current (preview operation) (arrived size v) d (f, o) =
    elim (Bool-cases (valid_preview v operation)) [
      | inl e ↦ rw e (
        omega arith,
        (subst (λ s. valid_preview v s ≡ true) f e, subst (λ s. is_offered s d.view ≡ true) f o),
      )
      | inr e ↦ rw e (omega arith, tt)
    ]
receive_current (stop id) (arrived size v) d f =
    (omega arith, subst (Fits (record d { view = none; selection = "" })) (sym f) tt)

end_request_current :
    (t : Ticket) (a : Answer) (d : Dialog)
    → t.current ≡ d.revision
    → IsFor d t
    → Shows d
    → Left d (end_request t a d)
unfolding end_request release
end_request_current t a d e f s =
    looked_keeps (λ (x : Dialog). x.revision) free t.current (Left d) d.is_open
      (receive t.question a d) d (λ x h. (h.0, free-Fits x x.plan h.1))
      (receive_current t.question a d f) (omega arith, s)

-- The dialog as a machine.
abbrev pub stops : Machine Dialog Event Ticket Answer
stops = record {
  revision = λ d. d.revision;
  busy = λ d. d.busy;
  stamp = λ t. t.current;
  IsFor = IsFor;
  Fits = Shows;
  handle = handle;
  reply = end_request;
}

stops-IsSafe : IsSafe stops
stops-IsSafe = record {
  calm = calm;
  asked = asked;
  handle-Fits = handle-Shows;
  stale = λ t a d h. unchanged stops d (end_request t a d) (end_request_stale t a d h);
  current = end_request_current;
}

stop_plan_sends :
    (o : Option Value) (d : Dialog) (t : Ticket)
    → Fits d o
    → (stop_plan o d).0 ≡ some t
    → (p : Value) × (t.question ≡ stop (get p "PlanId"))
      × (d.confirmed ≡ true)
      × (valid_preview p d.selection ≡ true)
      × (is_offered d.selection d.view ≡ true)
unfolding stop_plan
stop_plan_sends none d t f h = cc
stop_plan_sends (some p) d t f h =
    ask_sent (ticket (stop (get p "PlanId")) d) d (waiting true d) d
      (λ u x.
        (p : Value) × (u.question ≡ stop (get p "PlanId"))
        × (d.confirmed ≡ true)
        × (valid_preview p d.selection ≡ true)
        × (is_offered d.selection d.view ≡ true))
      d.busy d.confirmed t (λ calm go. (p, refl, go, f.0, f.1)) h

-- In every run of the dialog, whatever the user does while requests wait and in whatever order
-- their answers come, a stop that is sent is confirmed, and it names the plan of a valid preview
-- of the session that is selected, which is among the sessions that were read.
pub stop_is_selected :
    (d : Dialog) (ts : List Ticket) (t : Ticket)
    → Reachable stops d ts
    → (handle press_stop d).0 ≡ some t
    → (p : Value) × (t.question ≡ stop (get p "PlanId"))
      × (d.confirmed ≡ true)
      × (valid_preview p d.selection ≡ true)
      × (is_offered d.selection d.view ≡ true)
unfolding handle
stop_is_selected d ts t r h =
    stop_plan_sends d.plan d t (Reachable-Fits stops stops-IsSafe d ts r) h
