-- ===== src/Slots/Asking.antt =====
-- The requests of the slot reserve: what the dialog holds while they wait.
use sql_server_lab.Prelude.{
  suc, String, true, false, Option, none, some, ◌≡◌, refl, ◌⊎◌, inl, inr, ◌≤◌, ◌<◌, arith, if_any,
}
use sql_server_lab.Js.{Value, get}
use sql_server_lab.Session.Laws.{ask_calm, ask_sent}
use sql_server_lab.Slots.{
  Policy, Dialog, Question, read, plan_policy, apply_policy, plan_member, apply_member, Ticket,
  invalidate_plan, invalidate_preview, ticket, waiting, begin_request, policy_numbers,
  policy_question, member_question, ask, press_apply_plan, press_apply_preview, Event, open_dialog,
  close_dialog, press_read, press_apply, press_cancel, press_apply_member, submit_policy,
  submit_member, type_policy, type_member, handle,
}
use sql_server_lab.Slots.Laws.{IsAskedFor}

keep_asked :
    (d d' : Dialog) (q : Question)
    → (d.preview ≡ none → d'.preview ≡ none)
    → IsAskedFor d q
    → IsAskedFor d' q
keep_asked d d' read k f = tt
keep_asked d d' (plan_policy values) k f = tt
keep_asked d d' (apply_policy plan) k f = tt
keep_asked d d' (plan_member run operation sql) k f = k f
keep_asked d d' (apply_member preview) k f = tt

empty_asked : (d : Dialog) (q : Question) → d.preview ≡ none → IsAskedFor d q
empty_asked d read e = tt
empty_asked d (plan_policy values) e = tt
empty_asked d (apply_policy plan) e = tt
empty_asked d (plan_member run operation sql) e = e
empty_asked d (apply_member preview) e = tt

abbrev pub Calm : Dialog → Dialog → Type 0
Calm d d' =
    (d.revision < d'.revision)
    ⊎ ((d'.revision ≡ d.revision)
        × (d'.busy ≡ d.busy)
        × ((t : Ticket) → IsAskedFor d t.question → IsAskedFor d' t.question))

-- A dialog that differs in nothing that a request depends on.
alike :
    (d d' : Dialog)
    → d'.revision ≡ d.revision
    → d'.busy ≡ d.busy
    → (d.preview ≡ none → d'.preview ≡ none)
    → Calm d d'
alike d d' r b k = inr (r, b, λ t f. keep_asked d d' t.question k f)

begin_request_calm :
    (q : Question) (d d' : Dialog)
    → Calm d d'
    → (begin_request q d').0 ≡ none
    → Calm d (begin_request q d').1
unfolding begin_request
begin_request_calm q d d' c h =
    ask_calm (ticket q d') d' (waiting d') d' (Calm d) d'.busy true c c h

asked_calm :
    (o : Option Question) (d d' : Dialog) → Calm d d' → (ask o d').0 ≡ none → Calm d (ask o d').1
asked_calm none d d' c h = c
asked_calm (some q) d d' c h = begin_request_calm q d d' c h

press_apply_plan_calm :
    (o : Option Value) (d : Dialog)
    → (press_apply_plan o d).0 ≡ none
    → Calm d (press_apply_plan o d).1
unfolding press_apply_plan
press_apply_plan_calm none d = λ h. alike d d refl refl (λ e. e)
press_apply_plan_calm (some plan) d =
    if_any (λ x. x.0 ≡ none → Calm d x.1) d.busy (none, d)
      (begin_request (apply_policy plan) (invalidate_plan d)) (λ h. alike d d refl refl (λ e. e))
      (begin_request_calm (apply_policy plan) d (invalidate_plan d)
        (alike d (invalidate_plan d) refl refl (λ e. e)))

press_apply_preview_calm :
    (o : Option Value) (d : Dialog)
    → (press_apply_preview o d).0 ≡ none
    → Calm d (press_apply_preview o d).1
unfolding press_apply_preview
press_apply_preview_calm none d = λ h. alike d d refl refl (λ e. e)
press_apply_preview_calm (some v) d =
    if_any (λ x. x.0 ≡ none → Calm d x.1) d.busy (none, d)
      (begin_request (apply_member (get v "PreviewId")) (invalidate_preview d))
      (λ h. alike d d refl refl (λ e. e))
      (begin_request_calm (apply_member (get v "PreviewId")) d (invalidate_preview d)
        (alike d (invalidate_preview d) refl refl (λ e. refl)))

abbrev pub Asked : Dialog → Ticket → Dialog → Type 0
Asked d t d' =
    ((d.busy ≡ false) ⊎ (d.revision < d'.revision))
    × (d.revision ≤ d'.revision)
    × (t.current ≡ d'.revision)
    × (d'.busy ≡ true)
    × IsAskedFor d' t.question

begin_request_asked :
    (q : Question) (d : Dialog) (t : Ticket)
    → IsAskedFor (waiting d) q
    → (begin_request q d).0 ≡ some t
    → Asked d t (begin_request q d).1
unfolding begin_request
begin_request_asked q d t f h =
    ask_sent (ticket q d) d (waiting d) d (Asked d) d.busy true t
      (λ calm go. (inl calm, omega arith, refl, refl, f)) h

press_apply_plan_asked :
    (o : Option Value) (d : Dialog) (t : Ticket)
    → (press_apply_plan o d).0 ≡ some t
    → Asked d t (press_apply_plan o d).1
unfolding press_apply_plan
press_apply_plan_asked none d t = λ h. cc
press_apply_plan_asked (some plan) d t =
    if_any (λ x. x.0 ≡ some t → Asked d t x.1) d.busy (none, d)
      (begin_request (apply_policy plan) (invalidate_plan d)) (λ h. cc)
      (begin_request_asked (apply_policy plan) (invalidate_plan d) t tt)

press_apply_preview_asked :
    (o : Option Value) (d : Dialog) (t : Ticket)
    → (press_apply_preview o d).0 ≡ some t
    → Asked d t (press_apply_preview o d).1
unfolding press_apply_preview
press_apply_preview_asked none d t = λ h. cc
press_apply_preview_asked (some v) d t =
    if_any (λ x. x.0 ≡ some t → Asked d t x.1) d.busy (none, d)
      (begin_request (apply_member (get v "PreviewId")) (invalidate_preview d)) (λ h. cc)
      (begin_request_asked (apply_member (get v "PreviewId")) (invalidate_preview d) t tt)

policy_asked :
    (o : Option (Policy Value)) (d : Dialog) (t : Ticket)
    → (ask (policy_question o) d).0 ≡ some t
    → Asked d t (ask (policy_question o) d).1
policy_asked none d t h = cc
policy_asked (some p) d t h = begin_request_asked (plan_policy p) d t tt h

member_asked :
    (o : Option Question) (d : Dialog) (t : Ticket)
    → d.preview ≡ none
    → (ask o d).0 ≡ some t
    → Asked d t (ask o d).1
member_asked none d t n h = cc
member_asked (some q) d t n h = begin_request_asked q d t (empty_asked (waiting d) q n) h

module _ (number_of : String → Value) where
  pub calm :
      (e : Event) (d : Dialog)
      → (handle number_of e d).0.ask ≡ none
      → Calm d (handle number_of e d).1
  unfolding handle begin_request
  calm open_dialog d h = cc
  calm close_dialog d h = inl (omega arith)
  calm press_read d h =
      begin_request_calm read d (invalidate_plan (invalidate_preview d))
        (alike d (invalidate_plan (invalidate_preview d)) refl refl (λ e. refl)) h
  calm (type_policy policy) d h =
      alike d (record (invalidate_plan d) { policy = policy }) refl refl (λ e. e)
  calm submit_policy d h =
      asked_calm (policy_question (policy_numbers number_of d.policy)) d (invalidate_plan d)
        (alike d (invalidate_plan d) refl refl (λ e. e)) h
  calm press_apply d h = press_apply_plan_calm d.plan d h
  calm (type_member member) d h =
      alike d (record (invalidate_preview d) { member = member }) refl refl (λ e. refl)
  calm press_cancel d h = alike d (invalidate_preview d) refl refl (λ e. refl)
  calm submit_member d h =
      asked_calm (member_question number_of d.member) d (invalidate_preview d)
        (alike d (invalidate_preview d) refl refl (λ e. refl)) h
  calm press_apply_member d h = press_apply_preview_calm d.preview d h

  pub asked :
      (e : Event) (d : Dialog) (t : Ticket)
      → (handle number_of e d).0.ask ≡ some t
      → Asked d t (handle number_of e d).1
  unfolding handle
  asked open_dialog d t h =
      let fresh : Dialog = record d {
        revision = suc d.revision;
        busy = false;
        state = none;
        plan = none;
        preview = none;
        is_open = true;
      } in
      let sent : Asked fresh t (begin_request read fresh).1 =
        begin_request_asked read fresh t tt h in
      (inr (omega (arith, sent.1)), omega (arith, sent.1), sent.2, sent.3, sent.4)
  asked close_dialog d t h = cc
  asked press_read d t h = begin_request_asked read (invalidate_plan (invalidate_preview d)) t tt h
  asked (type_policy policy) d t h = cc
  asked submit_policy d t h =
      policy_asked (policy_numbers number_of d.policy) (invalidate_plan d) t h
  asked press_apply d t h = press_apply_plan_asked d.plan d t h
  asked (type_member member) d t h = cc
  asked press_cancel d t h = cc
  asked submit_member d t h =
      member_asked (member_question number_of d.member) (invalidate_preview d) t refl h
  asked press_apply_member d t h = press_apply_preview_asked d.preview d t h
