-- ===== src/Slots/Laws.antt =====
-- The previews of member actions, which the server keeps until they are applied or cancelled: what
-- becomes of each that arrives. The dialog, with a ledger of the previews of one id, fills the
-- interface of Session.
use sql_server_lab.Prelude.{
  ℕ, ◌+◌, String, true, false, ◌&&◌, Option, none, some, ◌≡◌, refl, ap, subst, inl, inr, arith,
  Bool-cases, if_any, if_twice, is_nil, some_injective, if◌then◌else◌, str_eq, ◌==◌,
}
use sql_server_lab.Js.{
  Value, undefined, null, bool, num, negative, fraction, str, arr, obj, get, is_str, truthy, codes,
}
use sql_server_lab.Js.Patterns.{trim}
use sql_server_lab.Slots.{
  Policy, Member, Dialog, Question, read, plan_policy, apply_policy, plan_member, apply_member,
  Ticket, SqlPlan, cancellation, invalidate_plan, invalidate_preview, ticket, waiting,
  begin_request, has_properties, can_render, is_policy_plan, preview_of, fail, Outcome, failed,
  result, done, render, receive, policy_numbers, policy_question, member_question, ask,
  press_apply_plan, press_apply_preview, Event, open_dialog, close_dialog, press_read, press_apply,
  press_cancel, press_apply_member, submit_policy, submit_member, type_policy, type_member, handle,
}

-- How many previews of an id have arrived, been cancelled and been applied.
pub record Ledger : Type 0 where
  pub arrived : ℕ
  pub cancelled : ℕ
  pub applied : ℕ

pub record Account : Type 0 where
  pub dialog : Dialog
  pub ledger : Ledger

-- The plan of a member's action is asked for by a dialog that holds no preview.
abbrev pub IsAskedFor : Dialog → Question → Type 0
IsAskedFor d (plan_member run operation sql) = d.preview ≡ none
IsAskedFor d _ = Unit

unreadable : (v : Value) → has_properties v ≡ false → get v "PreviewId" ≡ undefined
unreadable undefined h = refl
unreadable null h = refl
unreadable (bool b) h = cc
unreadable (num n) h = cc
unreadable (negative n) h = cc
unreadable (fraction t) h = cc
unreadable (str t) h = cc
unreadable (arr vs) h = cc
unreadable (obj fs) h = cc

module _ (id : String) where
  abbrev pub weight : Value → ℕ
  weight v = if is_str v id then 1 else 0

  abbrev pub weigh : Option Value → ℕ
  weigh none = 0
  weigh (some v) = weight v

  -- The preview of the id that the dialog holds.
  abbrev pub held : Dialog → ℕ
  held d = weigh (cancellation d.preview)

  abbrev pub applied_in : Question → ℕ
  applied_in (apply_member v) = weight v
  applied_in _ = 0

  abbrev pub applied_by : Option Ticket → ℕ
  applied_by none = 0
  applied_by (some t) = applied_in t.question

  abbrev pub spend : Option Value → Option Ticket → Ledger → Ledger
  spend cancelled asked l = record l {
    cancelled = l.cancelled + weigh cancelled;
    applied = l.applied + applied_by asked;
  }

  -- The preview that an answer brings: the plan of a member, or whatever comes late.
  abbrev pub brought : Question → Outcome → ℕ
  brought (plan_member run operation sql) (result v) = weight (get v "PreviewId")
  brought _ _ = 0

  abbrev pub brought_late : Outcome → ℕ
  brought_late (result v) = weight (get v "PreviewId")
  brought_late _ = 0

  abbrev pub arrives : Ticket → Outcome → Dialog → ℕ
  arrives t o d =
      if t.current == d.revision && d.is_open then brought t.question o else brought_late o

  -- Every preview that arrived is held, cancelled or applied, once.
  abbrev pub Balanced : Account → Type 0
  Balanced a = a.ledger.arrived ≡ a.ledger.cancelled + a.ledger.applied + held a.dialog

  abbrev pub After : Ledger → Option Value → Option Ticket × Dialog → Type 0
  After l cancelled r =
      l.arrived ≡ (l.cancelled + weigh cancelled) + (l.applied + applied_by r.0) + held r.1

  begin_request-After :
      (q : Question) (d : Dialog) (l : Ledger) (c : Option Value)
      → applied_in q ≡ 0
      → l.arrived ≡ l.cancelled + weigh c + l.applied + held d
      → After l c (begin_request q d)
  unfolding begin_request
  begin_request-After q d l c z h =
      if_any (After l c) d.busy (none, d) (some (ticket q d), waiting d) (omega (arith, h))
        (omega (arith, h, z))

  -- A preview that is given up is cancelled.
  given_up-After :
      (q : Question) (d d' : Dialog) (l : Ledger)
      → applied_in q ≡ 0
      → d'.preview ≡ none
      → l.arrived ≡ l.cancelled + l.applied + held d
      → After l (cancellation d.preview) (begin_request q d')
  given_up-After q d d' l z n h =
      let empty : held d' ≡ 0 = ap (λ o. weigh (cancellation o)) n in
      begin_request-After q d' l (cancellation d.preview) z (omega (arith, h, empty))

  ask-After :
      (o : Option Question) (d : Dialog) (l : Ledger) (c : Option Value)
      → ((q : Question) → o ≡ some q → applied_in q ≡ 0)
      → l.arrived ≡ l.cancelled + weigh c + l.applied + held d
      → After l c (ask o d)
  ask-After none d l c z h = omega (arith, h)
  ask-After (some q) d l c z h = begin_request-After q d l c (z q refl) h

  press_apply_plan-After :
      (o : Option Value) (d : Dialog) (l : Ledger)
      → l.arrived ≡ l.cancelled + l.applied + held d
      → After l none (press_apply_plan o d)
  unfolding press_apply_plan
  press_apply_plan-After none d l h = omega (arith, h)
  press_apply_plan-After (some plan) d l h =
      if_any (After l none) d.busy (none, d) (begin_request (apply_policy plan) (invalidate_plan d))
        (omega (arith, h))
        (begin_request-After (apply_policy plan) (invalidate_plan d) l none refl (omega (arith, h)))

  press_apply_preview-After :
      (o : Option Value) (d : Dialog) (l : Ledger)
      → d.preview ≡ o
      → l.arrived ≡ l.cancelled + l.applied + held d
      → After l none (press_apply_preview o d)
  unfolding press_apply_preview begin_request
  press_apply_preview-After none d l s h = omega (arith, h)
  press_apply_preview-After (some v) d l s h =
      let one : held d ≡ weight (get v "PreviewId") = ap (λ o. weigh (cancellation o)) s in
      if_twice (After l none) d.busy (none, d) (none, invalidate_preview d)
        (
          some (ticket (apply_member (get v "PreviewId")) (invalidate_preview d)),
          waiting (invalidate_preview d),
        )
        (omega (arith, h)) (omega (arith, h, one))

  abbrev Plans : Option Question → Type 0
  Plans o = (q : Question) → o ≡ some q → applied_in q ≡ 0

  plan_member-Plans :
      (run operation : String) (sql : Option SqlPlan) → Plans (some (plan_member run operation sql))
  plan_member-Plans run operation sql q h =
      subst (λ x. applied_in x ≡ 0) (some_injective (plan_member run operation sql) q h) refl

  module _ (number_of : String → Value) where
    member_question-Plans : (m : Member) → Plans (member_question number_of m)
    unfolding member_question
    member_question-Plans m =
        let none-Plans : Plans none = λ q h. cc in
        if_any Plans (str_eq m.run "") none _ none-Plans (
          if_any Plans (str_eq m.action "Consume") _ _
            (if_any Plans (is_nil (trim (codes m.media))) none _ none-Plans
              (plan_member-Plans m.run m.action _))
            (plan_member-Plans m.run m.action none))

    policy_question-Plans :
        (o : Option (Policy Value)) (q : Question) → policy_question o ≡ some q → applied_in q ≡ 0
    policy_question-Plans none q h = cc
    policy_question-Plans (some p) q h =
        subst (λ x. applied_in x ≡ 0) (some_injective (plan_policy p) q h) refl

    pub handle-After :
        (e : Event) (d : Dialog) (l : Ledger)
        → l.arrived ≡ l.cancelled + l.applied + held d
        → After l
            (handle number_of e d).0.cancel
            ((handle number_of e d).0.ask, (handle number_of e d).1)
    unfolding handle
    handle-After open_dialog d l h = given_up-After read d _ l refl refl h
    handle-After close_dialog d l h = omega (arith, h)
    handle-After press_read d l h = given_up-After read d _ l refl refl h
    handle-After (type_policy policy) d l h = omega (arith, h)
    handle-After submit_policy d l h =
        ask-After (policy_question (policy_numbers number_of d.policy)) (invalidate_plan d) l none
          (policy_question-Plans (policy_numbers number_of d.policy)) (omega (arith, h))
    handle-After press_apply d l h = press_apply_plan-After d.plan d l h
    handle-After (type_member member) d l h = omega (arith, h)
    handle-After press_cancel d l h = omega (arith, h)
    handle-After submit_member d l h =
        ask-After (member_question number_of d.member) (invalidate_preview d) l
          (cancellation d.preview) (member_question-Plans d.member) (omega (arith, h))
    handle-After press_apply_member d l h = press_apply_preview-After d.preview d l refl h

  -- The weight of a result, as a preview.
  preview_of-weight : (v : Value) → weigh (cancellation (preview_of v)) ≡ weight (get v "PreviewId")
  preview_of-weight undefined = refl
  preview_of-weight null = refl
  preview_of-weight (bool true) = refl
  preview_of-weight (bool false) = refl
  preview_of-weight (num n) =
      if_any (λ o. weigh (cancellation o) ≡ 0) (truthy (num n)) (some (num n)) none refl refl
  preview_of-weight (negative n) = refl
  preview_of-weight (fraction t) = refl
  preview_of-weight (str t) =
      if_any (λ o. weigh (cancellation o) ≡ 0) (truthy (str t)) (some (str t)) none refl refl
  preview_of-weight (arr vs) = refl
  preview_of-weight (obj fs) = refl

  -- The preview that an answer makes the dialog give up or hold.
  abbrev pub Received : ℕ → Ledger → Option Value × Dialog → Type 0
  Received n l r = l.arrived + n ≡ l.cancelled + weigh r.0 + l.applied + held r.1

  module _ (shown_text : Value → String) where
    render-preview : (v : Value) (d : Dialog) → (render shown_text v d).preview ≡ d.preview
    unfolding render
    render-preview v d = if_any (λ x. x.preview ≡ d.preview) (can_render v) _ (fail d) refl refl

    render-held : (v : Value) (d : Dialog) → held (render shown_text v (invalidate_preview d)) ≡ 0
    render-held v d = ap (λ o. weigh (cancellation o)) (render-preview v (invalidate_preview d))

    receive_plan-Received :
        (v : Value) (d : Dialog) (l : Ledger)
        → d.preview ≡ none
        → l.arrived ≡ l.cancelled + l.applied + held d
        → Received (weight (get v "PreviewId")) l (
            if has_properties v
            then (none, record d { preview = preview_of v })
            else (none, fail (invalidate_preview d)))
    receive_plan-Received v d l n h =
        let empty : held d ≡ 0 = ap (λ o. weigh (cancellation o)) n in
        elim (Bool-cases (has_properties v)) [
          | inl e ↦ let now = preview_of-weight v in rw e (omega (arith, h, empty, now))
          | inr e ↦
              let nothing : weight (get v "PreviewId") ≡ 0 = ap weight (unreadable v e) in
              rw e (omega (arith, h, empty, nothing))
        ]

    pub receive-Received :
        (q : Question) (o : Outcome) (d : Dialog) (l : Ledger)
        → IsAskedFor d q
        → l.arrived ≡ l.cancelled + l.applied + held d
        → Received (brought q o) l (receive shown_text q o d)
    unfolding receive
    receive-Received (plan_member run operation sql) (result v) d l f h =
        receive_plan-Received v d l f h
    receive-Received read (result v) d l f h =
        let empty = render-held v d in omega (arith, h, empty)
    receive-Received (apply_policy plan) (result v) d l f h =
        let empty = render-held v d in omega (arith, h, empty)
    receive-Received (plan_policy values) (result v) d l f h =
        if_any (Received 0 l) (is_policy_plan v) (none, record d { plan = some v }) (none, fail d)
          (omega (arith, h)) (omega (arith, h))
    receive-Received (apply_member preview) (done v view) d l f h =
        let empty = render-held view d in
        if_any (Received 0 l) (has_properties v)
          (cancellation d.preview, render shown_text view (invalidate_preview d))
          (cancellation d.preview, fail (render shown_text view (invalidate_preview d)))
          (omega (arith, h, empty)) (omega (arith, h, empty))
    receive-Received (apply_member preview) (result v) d l f h = omega (arith, h)
    receive-Received read (done v view) d l f h = omega (arith, h)
    receive-Received (apply_policy plan) (done v view) d l f h = omega (arith, h)
    receive-Received (plan_policy values) (done v view) d l f h = omega (arith, h)
    receive-Received (plan_member run operation sql) (done v view) d l f h = omega (arith, h)
    receive-Received read failed d l f h = omega (arith, h)
    receive-Received (apply_policy plan) failed d l f h = omega (arith, h)
    receive-Received (plan_policy values) failed d l f h = omega (arith, h)
    receive-Received (plan_member run operation sql) failed d l f h = omega (arith, h)
    receive-Received (apply_member preview) failed d l f h = omega (arith, h)
