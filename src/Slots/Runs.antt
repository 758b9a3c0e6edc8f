-- ===== src/Slots/Runs.antt =====
-- The dialog of the slot reserve with its ledger, as a machine: every run keeps the balance.
use sql_server_lab.Prelude.{
  ℕ, ◌+◌, String, Bool, true, false, ◌&&◌, List, Option, none, some, ◌≡◌, refl, inl, inr, ◌≤◌, ◌<◌,
  arith, Bool-cases, if_any, if◌then◌else◌, str_eq, ◌==◌, lt→neq,
}
use sql_server_lab.Js.{Value, get, is_str, truthy}
use sql_server_lab.Js.Laws.{eq_of_is_str}
use sql_server_lab.Session.{Machine, IsSafe, Reachable}
use sql_server_lab.Session.Laws.{Reachable-Fits}
use sql_server_lab.Slots.{
  Dialog, Question, read, plan_policy, apply_policy, plan_member, apply_member, Ticket,
  cancellation, invalidate_preview, has_properties, can_render, is_policy_plan, preview_of, fail,
  Outcome, failed, result, done, render, receive, late, release, end_request, Event, handle,
}
use sql_server_lab.Slots.Asking.{calm, asked}
use sql_server_lab.Slots.Laws.{
  Account, weight, weigh, held, spend, brought, brought_late, arrives, Balanced, IsAskedFor,
  handle-After, receive-Received,
}

-- `finally` changes neither the revision nor the preview.
release_keeps :
    (P : ℕ → Option Value → Type 0) (t : Ticket) (d : Dialog)
    → P d.revision d.preview
    → P (release t d).revision (release t d).preview
unfolding release
release_keeps P t d p =
    if_any (λ x. P x.revision x.preview) (t.current == d.revision) (record d { busy = false }) d p p

-- A late preview of the id is cancelled.
weigh-late :
    (id : String) (o : Outcome) → str_eq id "" ≡ false → weigh id (late o) ≡ brought_late id o
unfolding late
weigh-late id failed n = refl
weigh-late id (done v view) n = refl
weigh-late id (result v) n = elim (Bool-cases (is_str (get v "PreviewId") id)) [
  | inl e ↦ rw (eq_of_is_str (get v "PreviewId") id e, n) refl
  | inr e ↦
      if_any (λ x. weigh id x ≡ weight id (get v "PreviewId")) (truthy (get v "PreviewId"))
        (some (get v "PreviewId")) none refl (rw e refl)
]

render-revision :
    (shown_text : Value → String) (v : Value) (d : Dialog)
    → (render shown_text v d).revision ≡ d.revision
unfolding render
render-revision shown_text v d =
    if_any (λ x. x.revision ≡ d.revision) (can_render v) _ (fail d) refl refl

receive-revision :
    (shown_text : Value → String) (q : Question) (o : Outcome) (d : Dialog)
    → (receive shown_text q o d).1.revision ≡ d.revision
unfolding receive
receive-revision shown_text read (result v) d = render-revision shown_text v (invalidate_preview d)
receive-revision shown_text (apply_policy plan) (result v) d =
    render-revision shown_text v (invalidate_preview d)
receive-revision shown_text (plan_policy values) (result v) d =
    if_any (λ (x : Option Value × Dialog). x.1.revision ≡ d.revision) (is_policy_plan v)
      (none, record d { plan = some v }) (none, fail d) refl refl
receive-revision shown_text (plan_member run operation sql) (result v) d =
    if_any (λ (x : Option Value × Dialog). x.1.revision ≡ d.revision) (has_properties v)
      (none, record d { preview = preview_of v }) (none, fail (invalidate_preview d)) refl refl
receive-revision shown_text (apply_member preview) (done v view) d =
    if_any (λ (x : Option Value × Dialog). x.1.revision ≡ d.revision) (has_properties v)
      (cancellation d.preview, render shown_text view (invalidate_preview d))
      (cancellation d.preview, fail (render shown_text view (invalidate_preview d)))
      (render-revision shown_text view (invalidate_preview d))
      (render-revision shown_text view (invalidate_preview d))
receive-revision shown_text (apply_member preview) (result v) d = refl
receive-revision shown_text read (done v view) d = refl
receive-revision shown_text (apply_policy plan) (done v view) d = refl
receive-revision shown_text (plan_policy values) (done v view) d = refl
receive-revision shown_text (plan_member run operation sql) (done v view) d = refl
receive-revision shown_text read failed d = refl
receive-revision shown_text (apply_policy plan) failed d = refl
receive-revision shown_text (plan_policy values) failed d = refl
receive-revision shown_text (plan_member run operation sql) failed d = refl
receive-revision shown_text (apply_member preview) failed d = refl

module _ (shown_text : Value → String) (number_of : String → Value) (id : String) where
  abbrev pub handle_account : Event → Account → Option Ticket × Account
  handle_account e a = (
    (handle number_of e a.dialog).0.ask,
    record {
      dialog = (handle number_of e a.dialog).1;
      ledger =
          spend id (handle number_of e a.dialog).0.cancel (handle number_of e a.dialog).0.ask
            a.ledger;
    },
  )

  abbrev pub reply_account : Ticket → Outcome → Account → Account
  reply_account t o a = record {
    dialog = (end_request shown_text t o a.dialog).1;
    ledger = record a.ledger {
      arrived = a.ledger.arrived + arrives id t o a.dialog;
      cancelled = a.ledger.cancelled + weigh id (end_request shown_text t o a.dialog).0;
    };
  }

  abbrev pub accounts : Machine Account Event Ticket Outcome
  accounts = record {
    revision = λ a. a.dialog.revision;
    busy = λ a. a.dialog.busy;
    stamp = λ t. t.current;
    IsFor = λ a t. IsAskedFor a.dialog t.question;
    Fits = λ a. Balanced id a;
    handle = handle_account;
    reply = reply_account;
  }

  abbrev Stale : Account → Account → Type 0
  Stale a b =
      (b.dialog.revision ≡ a.dialog.revision)
      × (b.dialog.busy ≡ a.dialog.busy)
      × ((t : Ticket) → IsAskedFor a.dialog t.question → IsAskedFor b.dialog t.question)
      × (Balanced id a → Balanced id b)

  reply-Stale :
      (t : Ticket) (o : Outcome) (a : Account)
      → str_eq id "" ≡ false
      → t.current < a.dialog.revision
      → Stale a (reply_account t o a)
  unfolding end_request release
  reply-Stale t o a n h =
      let differ = lt→neq t.current a.dialog.revision h in
      let late = weigh-late id o n in rw differ (refl, refl, λ u f. f, λ b. omega (arith, b, late))

  abbrev Left : Account → Account → Type 0
  Left a b = (a.dialog.revision ≤ b.dialog.revision) × Balanced id b

  -- What an answer that brings `n` previews leaves.
  abbrev Ended : Account → ℕ → Option Value × Dialog → Type 0
  Ended a n r =
      (a.dialog.revision ≤ r.1.revision)
      × (a.ledger.arrived + n ≡ a.ledger.cancelled + weigh id r.0 + a.ledger.applied + held id r.1)

  released :
      (t : Ticket) (a : Account) (n : ℕ) (r : Option Value × Dialog)
      → Ended a n r
      → Ended a n (r.0, release t r.1)
  released t a n r h =
      release_keeps
        (λ k p.
          (a.dialog.revision ≤ k)
          × (a.ledger.arrived + n
              ≡ a.ledger.cancelled + weigh id r.0 + a.ledger.applied + weigh id (cancellation p)))
        t r.1 h

  chosen-Ended :
      (a : Account) (c : Bool) (m n : ℕ) (x y : Option Value × Dialog)
      → Ended a m x
      → Ended a n y
      → Ended a (if c then m else n) (if c then x else y)
  chosen-Ended a true m n x y p q = p
  chosen-Ended a false m n x y p q = q

  reply_current :
      (t : Ticket) (o : Outcome) (a : Account)
      → str_eq id "" ≡ false
      → IsAskedFor a.dialog t.question
      → Balanced id a
      → Left a (reply_account t o a)
  unfolding end_request
  reply_current t o a n f b =
      let cancelled = weigh-late id o n in
      let same = receive-revision shown_text t.question o a.dialog in
      let received = receive-Received id shown_text t.question o a.dialog a.ledger f b in
      let left =
        chosen-Ended a (t.current == a.dialog.revision && a.dialog.is_open)
          (brought id t.question o) (brought_late id o) _ _
          (released t a (brought id t.question o) (receive shown_text t.question o a.dialog)
            (omega (arith, same), received))
          (released t a (brought_late id o) (late o, a.dialog)
            (omega arith, omega (arith, b, cancelled))) in
      (left.0, omega (arith, left.1))

  accounts-IsSafe : str_eq id "" ≡ false → IsSafe accounts
  accounts-IsSafe n = record {
    calm = λ e a. calm number_of e a.dialog;
    asked = λ e a. asked number_of e a.dialog;
    handle-Fits = λ e a b. handle-After id number_of e a.dialog a.ledger b;
    stale = λ t o a h. reply-Stale t o a n h;
    current = λ t o a e f b. reply_current t o a n f b;
  }

  -- In every run of the dialog, whatever the user does while requests wait and in whatever order
  -- their answers come, of the previews with an id that is not empty as many have arrived as were
  -- cancelled, were applied, or are held; a preview arrives as the plan of a member in an open
  -- dialog that waits for it, or as the result of any request that is answered late.
  pub previews_kept :
      (a : Account) (ts : List Ticket)
      → str_eq id "" ≡ false
      → Reachable accounts a ts
      → a.ledger.arrived ≡ a.ledger.cancelled + a.ledger.applied + held id a.dialog
  previews_kept a ts n r = Reachable-Fits accounts (accounts-IsSafe n) a ts r
