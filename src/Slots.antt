-- ===== src/Slots.antt =====
-- The slot reserve of Ui/app.js: its policy and the members of the pool, from slotReserveState to
-- the handlers of slot-member-apply. Texts that are only shown are left out.
pub mod Laws
pub mod Asking
pub mod Runs
mod Tests
use sql_server_lab.Prelude.{
  ℕ, suc, String, Bool, true, false, not, ◌&&◌, ◌||◌, List, [], ◌∷◌, Option, none, some, all,
  is_nil, str_eq, ◌==◌, if◌then◌else◌,
}
use sql_server_lab.Js.{
  Value, undefined, null, num, negative, get, is_str, is_array, array_of, truthy, codes,
}
use sql_server_lab.Js.Patterns.{trim}

-- The inputs of the policy, and those of a member.
pub record Policy (A : Type 0) : Type 0 where
  pub windows : A
  pub sql : A
  pub minimum : A
  pub warning : A

pub record Member : Type 0 where
  pub run : String
  pub action : String
  pub version : String
  pub media : String
  pub cpu : String
  pub memory : String

pub record Dialog : Type 0 where
  pub revision : ℕ
  pub busy : Bool
  pub state : Option Value
  pub plan : Option Value
  pub preview : Option Value
  pub is_open : Bool
  pub policy : Policy String
  pub member : Member

abbrev is_some : Option Value → Bool
is_some none = false
is_some (some v) = true

-- `slotReserveState && slotReserveState.Configuration.Status !== 'INVALID'`.
abbrev is_usable : Option Value → Bool
is_usable none = false
is_usable (some v) = not (is_str (get (get v "Configuration") "Status") "INVALID")

abbrev changes : Option Value → Bool
changes none = false
changes (some plan) = not (truthy (get plan "IsNoOp"))

-- updateSlotReserveControls: which controls are not disabled.
pub record Enabled : Type 0 where
  pub inputs : Bool
  pub apply : Bool
  pub read : Bool
  pub apply_member : Bool
  pub cancel : Bool

unfoldable pub controls : Dialog → Enabled
controls d =
    let ready = is_usable d.state && not d.busy in
    record {
      inputs = ready;
      apply = not (not ready || not (is_some d.plan) || not (changes d.plan));
      read = not d.busy;
      apply_member = not (not ready || not (is_some d.preview));
      cancel = not (d.busy || not (is_some d.preview));
    }

-- What the dialog asks the server. A plan for a member may name the plan of its SQL installation.
pub record SqlPlan : Type 0 where
  pub version : String
  pub media : List ℕ
  pub processors : Value
  pub memory : Value

pub data Question : Type 0 where
  read : Question
  plan_policy : Policy Value → Question
  apply_policy : Value → Question
  plan_member : String → String → Option SqlPlan → Question
  apply_member : Value → Question

pub record Ticket : Type 0 where
  pub question : Question
  pub current : ℕ

-- What an event or an answer sends: a request that is waited for, and the cancellation of a
-- preview, whose outcome nobody looks at.
pub record Sent : Type 0 where
  pub ask : Option Ticket
  pub cancel : Option Value

abbrev pub nothing : Sent
nothing = record { ask = none; cancel = none }

-- `PreviewId` of the preview that is given up, if there is one.
abbrev pub cancellation : Option Value → Option Value
cancellation none = none
cancellation (some v) = some (get v "PreviewId")

-- invalidateSlotReservePlan.
abbrev pub invalidate_plan : Dialog → Dialog
invalidate_plan d = record d { plan = none }

-- invalidateSlotMemberPreview; the cancellation is `cancellation d.preview`.
abbrev pub invalidate_preview : Dialog → Dialog
invalidate_preview d = record d { preview = none }

abbrev pub ticket : Question → Dialog → Ticket
ticket q d = record { question = q; current = suc d.revision }

abbrev pub waiting : Dialog → Dialog
waiting d = record d { revision = suc d.revision; busy = true }

-- The first half of runSlotReserveRequest.
unfoldable pub begin_request : Question → Dialog → Option Ticket × Dialog
begin_request q d = if d.busy then (none, d) else (some (ticket q d), waiting d)

abbrev pub sending : Option Value → Option Ticket × Dialog → Sent × Dialog
sending cancelled r = (record { ask = r.0; cancel = cancelled }, r.1)

-- A property of null or undefined cannot be read; the attempt is caught.
abbrev pub has_properties : Value → Bool
has_properties undefined = false
has_properties null = false
has_properties _ = true

-- Whether renderSlotReserve reads nothing of null or undefined.
unfoldable pub can_render : Value → Bool
can_render view =
    has_properties view
    && has_properties (get view "Configuration")
    && (not (truthy (get view "Rows"))
        || (is_array (get view "Rows") && all has_properties (array_of (get view "Rows"))))

unfoldable pub is_policy_plan : Value → Bool
is_policy_plan plan = has_properties plan && has_properties (get plan "Policy")

-- `catch`, for a current request in an open dialog.
abbrev pub fail : Dialog → Dialog
fail d = record d { state = none; plan = none }

-- The preview that a result is: a falsy one counts as none wherever it is looked at.
abbrev pub preview_of : Value → Option Value
preview_of v = if truthy v then some v else none

-- What comes back: nothing that can be used, the `Result` of a request, or the `Result` of a
-- member's action with the view that is read afterwards.
pub data Outcome : Type 0 where
  failed : Outcome
  result : Value → Outcome
  done : Value → Value → Outcome

-- What is done with a late result: a preview in it is cancelled.
unfoldable pub late : Outcome → Option Value
late (result v) = if truthy (get v "PreviewId") then some (get v "PreviewId") else none
late _ = none

-- `finally`.
unfoldable pub release : Ticket → Dialog → Dialog
release t d = if t.current == d.revision then record d { busy = false } else d

abbrev pub ask : Option Question → Dialog → Option Ticket × Dialog
ask none d = (none, d)
ask (some q) d = begin_request q d

-- The handlers of the two buttons that apply something.
unfoldable pub press_apply_plan : Option Value → Dialog → Option Ticket × Dialog
press_apply_plan none d = (none, d)
press_apply_plan (some plan) d =
    if d.busy then (none, d) else begin_request (apply_policy plan) (invalidate_plan d)

unfoldable pub press_apply_preview : Option Value → Dialog → Option Ticket × Dialog
press_apply_preview none d = (none, d)
press_apply_preview (some v) d =
    if d.busy
    then (none, d)
    else begin_request (apply_member (get v "PreviewId")) (invalidate_preview d)

pub data Event : Type 0 where
  open_dialog close_dialog press_read press_apply press_cancel press_apply_member : Event
  submit_policy submit_member : Event
  type_policy : Policy String → Event
  type_member : Member → Event

abbrev pub policy_question : Option (Policy Value) → Option Question
policy_question none = none
policy_question (some p) = some (plan_policy p)

abbrev is_integer : Value → Bool
is_integer (num n) = true
is_integer (negative n) = true
is_integer _ = false

-- `shown_text` is the text that an input shows of a value.
module _ (shown_text : Value → String) where
  -- renderSlotReserve, without the preview that it gives up.
  unfoldable pub render : Value → Dialog → Dialog
  render view d =
      if can_render view
      then record d {
        state = some view;
        plan = none;
        policy = record {
          windows = shown_text (get (get (get view "Configuration") "Policy") "WindowsReserve");
          sql = shown_text (get (get (get view "Configuration") "Policy") "SqlReserve");
          minimum =
              shown_text (get (get (get view "Configuration") "Policy") "MinimumDaysRemaining");
          warning =
              shown_text (get (get (get view "Configuration") "Policy") "WarningDaysRemaining");
        };
        member = record d.member { run = "" };
      }
      else fail d

  -- The `receive` of a request, or `catch`, for a current request in an open dialog; with the
  -- preview that is given up.
  unfoldable pub receive : Question → Outcome → Dialog → Option Value × Dialog
  receive q failed d = (none, fail d)
  receive read (result v) d = (cancellation d.preview, render v (invalidate_preview d))
  receive (apply_policy plan) (result v) d =
      (cancellation d.preview, render v (invalidate_preview d))
  receive (plan_policy values) (result v) d =
      if is_policy_plan v then (none, record d { plan = some v }) else (none, fail d)
  receive (plan_member run operation sql) (result v) d =
      if has_properties v
      then (none, record d { preview = preview_of v })
      else (none, fail (invalidate_preview d))
  receive (apply_member preview) (done v view) d =
      if has_properties v
      then (cancellation d.preview, render view (invalidate_preview d))
      else (cancellation d.preview, fail (render view (invalidate_preview d)))
  -- the other pairs do not occur: every question has outcomes of one kind
  receive _ _ d = (none, d)

  -- The second half of runSlotReserveRequest, with the preview that it cancels.
  unfoldable pub end_request : Ticket → Outcome → Dialog → Option Value × Dialog
  end_request t o d =
      if t.current == d.revision && d.is_open
      then ((receive t.question o d).0, release t (receive t.question o d).1)
      else (late o, release t d)

-- `number_of` is `Number(text)`; what is not a number is no `num`.
module _ (number_of : String → Value) where
  -- The numbers of the policy, if all four are integers.
  abbrev is_number_text : String → Bool
  is_number_text t = not (str_eq t "") && is_integer (number_of t)

  unfoldable pub policy_numbers : Policy String → Option (Policy Value)
  policy_numbers p =
      if is_number_text p.windows
        && is_number_text p.sql
        && is_number_text p.minimum
        && is_number_text p.warning
      then some (record {
        windows = number_of p.windows;
        sql = number_of p.sql;
        minimum = number_of p.minimum;
        warning = number_of p.warning;
      })
      else none

  -- What is asked for a member, if the form names all that is needed.
  unfoldable pub member_question : Member → Option Question
  member_question m =
      if str_eq m.run ""
      then none
      else if str_eq m.action "Consume"
      then (if is_nil (trim (codes m.media))
          then none
          else some (
              plan_member m.run m.action (
                some (record {
                  version = m.version;
                  media = trim (codes m.media);
                  processors = number_of m.cpu;
                  memory = number_of m.memory;
                }))))
      else some (plan_member m.run m.action none)

  -- openSlotReserveDialog, readSlotReserve and the event handlers.
  unfoldable pub handle : Event → Dialog → Sent × Dialog
  handle open_dialog d = sending (cancellation d.preview) (
      begin_request read (record d {
        revision = suc d.revision;
        busy = false;
        state = none;
        plan = none;
        preview = none;
        is_open = true;
      }))
  handle close_dialog d = (
    record { ask = none; cancel = cancellation d.preview },
    record d {
      revision = suc d.revision;
      busy = false;
      plan = none;
      preview = none;
      is_open = false;
    },
  )
  handle press_read d =
      sending (cancellation d.preview) (begin_request read (invalidate_plan (invalidate_preview d)))
  handle (type_policy policy) d = (nothing, record (invalidate_plan d) { policy = policy })
  handle submit_policy d =
      sending none (ask (policy_question (policy_numbers d.policy)) (invalidate_plan d))
  handle press_apply d = sending none (press_apply_plan d.plan d)
  handle (type_member member) d = (
    record { ask = none; cancel = cancellation d.preview },
    record (invalidate_preview d) { member = member },
  )
  handle press_cancel d =
      (record { ask = none; cancel = cancellation d.preview }, invalidate_preview d)
  handle submit_member d =
      sending (cancellation d.preview) (ask (member_question d.member) (invalidate_preview d))
  handle press_apply_member d = sending none (press_apply_preview d.preview d)
