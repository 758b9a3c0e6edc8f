-- ===== src/Slots/Tests.antt =====
-- The slot reserve at concrete inputs.
use sql_server_lab.Prelude.{String, true, false, [], ◌∷◌, none, some, ◌≡◌, refl, ◌+◌}
use sql_server_lab.Js.{Value, num, str, obj, field, end}
use sql_server_lab.Session.{initially, quietly, asking, receiving}
use sql_server_lab.Slots.{
  Policy, Member, Dialog, plan_member, Ticket, begin_request, receive, release, end_request,
  member_question, press_cancel, submit_member, handle, result,
}
use sql_server_lab.Slots.Laws.{Account, held}
use sql_server_lab.Slots.Runs.{previews_kept}

abbrev shown_text : Value → String
shown_text (str s) = s
shown_text _ = ""

abbrev number_of : String → Value
number_of s = num 2

abbrev member : Member
member = record {
  run = "run-1";
  action = "Verify";
  version = "";
  media = "";
  cpu = "2";
  memory = "4096";
}

abbrev policy : Policy String
policy = record { windows = ""; sql = ""; minimum = ""; warning = "" }

abbrev start : Dialog
start = record {
  revision = 1;
  busy = false;
  state = none;
  plan = none;
  preview = none;
  is_open = true;
  policy = policy;
  member = member;
}

abbrev previewed : Value
previewed = obj (
    field "PreviewId" (str "p-1") (field "Action" (str "Verify") (field "RunId" (str "run-1") end)))

abbrev nothing_yet : Account
nothing_yet = record { dialog = start; ledger = record { arrived = 0; cancelled = 0; applied = 0 } }

abbrev asked : Ticket
asked = record { question = plan_member "run-1" "Verify" none; current = 2 }

abbrev asking_plan : Account
asking_plan = record nothing_yet { dialog = record start { revision = 2; busy = true } }

abbrev holding : Account
holding = record {
  dialog = record start { revision = 2; preview = some previewed };
  ledger = record { arrived = 1; cancelled = 0; applied = 0 };
}

abbrev given_up : Account
given_up = record {
  dialog = record start { revision = 2 };
  ledger = record { arrived = 1; cancelled = 1; applied = 0 };
}

previews_kept_example : 1 ≡ 1 + 0 + held "p-1" given_up.dialog
unfolding handle member_question begin_request receive release end_request
previews_kept_example = previews_kept shown_text number_of "p-1" given_up [] refl (
    quietly press_cancel holding [] refl (
      receiving 0 asked (result previewed) asking_plan (asked ∷ []) refl
        (asking submit_member nothing_yet asked [] refl (initially nothing_yet refl))))
