-- ===== src/Removal/Tests.antt =====
-- The theorems about the removal of run metadata at concrete inputs.
use sql_server_lab.Prelude.{
  if◌then◌else◌, String, true, false, List, [], ◌∷◌, none, some, ◌≡◌, refl,
}
use sql_server_lab.Js.{Value, null, bool, num, str, obj, end, field, get, text_of}
use sql_server_lab.Js.Patterns.{guid, hex}
use sql_server_lab.Removal.{
  contract, is_guid, is_about, preview_head, is_ready, ready_tail, preview_tail, valid_preview,
}
use sql_server_lab.Removal.Dialog.{
  read, preview, apply, Dialog, Ticket, apply_run, preview_run, blank, answered, Event, open_dialog,
  close_dialog, press, confirm, answer, begin_request, end_request, receive, take_reply, handle,
  run, is_permitted, payload_of, is_apply, invalidate, selected_target, run_of, waiting_dialog,
  controls,
}
use sql_server_lab.Removal.Late.{late_answer_ignored}
use sql_server_lab.Removal.Laws.{removal_is_bound, removal_blocks}

abbrev run_id : String
run_id = "0f8fad5b-d9cb-469f-a165-70867728950e"

abbrev token : String
token = "0123456789abcdef0123456789abcdef"

abbrev ready : Value
ready = obj (
    field "ContractVersion" (str contract) (
      field "RunId" (str run_id) (
        field "Status" (str "READY") (
          field "CanApply" (bool true) (
            field "FileCount" (num 3)
              (field "ReasonCode" null (field "PreviewToken" (str token) end)))))))

abbrev dialog : Dialog
dialog = record {
  revision = 5;
  targets = obj (field "RunId" (str run_id) end) ∷ [];
  preview = none;
  busy = false;
  pending_apply = false;
  is_open = true;
  selected = some 0;
  confirmed = false;
  result = blank;
}

abbrev events : List Event
events =
    press preview
    ∷ answer (record { action = preview; run_id = run_id; current = 6 }) (answered 400 ready)
    ∷ confirm true
    ∷ []

abbrev applying : Ticket
applying = record { action = apply; run_id = run_id; current = 7 }

removal_is_bound_example :
    (v : Value) × ((run events dialog).preview ≡ some v)
    × (valid_preview v (run_of (selected_target (run events dialog))) ≡ true)
    × (is_ready v ≡ true)
    × ((run events dialog).confirmed ≡ true)
    × (apply_run run_id token
        ≡ apply_run (run_of (selected_target (run events dialog))) (text_of (get v "PreviewToken")))
unfolding run handle invalidate begin_request end_request take_reply receive is_permitted payload_of
    is_apply valid_preview is_about preview_head is_ready ready_tail preview_tail is_guid guid hex
    waiting_dialog
removal_is_bound_example =
    removal_is_bound events dialog applying (apply_run run_id token)
      (waiting_dialog apply (run events dialog)) tt refl

abbrev removing : Dialog
removing = record dialog { pending_apply = true; busy = true }

removal_blocks_example :
    begin_request read (run (close_dialog ∷ open_dialog ∷ press read ∷ []) removing) ≡ none
removal_blocks_example =
    removal_blocks (close_dialog ∷ open_dialog ∷ press read ∷ []) removing read
      (refl, (refl, (refl, tt))) refl

-- A preview is asked for and the dialog closed and opened again before its answer comes.
abbrev asked : Ticket
asked = record { action = preview; run_id = run_id; current = 6 }

abbrev reopened : Dialog
reopened = run (open_dialog ∷ []) (handle close_dialog (run [] (waiting_dialog preview dialog)))

late_answer_ignored_example : end_request asked (answered 400 ready) reopened ≡ record reopened {
  pending_apply = if is_apply asked.action then false else reopened.pending_apply;
}
unfolding begin_request is_permitted payload_of waiting_dialog
late_answer_ignored_example =
    late_answer_ignored preview dialog (waiting_dialog preview dialog) asked (preview_run run_id)
      (answered 400 ready) [] (open_dialog ∷ []) close_dialog refl refl

-- Closing the display of a removal leaves the other controls disabled.
blocked : (controls (run (close_dialog ∷ open_dialog ∷ []) removing)).read ≡ false
unfolding controls run handle invalidate
blocked = refl
