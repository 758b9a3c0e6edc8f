-- ===== src/Groups/Tests.antt =====
-- The theorems about the dialog of environment groups at concrete inputs.
use sql_server_lab.Prelude.{
  if◌then◌else◌, true, false, not, ◌&&◌, [], ◌∷◌, some, ◌≡◌, refl, inl, is_nil,
}
use sql_server_lab.Js.{Value, null, str, arr, obj, no_more, item, field, end, get, array_of}
use sql_server_lab.Js.Patterns.{guid_rfc}
use sql_server_lab.Groups.{valid_view, valid_group}
use sql_server_lab.Groups.Cards.{card, render, in_progress, is_stopped}
use sql_server_lab.Groups.Dialog.{
  Dialog, idle, reading, outdated, begin_read, end_read, open_dialog, close_dialog, send_command,
  answer, handle, run,
}
use sql_server_lab.Groups.Late.{outdated_read}
use sql_server_lab.Groups.Laws.{IsTrusted, run-IsTrusted, offers, offers_in_rows, card-offers}

abbrev group : Value
group = obj (
    field "groupId" (str "0f8fad5b-d9cb-469f-a165-70867728950e") (
      field "name" (str "Lab") (
        field "createdAt" (str "2026-01-01") (
          field "lifecycleState" (str "STOPPED")
            (field "operation" null (field "members" (arr no_more) end))))))

abbrev view : Value
view = obj (
    field "contractVersion" (str "SqlServerLab.EnvironmentGroups.BrowserView/1.0")
      (field "groups" (arr (item group no_more)) end))

abbrev dialog : Dialog
dialog = record {
  generation = 3;
  active_request = true;
  read_disabled = true;
  is_open = true;
  status = idle;
  list = [];
}

run-IsTrusted_example : IsTrusted (run (answer 3 (some view) ∷ close_dialog ∷ []) dialog)
run-IsTrusted_example = run-IsTrusted (answer 3 (some view) ∷ close_dialog ∷ []) dialog (inl refl)

abbrev idle_dialog : Dialog
idle_dialog = record dialog { active_request = false }

abbrev reading_dialog : Dialog
reading_dialog = record dialog {
  active_request = true;
  read_disabled = true;
  generation = 4;
  status = reading;
}

-- A command is sent while a read waits, and the dialog opened again.
abbrev reopened : Dialog
reopened = run (open_dialog ∷ []) (handle send_command (run [] reading_dialog))

outdated_read_example :
    ((end_read 4 (some view) reopened).list ≡ reopened.list)
    × ((end_read 4 (some view) reopened).status
        ≡ (if reopened.is_open then outdated else reopened.status))
unfolding begin_read
outdated_read_example =
    outdated_read idle_dialog reading_dialog 4 [] (open_dialog ∷ []) (some view) refl

card-offers_example :
    (offers "Start" (card group).commands ≡ (
      not (in_progress group) && is_stopped group && not (is_nil (array_of (get group "members")))))
    × (offers "Stop" (card group).commands ≡ (not (in_progress group) && not (is_stopped group)))
    × (offers_in_rows "RemoveMember" (card group).members ≡ (
        is_stopped group
        && not (in_progress group)
        && not (is_nil (array_of (get group "members")))))
    × ((card group).membership_editor ≡ (not (in_progress group) && is_stopped group))
card-offers_example = card-offers group

-- The view is shown by a current answer.
shown : is_nil (end_read 3 (some view) dialog).list ≡ false
unfolding end_read valid_view valid_group guid_rfc render card
shown = refl
