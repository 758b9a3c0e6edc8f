-- ===== src/Collations/Tests.antt =====
-- The theorem about the collation catalogue at a concrete run.
use sql_server_lab.Prelude.{true, false, [], ◌∷◌, none, some, ◌≡◌, refl}
use sql_server_lab.Js.{Value, bool, num, str, arr, obj, end, field, no_more, item}
use sql_server_lab.Js.Patterns.{no_control, collation_name, trim, trim_start}
use sql_server_lab.Session.{arrived, initially, asking, receiving}
use sql_server_lab.Collations.{
  valid, valid_row, valid_head, counts_agree, valid_input, Dialog, Ticket, begin_search, receive,
  release, end_search, press_search, handle,
}
use sql_server_lab.Collations.Laws.{shown_results_fit}

abbrev row : Value
row = obj (
    field "Name" (str "Latin1_General_CI_AS") (
      field "Locale" (str "Latin1") (
        field "CodePage" (num 1252) (
          field "Lcid" (num 1033) (
            field "CaseSensitivity" (str "CI") (
              field "AccentSensitivity" (str "AS") (
                field "Utf8" (bool false)
                  (field "Status" (str "SUPPORTED") (field "SqlVersion" (str "2025") end)))))))))

abbrev view : Value
view = obj (
    field "Contract"
      (obj (
        field "Name" (str "SqlServerLab.CollationCatalogueSearch")
          (field "Version" (str "1.0") end)))
      (field "SqlVersion" (str "2025") (
        field "Status" (str "MATCHES") (
          field "Results" (arr (item row no_more)) (
            field "ReturnedCount" (num 1) (
              field "Truncated" (bool false) (
                field "SqlValidation" (str "NOT_CHECKED") (
                  field "ExecutionSupported" (bool false) (
                    field "MutationAllowed" (bool false)
                      (field "Actions" (arr no_more) end))))))))))

abbrev dialog : Dialog
dialog = record {
  revision = 2;
  busy = false;
  is_open = true;
  sql = "2025";
  query = "latin";
  search_disabled = false;
  shown = none;
}

abbrev ticket : Ticket
ticket = record { sql = "2025"; query = "latin"; current = 3 }

abbrev waiting : Dialog
waiting = record dialog { revision = 3; busy = true; search_disabled = true }

abbrev listed : Dialog
listed = record waiting { busy = false; search_disabled = false; shown = some view }

shown_results_fit_example : valid view "2025" ≡ true
unfolding handle begin_search valid_input no_control end_search receive release valid valid_head
    counts_agree valid_row collation_name trim trim_start
shown_results_fit_example =
    shown_results_fit listed [] view
      (receiving 0 ticket (arrived 500 view) waiting (ticket ∷ []) refl
        (asking press_search dialog ticket [] refl (initially dialog tt)))
      refl
