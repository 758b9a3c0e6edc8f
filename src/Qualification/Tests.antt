-- ===== src/Qualification/Tests.antt =====
-- The live check of TLS at concrete inputs.
use sql_server_lab.Prelude.{
  ℕ, zero, suc, true, false, [], ◌∷◌, Option, none, some, ◌≡◌, refl, ◌<◌, if◌then◌else◌, arith,
}
use sql_server_lab.Js.{
  Value, null, bool, num, str, arr, obj, items, field, end, is_str, is_list_of, same_texts,
}
use sql_server_lab.Js.Coerce.{text_value, element_text}
use sql_server_lab.Js.Patterns.{hex}
use sql_server_lab.Session.{Answer, arrived, initially, asking, receiving}
use sql_server_lab.Qualification.{Target, valid, profile_agrees, result_head, in_order}
use sql_server_lab.Qualification.Polling.{
  pending, observe, is_acceptance, check_result, check_result-Ends, Ends, check_result_found,
}
use sql_server_lab.Qualification.Page.{
  initial, checking, confirmed, Control, Page, Ticket, press_control, release, finished, end_check,
  press_check, handle,
}
use sql_server_lab.Qualification.Laws.{ControlsFit, shown_checks_fit}

abbrev target : Target
target = record {
  run_id = "0f8fad5b-d9cb-469f-a165-70867728950e";
  instance_id = "sql1";
  provider = "docker";
  settings = null;
}

abbrev checked : Value
checked = obj (
    field "ContractVersion" (str "SqlServerLab.TlsLiveQualificationResult/0.1") (
      field "Status" (str "QUALIFIED_AT_OBSERVATION") (
        field "RunId" (str "0f8fad5b-d9cb-469f-a165-70867728950e") (
          field "InstanceId" (str "sql1") (
            field "Provider" (str "docker") (
              field "SqlVersion" (str "2025") (
                field "Patch" (str "cu9") (
                  field "SqlBuild" (str "17.0.5005.3") (
                    field "Encrypt" (bool true) (
                      field "TrustServerCertificate" (bool false) (
                        field "QualifiedAtUtc" (str "qualified") (
                          field "ObservedAtUtc" (str "observed") (
                            field "ExpiresAtUtc" (str "expires") (
                              field "ClientChecks"
                                (arr (
                                  items ((str "SYSTEM_DATA_SQLCLIENT") ∷ (str "ODBC_SQLCMD") ∷ [])))
                                (field "Evidence" (str "FRESH_NATIVE_SQLCLIENT_AND_ODBC_SQLCMD") (
                                  field "WireCertificateFingerprint" (str "NOT_OBSERVED")
                                    end))))))))))))))))

abbrev time_of : Value → Option ℕ
time_of v =
    if is_str v "qualified"
    then some 1100
    else if is_str v "observed"
    then some 1200
    else if is_str v "expires"
    then some 5000
    else none

abbrev control : Control
control = record { target = target; disabled = false; status = initial }

abbrev page : Page
page = record { generation = 4; pending = false; available = true; controls = control ∷ [] }

abbrev ticket : Ticket
ticket = record { index = 0; target = target; call_generation = 6; started = 1000 }

abbrev waiting : Page
waiting = record page {
  generation = 6;
  pending = true;
  controls = record control { disabled = true; status = checking } ∷ [];
}

abbrev shown : Page
shown = record page {
  generation = 6;
  controls = record control { status = confirmed checked } ∷ [];
}

shown_checks_fit_example : ControlsFit time_of shown.controls
unfolding handle press_control end_check release valid profile_agrees result_head in_order
    is_list_of same_texts
shown_checks_fit_example = shown_checks_fit time_of shown [] (
    receiving 0 ticket (finished checked 1300) waiting (ticket ∷ []) refl
      (asking (press_check 0 1000) page ticket [] refl (initially page (tt, tt))))

abbrev id : Value
id = str "0123456789abcdef0123456789abcdef"

abbrev pending_job : Value
pending_job =
    obj (field "Id" (str "0123456789abcdef0123456789abcdef") (field "Status" (str "PENDING") end))

abbrev complete_job : Value
complete_job = obj (
    field "Id" (str "0123456789abcdef0123456789abcdef")
      (field "Status" (str "COMPLETE") (field "Result" (num 7) end)))

abbrev answers : ℕ → Answer
answers zero = arrived 90 pending_job
answers (suc n) = arrived 90 complete_job

abbrev accepted : Value
accepted =
    obj (field "Id" (str "0123456789abcdef0123456789abcdef") (field "Status" (str "ACCEPTED") end))

check_result-Ends_example : Ends (check_result 301 (arrived 60 accepted) answers)
check_result-Ends_example = check_result-Ends 301 (arrived 60 accepted) answers (omega arith)

pending_first : (i : ℕ) → i < 1 → observe id (answers i) ≡ pending
unfolding observe
pending_first zero h = refl
pending_first (suc i) h = absurd (omega (arith, h))

check_result_found_example :
    check_result 301 (arrived 60 accepted) answers
    ≡ some (record { polls = 2; result = some (num 7) })
unfolding is_acceptance hex observe text_value element_text
check_result_found_example =
    check_result_found 301 60 accepted answers 1 (num 7) (omega arith) refl (omega arith)
      pending_first refl
