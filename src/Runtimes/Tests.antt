-- ===== src/Runtimes/Tests.antt =====
-- The theorem about decisions on external runtimes at a concrete run.
use sql_server_lab.Prelude.{true, false, [], ◌∷◌, none, some, refl}
use sql_server_lab.Js.{Value, bool, str, arr, obj, end, field, no_more}
use sql_server_lab.Js.Patterns.{variant_id, version_number, year}
use sql_server_lab.Session.{arrived, initially, asking, receiving}
use sql_server_lab.Runtimes.{
  valid_identity, decision_shapes, decision_head, launch_known, catalog_agrees, readiness_agrees,
  valid_decision, same_variant, valid_evaluation,
}
use sql_server_lab.Runtimes.Dialog.{
  Dialog, Ticket, evaluate, valid_target, begin_for, press_evaluate, handle, release, receive,
  end_request,
}
use sql_server_lab.Runtimes.Asking.{DecisionFits, HistoryFits}
use sql_server_lab.Runtimes.Laws.{shown_answers_fit}

abbrev decision : Value
decision = obj (
    field "Contract"
      (obj (
        field "Name" (str "SqlServerLab.ExternalRuntimeCapability") (
          field "Version" (str "1.0") (
            field "EvidenceBoundary" (str "PROSPECTIVE_DECLARATION_AND_OPTIONAL_HOST_OBSERVATION")
              end))))
      (field "Provider" (str "docker") (
        field "OperatingSystem" (str "linux") (
          field "Identity"
            (obj (
              field "SoftwareId" (str "sql-r") (
                field "VariantId" (str "v1") (
                  field "RuntimeVersion" (str "4.2")
                    (field "Language" (str "R") (field "SqlVersion" (str "2022") end))))))
            (field "CatalogDecision"
              (obj
                (field "Status" (str "DECLARED_SUPPORTED") (field "ReasonCode" (str "NONE") end)))
              (field "CurrentReadiness"
                (obj (
                  field "Status" (str "NOT_CHECKED") (
                    field "ReasonCode" (str "READINESS_NOT_REQUESTED") (
                      field "RequiredCgroupVersion" (str "1")
                        (field "LaunchMode" (str "sql2022-namespace-v1") end)))))
                (field "HistoricalEvidence"
                  (obj (
                    field "Status" (str "NOT_RECORDED")
                      (field "MappingStatus" (str "NOT_DEFINED") end)))
                  (field "SqlLanguageExecution" (str "NOT_CHECKED") (
                    field "TargetAuthorization" (str "NOT_CHECKED") (
                      field "ExecutionSupported" (bool false) (
                        field "MutationAllowed" (bool false)
                          (field "Actions" (arr no_more) end))))))))))))

abbrev variant : Value
variant = obj (
    field "SoftwareId" (str "sql-r") (
      field "Language" (str "R") (
        field "VariantId" (str "v1")
          (field "RuntimeVersion" (str "4.2") (field "Decision" decision end)))))

abbrev view : Value
view = obj (
    field "ContractVersion" (str "SqlServerLab.ExternalRuntimeCapabilityBrowser/1.0")
      (field "Status" (str "DECISION") (field "Decision" decision end)))

abbrev dialog : Dialog
dialog = record {
  revision = 7;
  busy = false;
  options = variant ∷ [];
  is_open = true;
  provider = "docker";
  sql = "2022";
  choice = some 0;
  result = none;
  history = none;
}

abbrev ticket : Ticket
ticket = record {
  question = evaluate false variant;
  provider = "docker";
  sql = "2022";
  current = 8;
}

abbrev answered : Dialog
answered = record dialog { revision = 8; result = some view }

shown_answers_fit_example : DecisionFits answered (some view) × HistoryFits answered none
unfolding handle begin_for valid_target end_request receive release valid_evaluation same_variant
    valid_decision readiness_agrees catalog_agrees launch_known decision_head decision_shapes
    valid_identity variant_id version_number year
shown_answers_fit_example = shown_answers_fit answered [] (
    receiving 0 ticket (arrived 900 view) (record dialog { revision = 8; busy = true })
      (ticket ∷ []) refl
      (asking (press_evaluate false) dialog ticket [] refl (initially dialog (tt, tt))))
