-- ===== src/Evaluations/Tests.antt =====
-- The theorem about the plan of an evaluation's replacement at a concrete run.
use sql_server_lab.Prelude.{String, Bool, true, false, [], ◌∷◌, none, some, ◌≡◌, refl}
use sql_server_lab.Js.{
  Value, null, bool, num, str, arr, obj, end, field, no_more, items, same_texts, is_list_of,
}
use sql_server_lab.Session.{arrived, initially, asking, receiving}
use sql_server_lab.Evaluations.{
  plan_binding, plan_head, valid_blockers, valid_date, valid_evaluation, valid_windows, valid_sql,
  valid_evaluations, valid_plan,
}
use sql_server_lab.Evaluations.Dialog.{
  Dialog, own, preview, Ticket, ask_preview, begin_preview, press_preview, handle, release, receive,
  end_request,
}
use sql_server_lab.Evaluations.Laws.{shown_refresh_fits}

abbrev run : Value
run = obj (
    field "RunId" (str "0f8fad5b-d9cb-469f-a165-70867728950e") (
      field "ScopeId" (str "0f8fad5b-d9cb-469f-a165-70867728950e") (
        field "InstanceId" (str "sql1") (
          field "State" (str "RUNNING") (
            field "Digest" (str "0123456789abcdef0123456789abcdef0123456789abcdef0123456789abcdef")
              end)))))

abbrev plan : Value
plan = obj (
    field "ContractVersion" (str "SqlServerLab.EvaluationRefreshBrowser/1.0") (
      field "Status" (str "BLOCKED") (
        field "Mode" (str "RECONSTRUCT_LAB") (
          field "RunId" (str "0f8fad5b-d9cb-469f-a165-70867728950e") (
            field "ScopeId" (str "0f8fad5b-d9cb-469f-a165-70867728950e") (
              field "InstanceId" (str "sql1") (
                field "Evaluations"
                  (arr (
                    items (
                      (obj (
                        field "Component" (str "Windows") (
                          field "Status" (str "OK") (
                            field "DeadlineSource" (str "PERSISTED_WINDOWS_ACTIVATION") (
                              field "EvidenceStatus" (str "HISTORICAL_METADATA") (
                                field "EvaluationExpiresAt" null
                                  (field "DaysRemaining" (num 5) end)))))))
                      ∷ (obj (
                          field "Component" (str "SqlServer") (
                            field "Status" (str "OK") (
                              field "DeadlineSource" (str "SQL_GUEST_OBSERVED") (
                                field "EvidenceStatus" (str "CURRENT") (
                                  field "EvaluationExpiresAt" null
                                    (field "DaysRemaining" (num 5) end)))))))
                      ∷ [])))
                  (field "Blockers"
                    (arr (
                      items (
                        (str "SQL_EVALUATION_EVIDENCE_REQUIRED")
                        ∷ (str "FULL_INSTANCE_INVENTORY_NOT_AVAILABLE")
                        ∷ [])))
                    (field "NextSteps"
                      (arr (
                        items (
                          (str "Deklarative Rekonstruktion und entbehrlichen Zustand klären.")
                          ∷ (str
                              "Datenübernahme, Gleichwertigkeit und Rückfall separat nachweisen.")
                          ∷ [])))
                      (field "SqlReadiness" (str "NOT_CHECKED") (
                        field "FreshWindowsLicenseProof" (bool false) (
                          field "FullInstanceMigration" (bool false) (
                            field "EquivalenceStatus" (str "NOT_VERIFIED") (
                              field "TransferAuthority" (str "NONE") (
                                field "Actions" (arr no_more) (
                                  field "MutationAllowed" (bool false)
                                    (field "ExecutionSupported" (bool false) end)))))))))))))))))

abbrev dialog : Dialog
dialog = record {
  revision = 4;
  busy = false;
  runs = run ∷ [];
  root = [];
  is_open = true;
  root_text = "";
  run = "0f8fad5b-d9cb-469f-a165-70867728950e";
  mode = "RECONSTRUCT_LAB";
  result = none;
}

abbrev ticket : Ticket
ticket = record { question = preview [] run "RECONSTRUCT_LAB"; revision = 4 }

abbrev never : String → Bool
never text = false

shown_refresh_fits_example :
    (v : Value) × (own dialog ≡ some v) × (valid_plan never plan v "RECONSTRUCT_LAB" ≡ true)
unfolding handle begin_preview ask_preview end_request receive release valid_plan plan_binding
    plan_head valid_blockers valid_date valid_evaluation valid_windows valid_sql valid_evaluations
    same_texts is_list_of
shown_refresh_fits_example =
    shown_refresh_fits never (record dialog { result = some plan }) [] plan
      (receiving 0 ticket (arrived 900 plan) (record dialog { busy = true }) (ticket ∷ []) refl
        (asking press_preview dialog ticket [] refl (initially dialog tt)))
      refl
