-- ===== src/Relations/Tests.antt =====
-- The component relations at concrete inputs.
use sql_server_lab.Prelude.{true, false, [], ◌∷◌, none, some, ◌≡◌, refl, arith}
use sql_server_lab.Js.{Value, bool, str, arr, obj, no_more, items, field, end, get, text_of}
use sql_server_lab.Session.{arrived, initially, quietly, asking, receiving}
use sql_server_lab.Relations.{valid_preview}
use sql_server_lab.Relations.Draft.{is_refused, add_to}
use sql_server_lab.Relations.Dialog.{
  Dialog, own, preview, Ticket, press_preview, press_add, press_add_for, added, render_choices,
  choices, ask_preview, receive, release, end_request, handle,
}
use sql_server_lab.Relations.Sound.{IsSound}
use sql_server_lab.Relations.Laws.{drafts_keep_rules, shown_relations_fit}

abbrev run_1 : Value
run_1 = obj (
    field "RunId" (str "0f8fad5b-d9cb-469f-a165-70867728950e") (
      field "ScopeId" (str "0f8fad5b-d9cb-469f-a165-70867728950e") (
        field "Digest" (str "0123456789abcdef0123456789abcdef0123456789abcdef0123456789abcdef") (
          field "State" (str "RUNNING") (
            field "Instances"
              (arr (
                items (
                  (obj (
                    field "Id" (str "a")
                      (field "Provider" (str "docker") (field "Version" (str "2025") end))))
                  ∷ [])))
              end)))))

abbrev run_2 : Value
run_2 = obj (
    field "RunId" (str "1f8fad5b-d9cb-469f-a165-70867728950e") (
      field "ScopeId" (str "0f8fad5b-d9cb-469f-a165-70867728950e") (
        field "Digest" (str "0123456789abcdef0123456789abcdef0123456789abcdef0123456789abcdef") (
          field "State" (str "RUNNING") (
            field "Instances"
              (arr (
                items (
                  (obj (
                    field "Id" (str "b")
                      (field "Provider" (str "docker") (field "Version" (str "2025") end))))
                  ∷ [])))
              end)))))

abbrev previewed : Value
previewed = obj (
    field "ContractVersion" (str "SqlServerLab.ComponentRelationBrowser/1.0") (
      field "MutationAllowed" (bool false) (
        field "ExecutionSupported" (bool false) (
          field "SqlReadiness" (str "NOT_CHECKED") (
            field "SharedRemovalPolicy" (str "PRESERVE") (
              field "RunId" (str "0f8fad5b-d9cb-469f-a165-70867728950e") (
                field "Mode" (str "COMPONENT_RELATIONS_PLAN_ONLY") (
                  field "Actions" (arr no_more) (
                    field "Status" (str "NO_RELATION_CHANGE")
                      (field "PrerequisiteOrder" (arr no_more) end))))))))))

abbrev start : Dialog
start = record {
  revision = 3;
  busy = false;
  runs = run_1 ∷ run_2 ∷ [];
  draft = [];
  root = [];
  is_open = true;
  root_text = "";
  run = "0f8fad5b-d9cb-469f-a165-70867728950e";
  source = "a";
  target = record { run = "1f8fad5b-d9cb-469f-a165-70867728950e"; instance_id = "b" };
  result = none;
}

drafts_keep_rules_example :
    IsSound "0f8fad5b-d9cb-469f-a165-70867728950e" (handle press_add start).1.draft
unfolding handle press_add_for added add_to is_refused render_choices choices
drafts_keep_rules_example =
    drafts_keep_rules (handle press_add start).1 [] run_1
      (quietly press_add start [] refl (initially start ((omega arith, tt, λ s e. cc, tt), tt)))
      refl

abbrev ticket : Ticket
ticket = record { question = preview [] run_1 [] (run_1 ∷ []); revision = 3 }

abbrev waiting : Dialog
waiting = record start { busy = true }

abbrev shown : Dialog
shown = record start { result = some previewed }

shown_relations_fit_example :
    (v : Value) × (own shown ≡ some v) × (valid_preview previewed (text_of (get v "RunId")) ≡ true)
unfolding handle ask_preview end_request release receive valid_preview
shown_relations_fit_example =
    shown_relations_fit shown [] previewed
      (receiving 0 ticket (arrived 90 previewed) waiting (ticket ∷ []) refl (
        asking press_preview start ticket [] refl
          (initially start ((omega arith, tt, λ s e. cc, tt), tt))))
      refl
