-- ===== src/Builds.antt =====
-- The actions that the page offers for an image build: actionsFor, cleanupActionFor,
-- acceptanceActions and statusClass of Ui/app.js.
pub mod Laws
mod Tests
use sql_server_lab.Prelude.{
  String, Bool, true, false, not, ◌&&◌, List, [], ◌∷◌, ◌++◌, Option, none, some, str_eq, includes,
  if◌then◌else◌,
}

-- The kind that a caller names.
pub data Kind : Type 0 where
  windows sql other : Kind

-- What the functions read of a build.
pub record Build : Type 0 where
  pub state : String
  pub installation_verified : Bool
  pub provisioning_mode : String

-- A button: absent flags are `undefined`, `credential` may be absent, true or false.
pub record Button : Type 0 where
  pub label : String
  pub action : String
  pub credential : Option Bool
  pub publish : Bool
  pub cleanup : Bool
  pub published : Bool

abbrev plain : String → String → Button
plain label action = record {
  label = label;
  action = action;
  credential = none;
  publish = false;
  cleanup = false;
  published = false;
}

abbrev with_credential : Bool → String → String → Button
with_credential c label action = record (plain label action) { credential = some c }

abbrev publishing : String → String → Button
publishing label action = record (plain label action) { publish = true }

abbrev cleaning : Bool → String → String → Button
cleaning published label action = record (plain label action) {
  cleanup = true;
  published = published;
}

abbrev pub is_windows : Kind → Bool
is_windows windows = true
is_windows _ = false

abbrev pub cleanup_action : Kind → String
cleanup_action kind = if is_windows kind then "CleanupWindowsBuild" else "CleanupSqlBuild"

abbrev pub sealed_state : Kind → String
sealed_state kind = if is_windows kind then "OS_SEALED" else "SQL_PREPARED_SEALED"

-- cleanupActionFor.
pub cleanup_action_for : Kind → Build → List Button
cleanup_action_for kind item =
    if str_eq item.state "CLEANED_UP"
    then []
    else if str_eq item.state (sealed_state kind)
    then cleaning true "Build-Verlauf entfernen" (cleanup_action kind) ∷ []
    else cleaning false "Builder aufräumen" (cleanup_action kind) ∷ []

-- The branch of actionsFor for Windows builds.
pub windows_actions : Build → List Button
windows_actions item =
    if includes ("BUILDER_READY" ∷ "MANUAL_ACTION_REQUIRED" ∷ []) item.state
    then (plain "VMConnect öffnen" "OpenWindowsConsole"
        ∷ (if item.installation_verified
            then with_credential true "Windows generalisieren · Gastpasswort erforderlich"
                "GeneralizeWindowsBuild"
            else with_credential true "Windows bestätigen" "ConfirmWindowsInstall")
        ∷ [])
      ++ cleanup_action_for windows item
    else if str_eq item.state "REBOOT_REQUIRED"
    then with_credential false "Generalisierung fortsetzen" "GeneralizeWindowsBuild"
      ∷ cleanup_action_for windows item
    else if str_eq item.state "RESUME_PENDING"
    then publishing "Image veröffentlichen" "PublishWindowsBuild" ∷ cleanup_action_for windows item
    else cleanup_action_for windows item

-- The branch of actionsFor for SQL builds.
pub sql_actions : Build → List Button
sql_actions item =
    if includes ("MANUAL_ACTION_REQUIRED" ∷ "REBOOT_REQUIRED" ∷ []) item.state
    then (plain "VMConnect öffnen" "OpenSqlConsole"
        ∷ (if str_eq item.state "MANUAL_ACTION_REQUIRED"
              && str_eq item.provisioning_mode "fresh-windows-media"
              && not item.installation_verified
            then with_credential true
                "Windows prüfen und Image automatisch fertigstellen · Gastpasswort erforderlich"
                "ConfirmSqlWindowsInstall"
            else with_credential true "Automatischen Image-Abschluss fortsetzen" "PrepareSqlImage")
        ∷ [])
      ++ cleanup_action_for sql item
    else if str_eq item.state "RESUME_PENDING"
    then publishing "Prepared-Image manuell veröffentlichen (Diagnose)" "PublishSqlImage"
      ∷ cleanup_action_for sql item
    else if str_eq item.state "FAILED"
    then plain "Offline-Recovery versuchen" "ResumeSqlImage" ∷ cleanup_action_for sql item
    else cleanup_action_for sql item

-- actionsFor.
pub actions_for : Kind → Build → List Button
actions_for windows item = windows_actions item
actions_for sql item = sql_actions item
actions_for other item = []

-- acceptanceActions.
pub acceptance_actions : Build → List Button
acceptance_actions item =
    if str_eq item.state "SQL_PREPARED_SEALED"
    then cleaning true "Build-Verlauf entfernen" "CleanupSqlBuild" ∷ []
    else if str_eq item.provisioning_mode "fresh-windows-media"
    then []
    else if includes
        ("MANUAL_ACTION_REQUIRED" ∷ "OOBE_AUTOMATION_RUNNING" ∷ "OOBE_COMPLETED"
          ∷ "SQL_INSTALL_REBOOT_REQUIRED" ∷ [])
        item.state
    then plain "VMConnect öffnen" "OpenSqlConsole"
      ∷ plain
          (if str_eq item.state "SQL_INSTALL_REBOOT_REQUIRED"
            then "SQL-Setup fortsetzen"
            else "OOBE + SQL-Setup ausführen")
          "RunSqlAcceptanceSetup"
      ∷ []
    else if str_eq item.state "SQL_READY_RUN"
    then plain "SQL-Abnahme ausführen" "RunSqlAcceptanceTests" ∷ []
    else []

-- statusClass.
pub status_class : String → String
status_class state =
    if includes ("OS_SEALED" ∷ "SQL_PREPARED_SEALED" ∷ "TESTS_PASSED" ∷ []) state
    then "done"
    else if str_eq state "FAILED"
    then "failed"
    else "pending"
