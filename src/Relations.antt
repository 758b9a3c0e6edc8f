-- ===== src/Relations.antt =====
-- Proposed relations between components: Ui/component-relations.js. The contracts of the two
-- answers; Relations/Draft is the draft, Relations/Dialog the dialog.
pub mod Draft
pub mod Sound
pub mod Dialog
pub mod Asking
pub mod Laws
mod Tests
use sql_server_lab.Prelude.{
  ℕ, String, Bool, true, false, not, ◌&&◌, ◌||◌, List, [], ◌∷◌, all, map, distinct, leb, length,
  is_nil,
}
use sql_server_lab.Js.{
  Value, get, is_str, is_false, is_array, is_one_of, array_of, matches, text_of,
}
use sql_server_lab.Js.Coerce.{test_or_empty}
use sql_server_lab.Js.Patterns.{guid, hex, instance_name, exactly, is_digit, finished, literally}

-- componentRelationsGuid.
unfoldable pub is_guid : Value → Bool
is_guid v = matches guid v && not (is_str v "00000000-0000-0000-0000-000000000000")

abbrev states : List String
states =
    "INITIALIZING" ∷ "PROVISIONING" ∷ "SQL_READY" ∷ "DATABASES_CREATED" ∷ "POST_PROVISIONED"
    ∷ "RUNNING" ∷ "STOPPED" ∷ "PROVISION_FAILED" ∷ "CLEANUP_PENDING" ∷ "CLEANUP_RUNNING"
    ∷ "CLEANED_UP" ∷ "RECOVERY_REQUIRED" ∷ []

-- `/^[0-9]{4}(R2)?$/`.
unfoldable pub sql_year : List ℕ → Bool
sql_year = exactly 4 is_digit (λ cs. finished cs || literally (b'R' ∷ b'2' ∷ []) finished cs)

abbrev is_provider : Value → Bool
is_provider = is_one_of ("docker" ∷ "podman" ∷ [])

unfoldable pub valid_instance : Value → Bool
valid_instance i =
    test_or_empty instance_name (get i "Id")
    && is_provider (get i "Provider")
    && test_or_empty sql_year (get i "Version")

abbrev pub instances : Value → List Value
instances run = array_of (get run "Instances")

unfoldable pub valid_run : Value → Bool
valid_run run =
    is_guid (get run "RunId")
    && is_guid (get run "ScopeId")
    && test_or_empty (hex 64) (get run "Digest")
    && is_one_of states (get run "State")
    && is_array (get run "Instances")
    && leb 1 (length (instances run))
    && leb (length (instances run)) 2
    && all valid_instance (instances run)

abbrev head_agrees : Value → Bool
head_agrees view =
    is_str (get view "ContractVersion") "SqlServerLab.ComponentRelationBrowser/1.0"
    && is_false (get view "MutationAllowed")
    && is_false (get view "ExecutionSupported")
    && is_str (get view "SqlReadiness") "NOT_CHECKED"
    && is_str (get view "SharedRemovalPolicy") "PRESERVE"

-- validComponentRelationsMetadata.
unfoldable pub valid_metadata : Value → Bool
valid_metadata view =
    head_agrees view
    && is_str (get view "Status") "METADATA_ONLY"
    && is_array (get view "Runs")
    && leb (length (array_of (get view "Runs"))) 64
    && all valid_run (array_of (get view "Runs"))
    && distinct (map (λ (run : Value). text_of (get run "RunId")) (array_of (get view "Runs")))

unfoldable pub valid_prerequisite : Value → Bool
valid_prerequisite i =
    test_or_empty instance_name (get i "InstanceId")
    && is_provider (get i "Provider")
    && is_one_of states (get i "LifecycleState")
    && is_one_of ("PROVISIONED" ∷ "EXTERNAL_READ_ONLY" ∷ []) (get i "ManagementMode")

-- The tests of a preview for the run with an id.
unfoldable pub valid_preview : Value → String → Bool
valid_preview view run =
    head_agrees view
    && is_str (get view "RunId") run
    && is_str (get view "Mode") "COMPONENT_RELATIONS_PLAN_ONLY"
    && is_array (get view "Actions")
    && is_nil (array_of (get view "Actions"))
    && is_one_of
        ("NO_RELATION_CHANGE" ∷ "BLOCKED_SQL_READINESS_NOT_CHECKED"
          ∷ "BLOCKED_COMPONENT_RECOVERY_REQUIRED" ∷ [])
        (get view "Status")
    && is_array (get view "PrerequisiteOrder")
    && leb (length (array_of (get view "PrerequisiteOrder"))) 3
    && all valid_prerequisite (array_of (get view "PrerequisiteOrder"))
