-- ===== src/Evaluations.antt =====
-- The plan of an evaluation's replacement: Ui/evaluation-refresh-plan.js. The contracts of the two
-- answers; Evaluations/Dialog is the dialog.
pub mod Dialog
pub mod Laws
mod Tests
use sql_server_lab.Prelude.{
  ℕ, String, Bool, true, false, not, ◌&&◌, ◌||◌, List, [], ◌∷◌, all, map, distinct, leb, ltb,
  length, str_eq, ◌==◌, if◌then◌else◌,
}
use sql_server_lab.Js.{
  Value, get, has_only_keys, is_str, is_null, is_string, is_false, is_array, is_empty_array,
  is_one_of, is_integer_in, array_of, matches, text_of, is_list_of, truthy,
}
use sql_server_lab.Js.Coerce.{test_or_empty}
use sql_server_lab.Js.Patterns.{guid, hex, instance_name, timestamp}

abbrev pub modes : List String
modes = "FREE_SLOT_REPLACEMENT" ∷ "RECONSTRUCT_LAB" ∷ "STATEFUL_MIGRATION" ∷ []

abbrev contract : String
contract = "SqlServerLab.EvaluationRefreshBrowser/1.0"

-- evaluationRefreshGuid.
unfoldable pub is_guid : Value → Bool
is_guid v = matches guid v && not (is_str v "00000000-0000-0000-0000-000000000000")

-- evaluationRefreshSelection.
unfoldable pub valid_selection : Value → Bool
valid_selection v =
    has_only_keys v ("RunId" ∷ "ScopeId" ∷ "InstanceId" ∷ "State" ∷ "Digest" ∷ [])
    && is_guid (get v "RunId")
    && is_guid (get v "ScopeId")
    && matches instance_name (get v "InstanceId")
    && is_one_of ("RUNNING" ∷ "STOPPED" ∷ []) (get v "State")
    && test_or_empty (hex 64) (get v "Digest")

-- validEvaluationRefreshMetadata.
unfoldable pub valid_metadata : Value → Bool
valid_metadata view =
    has_only_keys view (
      "ContractVersion" ∷ "Status" ∷ "Runs" ∷ "SqlReadiness" ∷ "Actions" ∷ "MutationAllowed"
      ∷ "ExecutionSupported" ∷ [])
    && is_str (get view "ContractVersion") contract
    && is_str (get view "Status") "METADATA_ONLY"
    && is_str (get view "SqlReadiness") "NOT_CHECKED"
    && is_false (get view "MutationAllowed")
    && is_false (get view "ExecutionSupported")
    && is_empty_array (get view "Actions")
    && is_array (get view "Runs")
    && leb (length (array_of (get view "Runs"))) 64
    && all valid_selection (array_of (get view "Runs"))
    && distinct (map (λ (run : Value). text_of (get run "RunId")) (array_of (get view "Runs")))

abbrev blockers : List String
blockers =
    "CURRENT_WINDOWS_LICENSE_PROOF_NOT_AVAILABLE" ∷ "SQL_EVALUATION_EVIDENCE_REQUIRED"
    ∷ "SLOT_MEMBERSHIP_AND_REPLACEMENT_TARGET_NOT_ASSESSED"
    ∷ "DECLARATIVE_RECONSTRUCTION_AND_DATA_DISPOSABILITY_NOT_VERIFIED"
    ∷ "FULL_INSTANCE_INVENTORY_NOT_AVAILABLE" ∷ "EQUIVALENCE_CUTOVER_AND_ROLLBACK_NOT_VERIFIED" ∷ []

-- `steps[mode]`, for one of the three modes.
abbrev steps : String → List String
steps mode =
    if str_eq mode "FREE_SLOT_REPLACEMENT"
    then "Freien Slot und getrennte Restlaufzeiten prüfen."
      ∷ "Neue Medien und Zielbindung separat bestätigen; ein Clone erneuert keine Evaluation." ∷ []
    else if str_eq mode "RECONSTRUCT_LAB"
    then "Deklarative Rekonstruktion und entbehrlichen Zustand klären."
      ∷ "Datenübernahme, Gleichwertigkeit und Rückfall separat nachweisen." ∷ []
    else "Serverobjekte, Schlüssel und externe Abhängigkeiten getrennt inventarisieren."
      ∷ "DATABASE_FILES_ONLY ist kein vollständiger Instanztransfer; Cutover und Rückfall fehlen."
      ∷ []

-- What the plan repeats of the selected run, whose fields are texts, and of the mode.
unfoldable pub plan_binding : Value → Value → String → Bool
plan_binding view own mode =
    is_str (get view "Mode") mode
    && is_str (get view "RunId") (text_of (get own "RunId"))
    && is_str (get view "ScopeId") (text_of (get own "ScopeId"))
    && is_str (get view "InstanceId") (text_of (get own "InstanceId"))

unfoldable pub plan_head : Value → Bool
plan_head view =
    has_only_keys view (
      "ContractVersion" ∷ "Status" ∷ "Mode" ∷ "RunId" ∷ "ScopeId" ∷ "InstanceId" ∷ "Evaluations"
      ∷ "Blockers" ∷ "NextSteps" ∷ "SqlReadiness" ∷ "FreshWindowsLicenseProof"
      ∷ "FullInstanceMigration" ∷ "EquivalenceStatus" ∷ "TransferAuthority" ∷ "Actions"
      ∷ "MutationAllowed" ∷ "ExecutionSupported" ∷ [])
    && is_str (get view "ContractVersion") contract
    && is_str (get view "Status") "BLOCKED"
    && is_str (get view "SqlReadiness") "NOT_CHECKED"
    && is_false (get view "FreshWindowsLicenseProof")
    && is_false (get view "FullInstanceMigration")
    && is_str (get view "EquivalenceStatus") "NOT_VERIFIED"
    && is_str (get view "TransferAuthority") "NONE"
    && is_false (get view "MutationAllowed")
    && is_false (get view "ExecutionSupported")
    && is_empty_array (get view "Actions")

unfoldable pub valid_blockers : Value → Bool
valid_blockers v =
    is_array v
    && leb 2 (length (array_of v))
    && leb (length (array_of v)) 4
    && all (is_one_of blockers) (array_of v)

-- What `Date.parse` accepts of the texts that match the pattern of a date: the implementations
-- differ at days that a month does not have.
module _ (parses : String → Bool) where
  unfoldable pub valid_date : Value → Bool
  valid_date v = is_null v || (matches timestamp v && parses (text_of v))

  -- One of the two evaluations, with the component and the sources it may have.
  unfoldable pub valid_evaluation : String → List String → List String → Value → Bool
  valid_evaluation component sources evidence item =
      has_only_keys item (
        "Component" ∷ "Status" ∷ "DeadlineSource" ∷ "EvidenceStatus" ∷ "EvaluationExpiresAt"
        ∷ "DaysRemaining" ∷ [])
      && is_str (get item "Component") component
      && is_one_of ("OK" ∷ "WARNING" ∷ "CRITICAL" ∷ "EXPIRED" ∷ "UNKNOWN" ∷ "NOT_APPLICABLE" ∷ [])
          (get item "Status")
      && is_one_of sources (get item "DeadlineSource")
      && is_one_of evidence (get item "EvidenceStatus")
      && (is_null (get item "DaysRemaining")
          || is_integer_in 0 9007199254740991 (get item "DaysRemaining"))
      && valid_date (get item "EvaluationExpiresAt")

  unfoldable pub valid_windows : Value → Bool
  valid_windows =
      valid_evaluation "Windows"
        ("PERSISTED_WINDOWS_ACTIVATION" ∷ "PERSISTED_WINDOWS_ACTIVATION_MISSING_OR_INVALID" ∷ [])
        ("HISTORICAL_METADATA" ∷ [])

  unfoldable pub valid_sql : Value → Bool
  valid_sql =
      valid_evaluation "SqlServer"
        ("SQL_GUEST_OBSERVED" ∷ "SQL_GUEST_NO_DEADLINE" ∷ "EVIDENCE_MISSING" ∷ "EVIDENCE_INVALID"
          ∷ [])
        ("CURRENT" ∷ "EVIDENCE_MISSING" ∷ "EVIDENCE_INVALID" ∷ "EVIDENCE_STALE" ∷ "NOT_EVALUATION"
          ∷ "DEADLINE_UNKNOWN" ∷ [])

  unfoldable pub valid_evaluations : List Value → Bool
  valid_evaluations (w ∷ s ∷ []) = valid_windows w && valid_sql s
  valid_evaluations _ = false

  -- validEvaluationRefreshPlan.
  unfoldable pub valid_plan : Value → Value → String → Bool
  valid_plan view own mode =
      plan_binding view own mode
      && (plan_head view
          && valid_blockers (get view "Blockers")
          && is_list_of (steps mode) (get view "NextSteps")
          && is_array (get view "Evaluations")
          && valid_evaluations (array_of (get view "Evaluations")))
