-- ===== src/Removal.antt =====
-- The dialog that removes the metadata of a run: Ui/run-artifact-removal.js. The contracts of the
-- server's answers; Removal/Dialog is the dialog's state.
pub mod Dialog
pub mod Late
pub mod Laws
mod Tests
use sql_server_lab.Prelude.{
  ℕ, String, Bool, true, false, not, ◌&&◌, ◌||◌, List, [], ◌∷◌, Option, none, some, all, map,
  distinct, leb, length, str_eq, if◌then◌else◌,
}
use sql_server_lab.Js.{
  Value, get, shape, is_str, is_null, is_string, is_array, is_bool, is_true, is_false, is_one_of,
  is_integer_in, array_of, text_of, matches, codes,
}
use sql_server_lab.Js.Patterns.{guid, hex, reason_code}

abbrev pub contract : String
contract = "SqlServerLab.RunArtifactRemovalBrowser/1.0"

unfoldable pub is_guid : Value → Bool
is_guid = matches guid

unfoldable pub is_ready : Value → Bool
is_ready v = is_one_of ("READY" ∷ "RECOVERY_REQUIRED" ∷ []) (get v "Status")

-- The tests of validPreview that all previews share: which run it is about, and its other fields.
unfoldable pub is_about : Value → String → Bool
is_about v run_id =
    shape v (
      "ContractVersion" ∷ "RunId" ∷ "Status" ∷ "CanApply" ∷ "FileCount" ∷ "ReasonCode"
      ∷ "PreviewToken" ∷ [])
    && is_str (get v "ContractVersion") contract
    && is_str (get v "RunId") run_id

unfoldable pub preview_head : Value → Bool
preview_head v =
    is_guid (get v "RunId")
    && is_one_of ("READY" ∷ "RECOVERY_REQUIRED" ∷ "REMOVED" ∷ "BLOCKED" ∷ []) (get v "Status")
    && is_bool (get v "CanApply")
    && is_integer_in 0 2147483647 (get v "FileCount")

-- A preview that may be applied carries a token; any other carries none.
unfoldable pub ready_tail : Value → Bool
ready_tail v =
    is_true (get v "CanApply")
    && matches (hex 32) (get v "PreviewToken")
    && is_null (get v "ReasonCode")

unfoldable pub closed_tail : Value → Bool
closed_tail v =
    is_false (get v "CanApply")
    && is_null (get v "PreviewToken")
    && is_integer_in 0 0 (get v "FileCount")
    && (if is_str (get v "Status") "REMOVED"
        then is_null (get v "ReasonCode")
        else matches reason_code (get v "ReasonCode"))

unfoldable pub preview_tail : Value → Bool
preview_tail v = if is_ready v then ready_tail v else closed_tail v

-- validPreview.
unfoldable pub valid_preview : Value → String → Bool
valid_preview v run_id = is_about v run_id && preview_head v && preview_tail v

abbrev valid_target : Value → Bool
valid_target t = shape t ("RunId" ∷ []) && is_guid (get t "RunId")

-- The answer to `Read`.
unfoldable pub valid_targets : Value → Bool
valid_targets view =
    shape view ("ContractVersion" ∷ "Status" ∷ "CanApply" ∷ "Targets" ∷ [])
    && is_str (get view "ContractVersion") contract
    && is_str (get view "Status") "METADATA_ONLY"
    && is_false (get view "CanApply")
    && is_array (get view "Targets")
    && leb (length (array_of (get view "Targets"))) 4096
    && all valid_target (array_of (get view "Targets"))
    && distinct (map (λ (t : Value). text_of (get t "RunId")) (array_of (get view "Targets")))

-- The answer to `Apply`.
unfoldable pub valid_removal : Value → String → Bool
valid_removal view run_id =
    shape view ("ContractVersion" ∷ "RunId" ∷ "Status" ∷ "Changed" ∷ [])
    && is_str (get view "ContractVersion") contract
    && is_str (get view "RunId") run_id
    && is_one_of ("REMOVED" ∷ "CANCELLED" ∷ []) (get view "Status")
    && is_bool (get view "Changed")
    && not (is_str (get view "Status") "CANCELLED" && is_true (get view "Changed"))

-- reason: which of the explanations a blocked preview gets.
pub data Reason : Type 0 where
  hyperv_absence cleanup_incomplete resource_present original_runtime : Reason
  retained protected_group recovery_required evidence_incomplete : Reason

unfoldable pub reason : String → Reason
reason code =
    if str_eq code "RUN_ARTIFACT_HYPERV_ABSENCE_UNVERIFIABLE"
    then hyperv_absence
    else if str_eq code "RUN_ARTIFACT_CLEANUP_INCOMPLETE"
    then cleanup_incomplete
    else if str_eq code "RUN_ARTIFACT_RESOURCE_PRESENT"
    then resource_present
    else if str_eq code "RUN_ARTIFACT_ORIGINAL_RUNTIME_UNVERIFIABLE"
    then original_runtime
    else if str_eq code "RUN_ARTIFACT_RETAINED_OR_PROTECTED"
        || str_eq code "RUN_ARTIFACT_REFERENCED_OR_RETAINED"
    then retained
    else if str_eq code "RUN_ARTIFACT_PROTECTED_GROUP"
    then protected_group
    else if str_eq code "RUN_ARTIFACT_RECOVERY_REQUIRED"
    then recovery_required
    else evidence_incomplete
