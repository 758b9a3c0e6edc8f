-- ===== src/Runtimes.antt =====
-- Decisions on external runtimes: Ui/external-runtime-capability.js. The contracts of the answers;
-- Runtimes/Dialog is the dialog.
pub mod Dialog
pub mod Asking
pub mod Laws
mod Tests
use sql_server_lab.Prelude.{
  ℕ, String, Bool, true, false, not, ◌&&◌, ◌||◌, List, [], ◌∷◌, all, leb, length, str_eq, includes,
  ◌==◌, if◌then◌else◌,
}
use sql_server_lab.Js.{
  Value, get, shape, is_str, is_null, is_false, is_array, is_empty_array, is_one_of, is_integer_in,
  array_of, matches, text_of, truthy, nat_of,
}
use sql_server_lab.Js.Patterns.{variant_id, version_number, year}

abbrev catalogs : List String
catalogs =
    "NONE" ∷ "CATALOG_DECISION_UNAVAILABLE" ∷ "SOFTWARE_NOT_CATALOGUED" ∷ "SQL_VERSION_UNKNOWN"
    ∷ "RUNTIME_COMBINATION_NOT_CATALOGUED" ∷ "SOFTWARE_PLAN_AMBIGUOUS"
    ∷ "LEGACY_POST_START_MUTATION" ∷ "IMAGE_BINDING_NOT_IMPLEMENTED" ∷ "PACKAGE_NOT_LOCKED"
    ∷ "VARIANT_PREVIEW" ∷ "VARIANT_UNSUPPORTED" ∷ "PROVIDER_CAPABILITY_MISSING"
    ∷ "ARTIFACT_INTEGRITY_INCOMPLETE" ∷ "PACKAGE_LOCK_INTEGRITY_INCOMPLETE" ∷ []

abbrev readiness : List String
readiness =
    "NONE" ∷ "READINESS_NOT_REQUESTED" ∷ "CATALOG_BLOCKED" ∷ "TOOL_NOT_INSTALLED"
    ∷ "TOOL_NATIVE_PATH_REQUIRED" ∷ "PROVIDER_PROBE_FAILED" ∷ "PROVIDER_PROBE_TIMEOUT"
    ∷ "PROVIDER_OUTPUT_LIMIT" ∷ "PROVIDER_TERMINATION_UNCONFIRMED" ∷ "PROVIDER_RESPONSE_INVALID"
    ∷ "CGROUP_V2_REQUIRES_SQL2025" ∷ "LINUX_RUNTIME_REQUIRED" ∷ "CGROUP_VERSION_UNSUPPORTED"
    ∷ "ROOTFUL_STATUS_UNKNOWN" ∷ "ROOTFUL_PROVIDER_REQUIRED" ∷ []

abbrev pub software : List String
software = "sql-python" ∷ "sql-r" ∷ "sql-java" ∷ []

-- identity.
unfoldable pub valid_identity : Value → Bool
valid_identity v =
    is_one_of software (get v "SoftwareId")
    && is_one_of ("Python" ∷ "R" ∷ "Java" ∷ []) (get v "Language")
    && matches variant_id (get v "VariantId")
    && matches version_number (get v "RuntimeVersion")

abbrev identity_names : List String
identity_names = "SoftwareId" ∷ "VariantId" ∷ "RuntimeVersion" ∷ "Language" ∷ "SqlVersion" ∷ []

-- `v.CatalogDecision.Status`, and `v.CurrentReadiness.Status`.
abbrev pub catalog_status : Value → Value
catalog_status v = get (get v "CatalogDecision") "Status"

abbrev pub current_status : Value → Value
current_status v = get (get v "CurrentReadiness") "Status"

-- The tests of `decision` that do not depend on its status.
unfoldable pub decision_shapes : Value → Bool
decision_shapes v =
    shape v (
      "Contract" ∷ "Provider" ∷ "OperatingSystem" ∷ "Identity" ∷ "CatalogDecision"
      ∷ "CurrentReadiness" ∷ "HistoricalEvidence" ∷ "SqlLanguageExecution" ∷ "TargetAuthorization"
      ∷ "ExecutionSupported" ∷ "MutationAllowed" ∷ "Actions" ∷ [])
    && shape (get v "Contract") ("Name" ∷ "Version" ∷ "EvidenceBoundary" ∷ [])
    && shape (get v "CatalogDecision") ("Status" ∷ "ReasonCode" ∷ [])
    && shape (get v "CurrentReadiness")
        ("Status" ∷ "ReasonCode" ∷ "RequiredCgroupVersion" ∷ "LaunchMode" ∷ [])
    && shape (get v "HistoricalEvidence") ("Status" ∷ "MappingStatus" ∷ [])

unfoldable pub decision_head : Value → Bool
decision_head v =
    is_str (get (get v "Contract") "Name") "SqlServerLab.ExternalRuntimeCapability"
    && is_str (get (get v "Contract") "Version") "1.0"
    && is_str (get (get v "Contract") "EvidenceBoundary")
        "PROSPECTIVE_DECLARATION_AND_OPTIONAL_HOST_OBSERVATION"
    && is_one_of ("docker" ∷ "podman" ∷ []) (get v "Provider")
    && is_str (get v "OperatingSystem") "linux"
    && is_one_of ("DECLARED_SUPPORTED" ∷ "BLOCKED" ∷ []) (catalog_status v)
    && is_one_of catalogs (get (get v "CatalogDecision") "ReasonCode")
    && is_one_of ("NOT_CHECKED" ∷ "READY" ∷ "BLOCKED" ∷ []) (current_status v)
    && is_one_of readiness (get (get v "CurrentReadiness") "ReasonCode")
    && is_str (get (get v "HistoricalEvidence") "Status") "NOT_RECORDED"
    && is_str (get (get v "HistoricalEvidence") "MappingStatus") "NOT_DEFINED"
    && is_str (get v "SqlLanguageExecution") "NOT_CHECKED"
    && is_str (get v "TargetAuthorization") "NOT_CHECKED"
    && is_false (get v "ExecutionSupported")
    && is_false (get v "MutationAllowed")
    && is_empty_array (get v "Actions")

abbrev null_or : List String → Value → Bool
null_or names v = is_null v || is_one_of names v

unfoldable pub launch_known : Value → Bool
launch_known v =
    null_or ("1" ∷ "2" ∷ []) (get (get v "CurrentReadiness") "RequiredCgroupVersion")
    && null_or
        ("sql2019-namespace-v1" ∷ "sql2022-namespace-v1" ∷ "sql2025-namespace-v1"
          ∷ "sql2025-shared-user-v2" ∷ [])
        (get (get v "CurrentReadiness") "LaunchMode")

-- The test that depends on the status of the catalogue's decision.
unfoldable pub catalog_agrees : Value → Bool
catalog_agrees v =
    if is_str (catalog_status v) "BLOCKED"
    then is_null (get v "Identity")
      && not (is_str (get (get v "CatalogDecision") "ReasonCode") "NONE")
      && not (is_str (current_status v) "READY")
    else shape (get v "Identity") identity_names
      && valid_identity (get v "Identity")
      && matches year (get (get v "Identity") "SqlVersion")
      && is_str (get (get v "CatalogDecision") "ReasonCode") "NONE"
      && not (is_null (get (get v "CurrentReadiness") "RequiredCgroupVersion"))
      && not (is_null (get (get v "CurrentReadiness") "LaunchMode"))

unfoldable pub readiness_agrees : Value → Bool
readiness_agrees v =
    if is_str (current_status v) "READY"
    then is_str (get (get v "CurrentReadiness") "ReasonCode") "NONE"
    else if is_str (current_status v) "NOT_CHECKED"
    then is_str (get (get v "CurrentReadiness") "ReasonCode") "READINESS_NOT_REQUESTED"
    else not (
        is_one_of ("NONE" ∷ "READINESS_NOT_REQUESTED" ∷ [])
          (get (get v "CurrentReadiness") "ReasonCode"))

-- decision.
unfoldable pub valid_decision : Value → Bool
valid_decision v =
    decision_shapes v && decision_head v && launch_known v && catalog_agrees v && readiness_agrees v

-- Whether an identity, if there is one, is that of a variant and of an SQL version.
unfoldable pub same_variant : Value → Value → String → Bool
same_variant identity o sql =
    not (truthy identity)
    || (is_str (get identity "VariantId") (text_of (get o "VariantId"))
        && is_str (get identity "SoftwareId") (text_of (get o "SoftwareId"))
        && is_str (get identity "RuntimeVersion") (text_of (get o "RuntimeVersion"))
        && is_str (get identity "SqlVersion") sql)

unfoldable pub valid_option : String → String → Value → Bool
valid_option provider sql o =
    shape o ("SoftwareId" ∷ "Language" ∷ "VariantId" ∷ "RuntimeVersion" ∷ "Decision" ∷ [])
    && valid_identity o
    && valid_decision (get o "Decision")
    && is_str (get (get o "Decision") "Provider") provider
    && is_str (current_status (get o "Decision")) "NOT_CHECKED"
    && same_variant (get (get o "Decision") "Identity") o sql

-- The answer to `ReadOptions`.
unfoldable pub valid_options : Value → String → String → Bool
valid_options view provider sql =
    is_str (get view "ContractVersion") "SqlServerLab.ExternalRuntimeCapabilityBrowser/1.0"
    && shape view ("ContractVersion" ∷ "Status" ∷ "Options" ∷ [])
    && is_str (get view "Status") "OPTIONS"
    && is_array (get view "Options")
    && leb (length (array_of (get view "Options"))) 128
    && all (valid_option provider sql) (array_of (get view "Options"))

-- The answer to `Evaluate`, for a variant.
unfoldable pub valid_evaluation : Value → Bool → String → String → Value → Bool
valid_evaluation view check provider sql o =
    is_str (get view "ContractVersion") "SqlServerLab.ExternalRuntimeCapabilityBrowser/1.0"
    && shape view ("ContractVersion" ∷ "Status" ∷ "Decision" ∷ [])
    && is_str (get view "Status") "DECISION"
    && valid_decision (get view "Decision")
    && is_str (get (get view "Decision") "Provider") provider
    && (check || is_str (current_status (get view "Decision")) "NOT_CHECKED")
    && same_variant (get (get view "Decision") "Identity") o sql

-- The states that a reason of the recorded history goes with.
unfoldable pub history_states : String → String × String
history_states code =
    if includes ("CATALOG_IDENTITY_UNRESOLVED" ∷ "INDEX_LEGACY_IDENTITY_UNKNOWN" ∷ []) code
    then ("NOT_RECORDED", "NOT_DEFINED")
    else if str_eq code "INDEX_NO_MATCH"
    then ("NOT_RECORDED", "DEFINED")
    else if str_eq code "INDEX_MATCH_RECORDED"
    then ("RECORDED_HISTORY_ONLY", "DEFINED")
    else ("UNAVAILABLE", "UNAVAILABLE")

abbrev history_codes : List String
history_codes =
    "CATALOG_IDENTITY_UNRESOLVED" ∷ "INDEX_LEGACY_IDENTITY_UNKNOWN" ∷ "INDEX_NO_MATCH"
    ∷ "INDEX_MATCH_RECORDED" ∷ "INDEX_NOT_PRESENT" ∷ "INDEX_SCHEMA_UNSUPPORTED" ∷ "INDEX_INVALID"
    ∷ "EVIDENCE_OUTPUT_LIMIT" ∷ []

abbrev same_test : Bool → Bool → Bool
same_test a b = if a then b else not b

unfoldable pub valid_history_record : Value → Bool
valid_history_record h =
    shape h (
      "Status" ∷ "MappingStatus" ∷ "ReasonCode" ∷ "RecordCount" ∷ "ReferenceVerificationStatus"
      ∷ "EvidenceBoundary" ∷ [])
    && is_one_of history_codes (get h "ReasonCode")
    && is_str (get h "Status") (history_states (text_of (get h "ReasonCode"))).0
    && is_str (get h "MappingStatus") (history_states (text_of (get h "ReasonCode"))).1
    && is_integer_in 0 128 (get h "RecordCount")
    && same_test (is_str (get h "Status") "RECORDED_HISTORY_ONLY")
        (not (nat_of (get h "RecordCount") == 0))
    && is_str (get h "ReferenceVerificationStatus") "NOT_VERIFIED"
    && is_str (get h "EvidenceBoundary") "RECORDED_HISTORY_ONLY"

unfoldable pub history_head : Value → String → Bool
history_head view provider =
    is_str (get view "ContractVersion") "SqlServerLab.ExternalRuntimeCapabilityBrowser/1.1"
    && shape view (
        "ContractVersion" ∷ "Status" ∷ "Provider" ∷ "OperatingSystem" ∷ "Identity"
        ∷ "HistoricalEvidence" ∷ "CurrentReadinessStatus" ∷ "SqlLanguageExecution"
        ∷ "TargetAuthorization" ∷ "ExecutionSupported" ∷ "MutationAllowed" ∷ "Actions" ∷ [])
    && is_str (get view "Status") "HISTORY"
    && is_str (get view "Provider") provider
    && is_str (get view "OperatingSystem") "linux"
    && is_str (get view "CurrentReadinessStatus") "NOT_CHECKED"
    && is_str (get view "SqlLanguageExecution") "NOT_CHECKED"
    && is_str (get view "TargetAuthorization") "NOT_CHECKED"
    && is_false (get view "ExecutionSupported")
    && is_false (get view "MutationAllowed")
    && is_empty_array (get view "Actions")

-- The answer to `ReadRecordedEvidence`, for a variant.
unfoldable pub valid_history : Value → String → String → Value → Bool
valid_history view provider sql o =
    history_head view provider
    && valid_history_record (get view "HistoricalEvidence")
    && (if is_null (get view "Identity")
        then is_str (get (get view "HistoricalEvidence") "ReasonCode") "CATALOG_IDENTITY_UNRESOLVED"
        else shape (get view "Identity") identity_names
          && valid_identity (get view "Identity")
          && same_variant (get view "Identity") o sql
          && is_str (get (get view "Identity") "Language") (text_of (get o "Language")))
