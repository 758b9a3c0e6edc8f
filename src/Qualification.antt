-- ===== src/Qualification.antt =====
-- The live check of TLS at one SQL target: Ui/tls-live-qualification.js. The targets and the
-- contract of a result; Qualification/Polling asks for the result, Qualification/Page is the state
-- of the page. The identities of a target are texts.
pub mod Polling
pub mod Page
pub mod Laws
mod Tests
use sql_server_lab.Prelude.{
  ℕ, ◌+◌, String, Bool, true, false, not, ◌&&◌, ◌||◌, List, [], ◌∷◌, Option, none, some, leb, ltb,
  includes, if◌then◌else◌,
}
use sql_server_lab.Js.{Value, get, has_only_keys, is_str, is_true, is_false, is_list_of, codes}
use sql_server_lab.Js.Patterns.{guid, instance_name}

pub record Target : Type 0 where
  pub run_id : String
  pub instance_id : String
  pub provider : String
  pub settings : Value

-- eligible.
unfoldable pub eligible : Target → Bool
eligible t =
    guid (codes t.run_id)
    && instance_name (codes t.instance_id)
    && includes ("docker" ∷ "podman" ∷ []) t.provider
    && is_str (get t.settings "Status") "CONFIGURED_CONNECTION_STRING"
    && is_true (get t.settings "Encrypt")
    && is_false (get t.settings "TrustServerCertificate")

abbrev keys : List String
keys =
    "ContractVersion" ∷ "Status" ∷ "RunId" ∷ "InstanceId" ∷ "Provider" ∷ "SqlVersion" ∷ "Patch"
    ∷ "SqlBuild" ∷ "Encrypt" ∷ "TrustServerCertificate" ∷ "QualifiedAtUtc" ∷ "ObservedAtUtc"
    ∷ "ExpiresAtUtc" ∷ "ClientChecks" ∷ "Evidence" ∷ "WireCertificateFingerprint" ∷ []

-- `profile[result.SqlVersion + '/' + result.Patch] === result.SqlBuild`, for two texts; a key of
-- the profile has one slash.
abbrev is_build : Value → String → String → String → Bool
is_build v version patch build =
    is_str (get v "SqlVersion") version
    && is_str (get v "Patch") patch
    && is_str (get v "SqlBuild") build

unfoldable pub profile_agrees : Value → Bool
profile_agrees v =
    is_build v "2019" "cu32" "15.0.4430.1"
    || is_build v "2022" "cu27" "16.0.4295.3"
    || is_build v "2025" "cu9" "17.0.5005.3"

unfoldable pub result_head : Value → Target → Bool
result_head v t =
    has_only_keys v keys
    && is_str (get v "ContractVersion") "SqlServerLab.TlsLiveQualificationResult/0.1"
    && is_str (get v "Status") "QUALIFIED_AT_OBSERVATION"
    && is_str (get v "RunId") t.run_id
    && is_str (get v "InstanceId") t.instance_id
    && is_str (get v "Provider") t.provider
    && is_true (get v "Encrypt")
    && is_false (get v "TrustServerCertificate")
    && is_str (get v "Evidence") "FRESH_NATIVE_SQLCLIENT_AND_ODBC_SQLCMD"
    && is_str (get v "WireCertificateFingerprint") "NOT_OBSERVED"
    && is_list_of ("SYSTEM_DATA_SQLCLIENT" ∷ "ODBC_SQLCMD" ∷ []) (get v "ClientChecks")

-- The order of the times, in milliseconds; a time that is none is in no order with any other.
unfoldable pub in_order : Option ℕ → Option ℕ → Option ℕ → ℕ → ℕ → Bool
in_order (some q) (some o) (some e) started finished =
    leb started q && leb q o && leb o finished && ltb finished e && leb e (q + 900000)
in_order _ _ _ started finished = false

-- `time_of` is `Date.parse`.
module _ (time_of : Value → Option ℕ) where
  -- valid.
  unfoldable pub valid : Value → Target → ℕ → ℕ → Bool
  valid v t started finished =
      result_head v t
      && profile_agrees v
      && in_order (time_of (get v "QualifiedAtUtc")) (time_of (get v "ObservedAtUtc"))
          (time_of (get v "ExpiresAtUtc")) started finished
