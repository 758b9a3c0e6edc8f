-- ===== src/Previews/Port.antt =====
-- Ui/container-port-preview.js: its plans and its choices.
use sql_server_lab.Prelude.{String, Bool, ◌&&◌, List, [], ◌∷◌, leb, if◌then◌else◌}
use sql_server_lab.Js.{
  Value, get, shape, is_str, is_null, is_true, is_bool, is_one_of, matches, codes,
}
use sql_server_lab.Js.Patterns.{hex, digits_between}
use sql_server_lab.Llama.{number_from}
use sql_server_lab.Previews.{
  Kind, mount_counts, mount_names, is_provider, plan_names, statuses, is_harmless,
}

abbrev reasons : List String
reasons =
    "PORT_PREVIEW_BINDING_UNAVAILABLE" ∷ "PORT_PREVIEW_PROVIDER_UNSUPPORTED"
    ∷ "PORT_PREVIEW_PROTECTED_TARGET" ∷ "PORT_PREVIEW_RUNNING_REQUIRED"
    ∷ "PORT_PREVIEW_JOURNAL_BLOCKED" ∷ "PORT_PREVIEW_TOPOLOGY_UNSUPPORTED"
    ∷ "PORT_PREVIEW_LIMITS_UNKNOWN" ∷ "PORT_PREVIEW_MOUNTS_UNSUPPORTED"
    ∷ "PORT_PREVIEW_APPLY_NOT_IMPLEMENTED" ∷ []

-- What every plan says; `is_harmless` is a part of it that stands behind.
unfoldable pub plan_head : Value → Bool
plan_head v =
    shape v plan_names
    && shape (get v "Contract") ("Name" ∷ "Version" ∷ [])
    && is_str (get (get v "Contract") "Name") "SqlServerLab.ContainerPortPreview"
    && is_str (get (get v "Contract") "Version") "1.0"
    && is_str (get v "Mode") "CONTAINER_PORT_PREVIEW_PLAN_ONLY"
    && is_one_of statuses (get v "Status")
    && is_one_of reasons (get v "Reason")
    && shape (get v "Actual") ("Evidence" ∷ "SqlBinding" ∷ "Lifecycle" ∷ [])
    && shape (get v "Desired") ("PortChange" ∷ [])
    && shape (get v "Preview")
        ("Downtime" ∷ "Endpoint" ∷ "Sql" ∷ "Backup" ∷ "DataImpact" ∷ "Mounts" ∷ [])
    && is_str (get (get v "Preview") "Endpoint") "NOT_CHECKED"
    && is_str (get (get v "Preview") "Sql") "NOT_CHECKED"
    && is_str (get (get v "Preview") "Backup") "NOT_CHECKED"
    && is_str (get (get v "Preview") "DataImpact") "NOT_VERIFIED"
    && is_provider (get v "Provider")

-- A plan that is blocked or unsupported knows nothing.
unfoldable pub blocked_tail : Value → Bool
blocked_tail v =
    is_null (get v "ObservationKey")
    && is_null (get v "NoChange")
    && is_str (get v "ChangeClass") "unsupported"
    && is_str (get (get v "Actual") "Evidence") "UNKNOWN"
    && is_str (get (get v "Actual") "SqlBinding") "UNKNOWN"
    && is_str (get (get v "Actual") "Lifecycle") "UNKNOWN"
    && is_str (get (get v "Desired") "PortChange") "UNKNOWN"
    && is_str (get (get v "Preview") "Downtime") "UNKNOWN"
    && is_null (get (get v "Preview") "Mounts")

-- `NoChange ? a : b` as the text that another field has to hold.
abbrev follows : Value → Value → String → String → Bool
follows v no_change a b = is_str v (if is_true no_change then a else b)

unfoldable pub measured : Value → String → Bool
measured v provider =
    is_str (get v "Provider") provider
    && is_str (get v "Reason") "PORT_PREVIEW_APPLY_NOT_IMPLEMENTED"
    && matches (hex 64) (get v "ObservationKey")
    && is_bool (get v "NoChange")
    && is_str (get (get v "Actual") "Evidence") "MEASURED"
    && is_str (get (get v "Actual") "SqlBinding") "SINGLE_LOOPBACK_1433_TCP"
    && is_str (get (get v "Actual") "Lifecycle") "RUNNING"
    && follows (get (get v "Desired") "PortChange") (get v "NoChange") "SAME_PORT" "DIFFERENT_PORT"
    && follows (get v "ChangeClass") (get v "NoChange") "no-op" "recreate"
    && follows (get (get v "Preview") "Downtime") (get v "NoChange") "NONE" "REQUIRED"
    && mount_names (get (get v "Preview") "Mounts")

-- validPlan.
unfoldable pub valid_plan : Value → String → Bool
valid_plan v provider =
    plan_head v
    && is_harmless v
    && (if is_str (get v "Status") "PLAN_ONLY"
        then measured v provider && mount_counts (get (get v "Preview") "Mounts")
        else blocked_tail v)

-- `/^[0-9]{4,5}$/`, and the bounds of the port.
unfoldable pub accepts : String → Bool
accepts text =
    digits_between 4 1 (codes text)
    && leb 1024 (number_from 0 (codes text))
    && leb (number_from 0 (codes text)) 65535

abbrev pub port : Kind
port = record {
  contract = "SqlServerLab.ContainerPortBrowser/1.0";
  accepts = accepts;
  valid_plan = valid_plan;
}
