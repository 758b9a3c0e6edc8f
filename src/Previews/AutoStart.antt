-- ===== src/Previews/AutoStart.antt =====
-- Ui/container-autostart-preview.js: its plans and its choices.
use sql_server_lab.Prelude.{String, Bool, ◌&&◌, List, [], ◌∷◌, includes, if◌then◌else◌}
use sql_server_lab.Js.{Value, get, shape, is_str, is_null, is_true, is_bool, is_one_of, matches}
use sql_server_lab.Js.Patterns.{hex}
use sql_server_lab.Previews.{
  Kind, mount_counts, mount_names, is_provider, plan_names, statuses, is_harmless,
}
use sql_server_lab.Previews.Dialog.{
  Action, Dialog, Begun, Ticket, Reply, Event, begin_request, end_request, handle,
}

abbrev reasons : List String
reasons =
    "AUTOSTART_PREVIEW_BINDING_UNAVAILABLE" ∷ "AUTOSTART_PREVIEW_PROVIDER_UNSUPPORTED"
    ∷ "AUTOSTART_PREVIEW_PROTECTED_TARGET" ∷ "AUTOSTART_PREVIEW_RUNNING_REQUIRED"
    ∷ "AUTOSTART_PREVIEW_POLICY_UNKNOWN" ∷ "AUTOSTART_PREVIEW_POLICY_UNSUPPORTED"
    ∷ "AUTOSTART_PREVIEW_POLICY_DRIFTED" ∷ "AUTOSTART_PREVIEW_JOURNAL_BLOCKED"
    ∷ "AUTOSTART_PREVIEW_TOPOLOGY_UNSUPPORTED" ∷ "AUTOSTART_PREVIEW_LIMITS_UNKNOWN"
    ∷ "AUTOSTART_PREVIEW_MOUNTS_UNSUPPORTED" ∷ "AUTOSTART_PREVIEW_APPLY_NOT_IMPLEMENTED" ∷ []

-- What every plan says; `is_harmless` is a part of it that stands behind.
unfoldable pub plan_head : Value → Bool
plan_head v =
    shape v plan_names
    && shape (get v "Contract") ("Name" ∷ "Version" ∷ [])
    && is_str (get (get v "Contract") "Name") "SqlServerLab.ContainerAutoStartPreview"
    && is_str (get (get v "Contract") "Version") "1.0"
    && is_str (get v "Mode") "CONTAINER_AUTOSTART_PREVIEW_PLAN_ONLY"
    && is_one_of statuses (get v "Status")
    && is_one_of reasons (get v "Reason")
    && shape (get v "Actual") ("Evidence" ∷ "SqlBinding" ∷ "Lifecycle" ∷ "AutoStart" ∷ [])
    && shape (get v "Desired") ("AutoStartChange" ∷ [])
    && shape (get v "Preview")
        ("Downtime" ∷ "Endpoint" ∷ "Sql" ∷ "Backup" ∷ "HostLogin" ∷ "DataImpact" ∷ "Mounts" ∷ [])
    && is_str (get (get v "Preview") "Endpoint") "NOT_CHECKED"
    && is_str (get (get v "Preview") "Sql") "NOT_CHECKED"
    && is_str (get (get v "Preview") "Backup") "NOT_CHECKED"
    && is_str (get (get v "Preview") "HostLogin") "NOT_CHECKED"
    && is_str (get (get v "Preview") "DataImpact") "NOT_VERIFIED"
    && is_provider (get v "Provider")

-- A plan that is blocked or unsupported knows at most that the policy has drifted.
unfoldable pub blocked_tail : Value → Bool
blocked_tail v =
    is_null (get v "Provider")
    && is_str (get (get v "Actual") "AutoStart") (
        if is_str (get v "Reason") "AUTOSTART_PREVIEW_POLICY_DRIFTED" then "DRIFTED" else "UNKNOWN")
    && is_null (get v "ObservationKey")
    && is_null (get v "NoChange")
    && is_str (get v "ChangeClass") "unsupported"
    && is_str (get (get v "Actual") "Evidence") "UNKNOWN"
    && is_str (get (get v "Actual") "SqlBinding") "UNKNOWN"
    && is_str (get (get v "Actual") "Lifecycle") "UNKNOWN"
    && is_str (get (get v "Desired") "AutoStartChange") "UNKNOWN"
    && is_str (get (get v "Preview") "Downtime") "UNKNOWN"
    && is_null (get (get v "Preview") "Mounts")

-- `NoChange ? a : b` as the text that another field has to hold.
abbrev follows : Value → Value → String → String → Bool
follows v no_change a b = is_str v (if is_true no_change then a else b)

unfoldable pub measured : Value → String → Bool
measured v provider =
    is_str (get v "Provider") provider
    && is_str (get v "Reason") "AUTOSTART_PREVIEW_APPLY_NOT_IMPLEMENTED"
    && matches (hex 64) (get v "ObservationKey")
    && is_bool (get v "NoChange")
    && is_str (get (get v "Actual") "Evidence") "MEASURED"
    && is_str (get (get v "Actual") "SqlBinding") "SINGLE_LOOPBACK_1433_TCP"
    && is_str (get (get v "Actual") "Lifecycle") "RUNNING"
    && is_one_of ("ON" ∷ "OFF" ∷ []) (get (get v "Actual") "AutoStart")
    && follows (get (get v "Desired") "AutoStartChange") (get v "NoChange") "SAME_POLICY"
        "DIFFERENT_POLICY"
    && follows (get v "ChangeClass") (get v "NoChange") "no-op" "recreate"
    && follows (get (get v "Preview") "Downtime") (get v "NoChange") "NONE" "REQUIRED"
    && mount_names (get (get v "Preview") "Mounts")

-- validPlan.
unfoldable pub valid_plan : Value → String → Bool
valid_plan v provider =
    plan_head v
    && is_harmless v
    && (if is_str (get v "Status") "PLAN_ONLY"
        then measured v provider && mount_counts (get (get v "Preview") "Mounts")
        else blocked_tail v)

unfoldable pub accepts : String → Bool
accepts policy = includes ("on" ∷ "off" ∷ []) policy

abbrev pub auto_start : Kind
auto_start = record {
  contract = "SqlServerLab.ContainerAutoStartBrowser/1.0";
  accepts = accepts;
  valid_plan = valid_plan;
}

-- The dialog with this kind: the two halves of `request`, and the event handlers.
unfoldable pub begin_auto_start : Action → Dialog → Begun
begin_auto_start = begin_request auto_start

unfoldable pub end_auto_start : Ticket → Reply → Dialog → Dialog
end_auto_start = end_request auto_start

unfoldable pub handle_auto_start : Event → Dialog → Dialog
handle_auto_start = handle auto_start
