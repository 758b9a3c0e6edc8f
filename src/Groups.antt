-- ===== src/Groups.antt =====
-- The dialog of environment groups: Ui/environment-groups.js. The contract of the view that the
-- server sends; Groups/Cards shows a view, Groups/Dialog reads one.
pub mod Cards
pub mod Dialog
pub mod Late
pub mod Laws
mod Tests
use sql_server_lab.Prelude.{
  ℕ, String, Bool, true, false, not, ◌&&◌, ◌||◌, List, [], ◌∷◌, all, map, distinct, is_nil,
}
use sql_server_lab.Js.{
  Value, get, has_only_keys, is_str, is_null, is_string, is_array, is_one_of, array_of, text_of,
  matches, has_length,
}
use sql_server_lab.Js.Patterns.{guid_rfc, instance_name}

abbrev pub is_guid : Value → Bool
is_guid = matches guid_rfc

abbrev pub lifecycle_states : List String
lifecycle_states = "STOPPED" ∷ "STARTING" ∷ "ACTIVE" ∷ "STOPPING" ∷ "RECOVERY_REQUIRED" ∷ []

abbrev operation_states : List String
operation_states = "IN_PROGRESS" ∷ "COMPLETED" ∷ "RECOVERY_REQUIRED" ∷ []

abbrev operation_actions : List String
operation_actions = "Start" ∷ "Stop" ∷ []

pub valid_member : Value → Bool
valid_member member =
    has_only_keys member ("runId" ∷ "instanceIds" ∷ "assignedAt" ∷ [])
    && is_guid (get member "runId")
    && is_array (get member "instanceIds")
    && not (is_nil (array_of (get member "instanceIds")))
    && all (matches instance_name) (array_of (get member "instanceIds"))
    && distinct (map text_of (array_of (get member "instanceIds")))
    && is_string (get member "assignedAt")

pub valid_operation : Value → Bool
valid_operation operation =
    has_only_keys operation ("action" ∷ "state" ∷ "startedAt" ∷ "updatedAt" ∷ [])
    && is_one_of operation_actions (get operation "action")
    && is_one_of operation_states (get operation "state")
    && is_string (get operation "startedAt")
    && is_string (get operation "updatedAt")

pub valid_group : Value → Bool
valid_group group =
    has_only_keys group
      ("groupId" ∷ "name" ∷ "createdAt" ∷ "lifecycleState" ∷ "operation" ∷ "members" ∷ [])
    && is_guid (get group "groupId")
    && has_length 1 80 (get group "name")
    && is_string (get group "createdAt")
    && is_one_of lifecycle_states (get group "lifecycleState")
    && is_array (get group "members")
    && all valid_member (array_of (get group "members"))
    && (is_null (get group "operation") || valid_operation (get group "operation"))

-- validView.
pub valid_view : Value → Bool
valid_view value =
    has_only_keys value ("contractVersion" ∷ "groups" ∷ [])
    && is_str (get value "contractVersion") "SqlServerLab.EnvironmentGroups.BrowserView/1.0"
    && is_array (get value "groups")
    && all valid_group (array_of (get value "groups"))
