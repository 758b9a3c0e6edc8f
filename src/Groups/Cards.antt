-- ===== src/Groups/Cards.antt =====
-- What the dialog shows of a view: render, addGroupCommandAction and addMembershipEditor of
-- Ui/environment-groups.js. Texts that only decorate a card are left out.
use sql_server_lab.Prelude.{
  ℕ, String, Bool, false, not, ◌&&◌, List, [], ◌∷◌, map, Option, none, some, is_nil, if◌then◌else◌,
}
use sql_server_lab.Js.{Value, get, is_str, truthy, array_of}
use sql_server_lab.Js.Patterns.{guid_rfc, trim}

-- A button that asks for a command of a group, for a run or for none.
pub record Command : Type 0 where
  pub label : String
  pub action : String
  pub group_id : Value
  pub group_name : Value
  pub run_id : Option Value
  pub disabled : Bool

pub record Row : Type 0 where
  pub run_id : Value
  pub instance_ids : List Value
  pub commands : List Command

pub record Card : Type 0 where
  pub name : Value
  pub lifecycle_state : Value
  pub group_id : Value
  -- the last operation: its action and its state
  pub operation : Option (Value × Value)
  pub members : List Row
  pub in_progress_note : Bool
  pub membership_editor : Bool
  pub commands : List Command

unfoldable pub command : Value → String → String → Option Value → Command
command group label action run_id = record {
  label = label;
  action = action;
  group_id = get group "groupId";
  group_name = get group "name";
  run_id = run_id;
  disabled = false;
}

-- `group.operation?.state === 'IN_PROGRESS'`.
unfoldable pub in_progress : Value → Bool
in_progress group = is_str (get (get group "operation") "state") "IN_PROGRESS"

unfoldable pub is_stopped : Value → Bool
is_stopped group = is_str (get group "lifecycleState") "STOPPED"

unfoldable pub member_row : Value → Value → Row
member_row group member = record {
  run_id = get member "runId";
  instance_ids = array_of (get member "instanceIds");
  commands =
      if is_stopped group && not (in_progress group)
      then command group "Zuordnung lösen" "RemoveMember" (some (get member "runId")) ∷ []
      else [];
}

-- The chain of `if` at the end of a card.
unfoldable pub group_commands : Value → List Command
group_commands group =
    if in_progress group
    then []
    else if is_stopped group
    then record (command group "Gruppe starten" "Start" none) {
      disabled = is_nil (array_of (get group "members"));
    }
      ∷ []
    else command group
        (if is_str (get group "lifecycleState") "RECOVERY_REQUIRED"
          then "Wiederherstellen und stoppen"
          else "Gruppe stoppen")
        "Stop" none
      ∷ []

unfoldable pub card : Value → Card
card group = record {
  name = get group "name";
  lifecycle_state = get group "lifecycleState";
  group_id = get group "groupId";
  operation =
      if truthy (get group "operation")
      then some (get (get group "operation") "action", get (get group "operation") "state")
      else none;
  members = map (member_row group) (array_of (get group "members"));
  in_progress_note = in_progress group;
  membership_editor = not (in_progress group) && is_stopped group;
  commands = group_commands group;
}

-- The loop of render; a view with no group shows a line of text instead, and so no card.
unfoldable pub render : Value → List Card
render view = map card (array_of (get view "groups"))

-- The click on the button of the membership editor: the trimmed input is sent if it is a GUID.
unfoldable pub add_member : List ℕ → Option (List ℕ)
add_member input = let run_id = trim input in if guid_rfc run_id then some run_id else none
