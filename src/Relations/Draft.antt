-- ===== src/Relations/Draft.antt =====
-- The draft of Ui/component-relations.js: what is proposed for a run, and what can be added.
use sql_server_lab.Prelude.{
  String, Bool, false, not, ◌&&◌, ◌||◌, List, Option, none, some, any, find, length, ltb, str_eq,
  if◌then◌else◌,
}
use sql_server_lab.Js.{Value, get, is_str, text_of}
use sql_server_lab.Relations.{instances}

-- A proposed relation; `managed` is its management mode, PROVISIONED or EXTERNAL_READ_ONLY.
pub record Relation : Type 0 where
  pub source : String
  pub run : String
  pub scope : Value
  pub instance_id : String
  pub managed : Bool

-- The two parts of the value of a target's option.
pub record Choice : Type 0 where
  pub run : String
  pub instance_id : String

abbrev pub has_instance : Value → String → Bool
has_instance run id = any (λ (i : Value). is_str (get i "Id") id) (instances run)

-- `relation.Target.RunId !== own.RunId`.
abbrev pub is_shared : String → Relation → Bool
is_shared own r = not (str_eq r.run own)

abbrev pub same_target : Relation → String → String → Bool
same_target r run instance_id = str_eq r.run run && str_eq r.instance_id instance_id

-- `shared && run.RunId !== own.RunId && (…)`.
abbrev pub other_shared : Option Relation → String → String → String → Bool
other_shared none own run instance_id = false
other_shared (some s) own run instance_id =
    not (str_eq run own) && not (same_target s run instance_id)

-- Whether the draft of a run already has this relation.
abbrev pub is_proposed : List Relation → String → String → String → Bool
is_proposed draft source run instance_id =
    any (λ (r : Relation). str_eq r.source source && same_target r run instance_id) draft

-- The three tests that a target is subject to, both when it is offered and when it is added.
unfoldable pub is_refused : String → List Relation → String → String → String → Bool
is_refused own draft source run instance_id =
    (str_eq run own && str_eq instance_id source)
    || other_shared (find (is_shared own) draft) own run instance_id
    || is_proposed draft source run instance_id

abbrev pub proposal : String → String → Value → String → Relation
proposal own source run instance_id = record {
  source = source;
  run = text_of (get run "RunId");
  scope = get run "ScopeId";
  instance_id = instance_id;
  managed = str_eq (text_of (get run "RunId")) own;
}

abbrev pub run_of : List Value → String → Option Value
run_of runs id = find (λ (r : Value). is_str (get r "RunId") id) runs

-- What the `add` button makes of a draft, for the own run, the source and the run of the target,
-- which has been looked up.
unfoldable pub add_to : Value → String → Choice → Option Value → List Relation → Option Relation
add_to own source choice none draft = none
add_to own source choice (some run) draft =
    if ltb (length draft) 4
      && has_instance run choice.instance_id
      && has_instance own source
      && not (
          is_refused (text_of (get own "RunId")) draft source (text_of (get run "RunId"))
            choice.instance_id)
    then some (proposal (text_of (get own "RunId")) source run choice.instance_id)
    else none
