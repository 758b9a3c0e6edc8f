-- ===== src/Relations/Dialog.antt =====
-- The dialog of Ui/component-relations.js: its variables and controls, its requests and the event
-- handlers. Texts are left out; `result` is the preview that is shown.
use sql_server_lab.Prelude.{
  ℕ, suc, String, Bool, true, false, not, ◌&&◌, ◌||◌, List, [], ◌∷◌, ◌++◌, Option, none, some, any,
  map, includes, keep, length, leb, str_eq, ◌==◌, if◌then◌else◌,
}
use sql_server_lab.Js.{Value, get, array_of, text_of, codes}
use sql_server_lab.Js.Patterns.{trim}
use sql_server_lab.Session.{Answer, lost, arrived}
use sql_server_lab.Relations.{instances, valid_metadata, valid_preview}
use sql_server_lab.Relations.Draft.{Relation, Choice, is_refused, run_of, add_to}

pub record Dialog : Type 0 where
  pub revision : ℕ
  pub busy : Bool
  pub runs : List Value
  pub draft : List Relation
  pub root : List ℕ
  -- controls: the dialog, the text of the root, the selections, the result
  pub is_open : Bool
  pub root_text : String
  pub run : String
  pub source : String
  pub target : Choice
  pub result : Option Value

-- componentRelationsOwn.
abbrev pub own : Dialog → Option Value
own d = run_of d.runs d.run

-- updateComponentRelationsControls: which controls are not disabled.
pub record Enabled : Type 0 where
  pub inputs : Bool
  pub add : Bool
  pub preview : Bool

abbrev is_some : Option Value → Bool
is_some none = false
is_some (some v) = true

unfoldable pub controls : Dialog → Enabled
controls d = record {
  inputs = not d.busy;
  add = not (d.busy || not (is_some (own d)) || str_eq d.target.run "" || leb 4 (length d.draft));
  preview = not (d.busy || not (is_some (own d)));
}

-- componentRelationsOptions, for the ids of options: the value that is selected afterwards.
abbrev first_of : List String → String
first_of [] = ""
first_of (id ∷ ids) = id

abbrev pub reselect : String → List String → String
reselect previous ids = if includes ids previous then previous else first_of ids

abbrev ids_of : String → List Value → List String
ids_of name = map (λ (v : Value). text_of (get v name))

-- The same for the targets.
abbrev no_choice : Choice
no_choice = record { run = ""; instance_id = "" }

abbrev first_choice : List Choice → Choice
first_choice [] = no_choice
first_choice (c ∷ cs) = c

abbrev reselect_target : Choice → List Choice → Choice
reselect_target previous cs =
    if any (λ (c : Choice). str_eq c.run previous.run && str_eq c.instance_id previous.instance_id)
      cs
    then previous
    else first_choice cs

-- The targets that are offered for a source of the own run.
abbrev choices_in : String → List Relation → String → Value → List Choice
choices_in own_id draft source run =
    keep (λ (c : Choice). not (is_refused own_id draft source c.run c.instance_id))
      (map
        (λ (i : Value). record {
          run = text_of (get run "RunId");
          instance_id = text_of (get i "Id");
        })
        (instances run))

unfoldable pub choices : String → List Relation → String → List Value → List Choice
choices own_id draft source [] = []
choices own_id draft source (run ∷ runs) =
    choices_in own_id draft source run ++ choices own_id draft source runs

-- renderComponentRelationsChoices.
abbrev source_for : Option Value → Dialog → String
source_for none d = reselect d.source []
source_for (some v) d = reselect d.source (ids_of "Id" (instances v))

abbrev target_for : Option Value → String → Dialog → Choice
target_for none source d = reselect_target d.target []
target_for (some v) source d =
    reselect_target d.target (choices (text_of (get v "RunId")) d.draft source d.runs)

unfoldable pub render_choices : Dialog → Dialog
render_choices d = record d {
  source = source_for (own d) d;
  target = target_for (own d) (source_for (own d) d) d;
}

-- invalidateComponentRelations.
unfoldable pub invalidate : Bool → Dialog → Dialog
unfolding render_choices
invalidate clear_runs d =
    let next : Dialog = record d {
      revision = suc d.revision;
      busy = false;
      draft = [];
      result = none;
    } in
    if clear_runs
    then render_choices (record next { runs = []; root = []; run = "" })
    else render_choices next

-- What is asked for: the runs below a root, or the preview of a run's draft, with the runs that it
-- is bound to.
pub data Question : Type 0 where
  read : List ℕ → Question
  preview : List ℕ → Value → List Relation → List Value → Question

pub record Ticket : Type 0 where
  pub question : Question
  pub revision : ℕ

abbrev bindings : Value → List Relation → List Value → List Value
bindings v draft runs =
    keep
      (λ (r : Value).
        includes (text_of (get v "RunId") ∷ map (λ (x : Relation). x.run) draft)
          (text_of (get r "RunId")))
      runs

abbrev pub reading : Dialog → Dialog
reading d = record (invalidate true d) { busy = true }

abbrev pub read_ticket : Dialog → Ticket
read_ticket d = record { question = read (trim (codes d.root_text)); revision = suc d.revision }

-- The first half of requestComponentRelations, without and with the argument.
unfoldable pub begin_read : Dialog → Option Ticket × Dialog
begin_read d = if d.busy || not d.is_open then (none, d) else (some (read_ticket d), reading d)

abbrev pub preview_ticket : Value → Dialog → Ticket
preview_ticket v d = record {
  question = preview d.root v d.draft (bindings v d.draft d.runs);
  revision = d.revision;
}

abbrev pub previewing : Dialog → Dialog
previewing d = record d { busy = true; result = none }

unfoldable pub ask_preview : Option Value → Dialog → Option Ticket × Dialog
ask_preview none d = (none, d)
ask_preview (some v) d =
    if d.busy || not d.is_open then (none, d) else (some (preview_ticket v d), previewing d)

-- The handler of the `add` button.
unfoldable pub added : Option Relation → Dialog → Dialog
added none d = d
added (some x) d =
    render_choices
      (record d { revision = suc d.revision; draft = d.draft ++ x ∷ []; result = none })

unfoldable pub press_add_for : Option Value → Dialog → Dialog
press_add_for none d = d
press_add_for (some v) d =
    if d.busy then d else added (add_to v d.source d.target (run_of d.runs d.target.run) d.draft) d

pub data Event : Type 0 where
  open_dialog close_dialog press_read press_preview press_clear press_add : Event
  type_root choose_run choose_source : String → Event
  choose_target : Choice → Event

unfoldable pub handle : Event → Dialog → Option Ticket × Dialog
handle open_dialog d = (none, record (invalidate true d) { is_open = true })
handle close_dialog d = (none, record (invalidate true d) { is_open = false })
handle press_read d = begin_read d
handle press_preview d = ask_preview (own d) d
handle press_clear d = (none, invalidate false d)
handle press_add d = (none, press_add_for (own d) d)
handle (type_root text) d = (none, invalidate true (record d { root_text = text }))
handle (choose_run run) d = (none, invalidate false (record d { run = run }))
handle (choose_source source) d = (none, render_choices (record d { source = source }))
handle (choose_target target) d = (none, record d { target = target })

-- `finally`.
unfoldable pub release : Ticket → Dialog → Dialog
release t d = if t.revision == d.revision then record d { busy = false } else d

-- The rest of `try`, or `catch`, for an answer to a current request in an open dialog.
abbrev pub with_runs : List ℕ → List Value → Dialog → Dialog
with_runs root runs d = record d {
  root = root;
  runs = runs;
  run = reselect d.run (ids_of "RunId" runs);
}

unfoldable pub receive : Question → Answer → Dialog → Dialog
receive q lost d = invalidate true d
receive (read root) (arrived size view) d =
    if valid_metadata view
    then render_choices (with_runs root (array_of (get view "Runs")) d)
    else invalidate true d
receive (preview root v draft bound) (arrived size view) d =
    if valid_preview view (text_of (get v "RunId"))
    then record d { result = some view }
    else invalidate true d

-- The second half of requestComponentRelations.
unfoldable pub end_request : Ticket → Answer → Dialog → Dialog
end_request t answer d =
    release t (if t.revision == d.revision && d.is_open then receive t.question answer d else d)
