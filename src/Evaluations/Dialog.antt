-- ===== src/Evaluations/Dialog.antt =====
-- The dialog of Ui/evaluation-refresh-plan.js: its variables and controls, its requests and the
-- event handlers. The status line is left out; `result` is the plan that is shown.
use sql_server_lab.Prelude.{
  ℕ, suc, String, Bool, true, false, not, ◌&&◌, ◌||◌, List, [], ◌∷◌, Option, none, some, includes,
  find, ◌==◌, if◌then◌else◌,
}
use sql_server_lab.Js.{Value, get, is_str, array_of, text_of, codes}
use sql_server_lab.Js.Patterns.{trim}
use sql_server_lab.Session.{Answer, lost, arrived}
use sql_server_lab.Evaluations.{modes, valid_metadata, valid_plan}

pub record Dialog : Type 0 where
  pub revision : ℕ
  pub busy : Bool
  pub runs : List Value
  pub root : List ℕ
  -- controls: the dialog, the text of the root, the selected run and mode, the result
  pub is_open : Bool
  pub root_text : String
  pub run : String
  pub mode : String
  pub result : Option Value

-- evaluationRefreshOwn.
abbrev pub own : Dialog → Option Value
own d = find (λ (r : Value). is_str (get r "RunId") d.run) d.runs

abbrev is_some : Option Value → Bool
is_some none = false
is_some (some v) = true

-- updateEvaluationRefreshControls: the inputs, and the button of the preview.
pub record Enabled : Type 0 where
  pub inputs : Bool
  pub preview : Bool

unfoldable pub controls : Dialog → Enabled
controls d = record {
  inputs = not d.busy;
  preview = not (d.busy || not (is_some (own d)) || not (includes modes d.mode));
}

-- invalidateEvaluationRefresh.
unfoldable pub invalidate : Bool → Dialog → Dialog
invalidate clear_runs d =
    let next : Dialog = record d { revision = suc d.revision; busy = false; result = none } in
    if clear_runs then record next { runs = []; root = []; run = "" } else next

-- What is asked for: the runs below a root, or the plan of a run of these.
pub data Question : Type 0 where
  read : List ℕ → Question
  preview : List ℕ → Value → String → Question

pub record Ticket : Type 0 where
  pub question : Question
  pub revision : ℕ

abbrev pub reading : Dialog → Dialog
unfolding invalidate
reading d = record (invalidate true d) { busy = true }

-- The first half of requestEvaluationRefresh, without and with the argument.
unfoldable pub begin_read : Dialog → Option Ticket × Dialog
begin_read d = if d.busy || not d.is_open then (none, d) else (
  some (record { question = read (trim (codes d.root_text)); revision = suc d.revision }),
  reading d,
)

unfoldable pub ask_preview : Option Value → Dialog → Option Ticket × Dialog
ask_preview none d = (none, d)
ask_preview (some v) d =
    if d.busy || not d.is_open
    then (none, d)
    else if includes modes d.mode
    then (
      some (record { question = preview d.root v d.mode; revision = d.revision }),
      record d { busy = true; result = none },
    )
    else (none, d)

unfoldable pub begin_preview : Dialog → Option Ticket × Dialog
begin_preview d = ask_preview (own d) d

-- The value of the first run, which gets selected.
abbrev pub first_run : List Value → String
first_run [] = ""
first_run (r ∷ rs) = text_of (get r "RunId")

pub data Event : Type 0 where
  open_dialog close_dialog press_read press_preview : Event
  type_root choose_run choose_mode : String → Event

unfoldable pub handle : Event → Dialog → Option Ticket × Dialog
handle open_dialog d = (none, record (invalidate true d) { is_open = true })
handle close_dialog d = (none, record (invalidate true d) { is_open = false })
handle press_read d = begin_read d
handle press_preview d = begin_preview d
handle (type_root text) d = (none, invalidate true (record d { root_text = text }))
handle (choose_run run) d = (none, invalidate false (record d { run = run }))
handle (choose_mode mode) d = (none, invalidate false (record d { mode = mode }))

-- `finally`.
unfoldable pub release : Ticket → Dialog → Dialog
release t d = if t.revision == d.revision then record d { busy = false } else d

module _ (parses : String → Bool) where
  -- The rest of `try`, or `catch`, for an answer to a current request in an open dialog.
  unfoldable pub receive : Question → Answer → Dialog → Dialog
  receive q lost d = invalidate true d
  receive (read root) (arrived size view) d =
      if valid_metadata view
      then record d {
        root = root;
        runs = array_of (get view "Runs");
        run = first_run (array_of (get view "Runs"));
      }
      else invalidate true d
  receive (preview root v mode) (arrived size view) d =
      if valid_plan parses view v mode then record d { result = some view } else invalidate true d

  -- The second half of requestEvaluationRefresh.
  unfoldable pub end_request : Ticket → Answer → Dialog → Dialog
  end_request t answer d =
      release t (if t.revision == d.revision && d.is_open then receive t.question answer d else d)
