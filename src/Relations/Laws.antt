-- ===== src/Relations/Laws.antt =====
-- The dialog of the component relations fills the interface of Session: its draft stays sound, and
-- a preview that is shown is one for the selected run.
use sql_server_lab.Prelude.{
  true, false, not, ◌||◌, List, [], ◌∷◌, ◌++◌, Option, none, some, ◌≡◌, refl, sym, subst, inl, inr,
  ◌≤◌, ◌<◌, arith, Bool-cases, if_any,
}
use sql_server_lab.Js.{Value, get, array_of, text_of}
use sql_server_lab.Session.{Machine, IsSafe, Answer, lost, arrived, Reachable}
use sql_server_lab.Session.Laws.{Reachable-Fits, looked_stale, looked_keeps, unchanged, ask_any}
use sql_server_lab.Relations.{valid_metadata, valid_preview}
use sql_server_lab.Relations.Draft.{Relation, run_of, add_to}
use sql_server_lab.Relations.Asking.{
  DraftFits, ResultFits, Shows, IsAskedFor, IsFor, empty-DraftFits, calm, asked,
}
use sql_server_lab.Relations.Sound.{IsSound, add_to-IsSound}
use sql_server_lab.Relations.Dialog.{
  Dialog, own, render_choices, invalidate, Question, read, preview, Ticket, reading, read_ticket,
  begin_read, preview_ticket, previewing, ask_preview, added, press_add_for, Event, open_dialog,
  close_dialog, press_read, press_preview, press_clear, press_add, type_root, choose_run,
  choose_source, choose_target, handle, release, with_runs, receive, end_request,
}

empty-Shows : (d : Dialog) → d.draft ≡ [] → d.result ≡ none → Shows d
empty-Shows d e f = (empty-DraftFits (own d) d.draft e, subst (ResultFits (own d)) (sym f) tt)

-- What a change of the other parts of the dialog keeps.
keeps-Shows :
    (d d' : Dialog)
    → own d' ≡ own d
    → d'.draft ≡ d.draft
    → d'.result ≡ d.result
    → Shows d
    → Shows d'
keeps-Shows d d' o e f (s, r) = (
  subst (λ x. DraftFits x d'.draft) (sym o) (subst (DraftFits (own d)) (sym e) s),
  subst (λ x. ResultFits x d'.result) (sym o) (subst (ResultFits (own d)) (sym f) r),
)

added-Shows :
    (o : Option Relation) (v : Value) (d : Dialog)
    → own d ≡ some v
    → o ≡ add_to v d.source d.target (run_of d.runs d.target.run) d.draft
    → Shows d
    → Shows (added o d)
unfolding added render_choices
added-Shows none v d e a s = s
added-Shows (some x) v d e a (s, r) =
    let before = subst (λ u. DraftFits u d.draft) e s in
    let after =
      add_to-IsSound v d.source d.target (run_of d.runs d.target.run) d.draft x (sym a) before in
    (subst (λ u. DraftFits u (d.draft ++ x ∷ [])) (sym e) after, tt)

press_add-Shows : (o : Option Value) (d : Dialog) → own d ≡ o → Shows d → Shows (press_add_for o d)
unfolding press_add_for
press_add-Shows none d e s = s
press_add-Shows (some v) d e s =
    if_any Shows d.busy d
      (added (add_to v d.source d.target (run_of d.runs d.target.run) d.draft) d) s
      (added-Shows (add_to v d.source d.target (run_of d.runs d.target.run) d.draft) v d e refl s)

ask_preview-Shows : (o : Option Value) (d : Dialog) → Shows d → Shows (ask_preview o d).1
unfolding ask_preview
ask_preview-Shows none d s = s
ask_preview-Shows (some v) d s =
    ask_any (preview_ticket v d) d (previewing d) d Shows (d.busy || not d.is_open) true s (s.0, tt)
      s

handle-Shows : (e : Event) (d : Dialog) → Shows d → Shows (handle e d).1
unfolding handle invalidate render_choices begin_read
handle-Shows open_dialog d s = empty-Shows (record (invalidate true d) { is_open = true }) refl refl
handle-Shows close_dialog d s =
    empty-Shows (record (invalidate true d) { is_open = false }) refl refl
handle-Shows press_read d s =
    ask_any (read_ticket d) d (reading d) d Shows (d.busy || not d.is_open) true s
      (empty-Shows (reading d) refl refl) s
handle-Shows press_preview d s = ask_preview-Shows (own d) d s
handle-Shows press_clear d s = empty-Shows (invalidate false d) refl refl
handle-Shows press_add d s = press_add-Shows (own d) d refl s
handle-Shows (type_root text) d s =
    empty-Shows (invalidate true (record d { root_text = text })) refl refl
handle-Shows (choose_run run) d s =
    empty-Shows (invalidate false (record d { run = run })) refl refl
handle-Shows (choose_source source) d s =
    keeps-Shows d (render_choices (record d { source = source })) refl refl refl s
handle-Shows (choose_target target) d s =
    keeps-Shows d (record d { target = target }) refl refl refl s

abbrev free : Dialog → Dialog
free d = record d { busy = false }

end_request_stale :
    (t : Ticket) (a : Answer) (d : Dialog) → t.revision < d.revision → end_request t a d ≡ d
unfolding end_request release
end_request_stale t a d h =
    looked_stale (λ (x : Dialog). x.revision) free t.revision d.is_open (receive t.question a d) d h

abbrev Left : Dialog → Dialog → Type 0
Left d d' = (d.revision ≤ d'.revision) × Shows d'

dropped : (d : Dialog) → Left d (invalidate true d)
unfolding invalidate render_choices
dropped d = (omega arith, empty-Shows (invalidate true d) refl refl)

receive_current :
    (q : Question) (a : Answer) (d : Dialog) → IsAskedFor d q → Shows d → Left d (receive q a d)
unfolding receive render_choices
receive_current q lost d f s = dropped d
receive_current (read root) (arrived size view) d (e, n) s =
    let next : Dialog = render_choices (with_runs root (array_of (get view "Runs")) d) in
    if_any (Left d) (valid_metadata view) next (invalidate true d)
      (omega arith, empty-Shows next e n) (dropped d)
receive_current (preview root v draft bound) (arrived size view) d (e, n) s =
    elim (Bool-cases (valid_preview view (text_of (get v "RunId")))) [
      | inl valid ↦ rw valid (omega arith, (s.0, (v, e, valid)))
      | inr invalid ↦ rw invalid (dropped d)
    ]

end_request_current :
    (t : Ticket) (a : Answer) (d : Dialog)
    → t.revision ≡ d.revision
    → IsFor d t
    → Shows d
    → Left d (end_request t a d)
unfolding end_request release
end_request_current t a d e f s =
    looked_keeps (λ (x : Dialog). x.revision) free t.revision (Left d) d.is_open
      (receive t.question a d) d (λ x h. (h.0, keeps-Shows x (free x) refl refl refl h.1))
      (receive_current t.question a d f s) (omega arith, s)

-- The dialog as a machine.
abbrev pub relations : Machine Dialog Event Ticket Answer
relations = record {
  revision = λ d. d.revision;
  busy = λ d. d.busy;
  stamp = λ t. t.revision;
  IsFor = IsFor;
  Fits = Shows;
  handle = handle;
  reply = end_request;
}

relations-IsSafe : IsSafe relations
relations-IsSafe = record {
  calm = calm;
  asked = asked;
  handle-Fits = handle-Shows;
  stale = λ t a d h. unchanged relations d (end_request t a d) (end_request_stale t a d h);
  current = end_request_current;
}

-- In every run of the dialog, whatever the user does while requests wait and in whatever order
-- their answers come, the draft of the selected run has at most four relations, none of an
-- instance to itself, none twice, and all that have a target in another run have the same one.
pub drafts_keep_rules :
    (d : Dialog) (ts : List Ticket) (v : Value)
    → Reachable relations d ts
    → own d ≡ some v
    → IsSound (text_of (get v "RunId")) d.draft
drafts_keep_rules d ts v r e =
    subst (λ o. DraftFits o d.draft) e (Reachable-Fits relations relations-IsSafe d ts r).0

-- In every such run a preview that is shown is a valid one for the selected run.
pub shown_relations_fit :
    (d : Dialog) (ts : List Ticket) (view : Value)
    → Reachable relations d ts
    → d.result ≡ some view
    → (v : Value) × (own d ≡ some v) × (valid_preview view (text_of (get v "RunId")) ≡ true)
shown_relations_fit d ts view r e =
    subst (ResultFits (own d)) e (Reachable-Fits relations relations-IsSafe d ts r).1
