-- ===== src/Runtimes/Laws.antt =====
-- The dialog is a session; so the answers that it shows belong to the selected variant, the provider
-- and the SQL version.
use sql_server_lab.Prelude.{
  false, not, ◌&&◌, ◌||◌, List, Option, none, some, ◌≡◌, sym, subst, inl, inr, ◌≤◌, ◌<◌, arith,
  Bool-cases,
}
use sql_server_lab.Js.{Value, get, array_of}
use sql_server_lab.Session.{IsSafe, Answer, lost, arrived, Reachable}
use sql_server_lab.Session.Laws.{Reachable-Fits, unchanged, ask_any, looked_stale, looked_keeps}
use sql_server_lab.Runtimes.{valid_options, valid_evaluation, valid_history}
use sql_server_lab.Runtimes.Dialog.{
  Dialog, selected, is_supported, clear, Question, read_options, evaluate, read_history, Ticket,
  valid_target, ticket, waiting, begin_read, begin_for, opened_for, wanted_choice, receive, release,
  end_request, Event, open_dialog, close_dialog, press_read, press_history, press_evaluate,
  choose_provider, choose_sql, choose, matrix_asks, handle,
}
use sql_server_lab.Runtimes.Asking.{
  DecisionFits, HistoryFits, Shows, IsAskedFor, IsFor, decisions, begin_wish_cases, calm, asked,
}

begin_read-Shows : (w : Option Value) (d : Dialog) → Shows d → Shows (begin_read w d).1
unfolding begin_read
begin_read-Shows w d f =
    ask_any (ticket (read_options w) d) d (waiting d) d Shows (d.busy || not d.is_open)
      (valid_target d) f (tt, tt) f

begin_for-Shows :
    (q : Value → Question) (o : Option Value) (d : Dialog) → Shows d → Shows (begin_for q o d).1
unfolding begin_for
begin_for-Shows q none d f = f
begin_for-Shows q (some o) d f =
    ask_any (ticket (q o) d) d (waiting d) d Shows (d.busy || not d.is_open)
      (valid_target d && is_supported o) f (tt, tt) f

handle-Shows : (e : Event) (d : Dialog) → Shows d → Shows (handle e d).1
unfolding handle clear
handle-Shows open_dialog d f = (tt, tt)
handle-Shows close_dialog d f = (tt, tt)
handle-Shows press_read d f = begin_read-Shows none d f
handle-Shows press_history d f = begin_for-Shows read_history (selected d) d f
handle-Shows (press_evaluate check) d f = begin_for-Shows (evaluate check) (selected d) d f
handle-Shows (choose_provider provider) d f = (tt, tt)
handle-Shows (choose_sql sql) d f = (tt, tt)
handle-Shows (choose n) d f = (tt, tt)
handle-Shows (matrix_asks detail) d f =
    begin_wish_cases (λ x. Shows x.1) detail d f
      (begin_read-Shows (some detail) (opened_for detail d) (tt, tt))

abbrev Left : Dialog → Dialog → Type 0
Left d d' = (d.revision ≤ d'.revision) × Shows d'

-- A dialog that shows nothing shows nothing wrong.
blank-Shows : (d : Dialog) → d.result ≡ none → d.history ≡ none → Shows d
blank-Shows d h k = (subst (DecisionFits d) (sym h) tt, subst (HistoryFits d) (sym k) tt)

receive_current :
    (t : Ticket) (q : Question) (a : Answer) (d : Dialog)
    → t.provider ≡ d.provider
    → t.sql ≡ d.sql
    → IsAskedFor d q
    → Shows d
    → Left d (receive q t.provider t.sql a d)
unfolding receive clear
receive_current t (read_options w) lost d p s f g = (omega arith, (tt, tt))
receive_current t (evaluate check o) lost d p s f g = (omega arith, (tt, tt))
receive_current t (read_history o) lost d p s f g = (omega arith, (tt, tt))
receive_current t (read_options w) (arrived size view) d p s f g =
    elim (Bool-cases (valid_options view t.provider t.sql)) [
      | inl e ↦ rw e (
        omega arith,
        blank-Shows
            (record d {
              options = array_of (get view "Options");
              choice = wanted_choice w (array_of (get view "Options"));
            })
            f.0 f.1,
      )
      | inr e ↦ rw e (omega arith, (tt, tt))
    ]
receive_current t (evaluate check o) (arrived size view) d p s f g =
    elim (Bool-cases (valid_evaluation view check t.provider t.sql o)) [
      | inl e ↦ rw e (omega arith, ((o, check, f, rw (sym p, sym s) e), g.1))
      | inr e ↦ rw e (omega arith, (tt, tt))
    ]
receive_current t (read_history o) (arrived size view) d p s f g =
    elim (Bool-cases (valid_history view t.provider t.sql o)) [
      | inl e ↦ rw e (omega arith, (g.0, (o, f, rw (sym p, sym s) e)))
      | inr e ↦ rw e (omega arith, (tt, tt))
    ]

abbrev free : Dialog → Dialog
free d = record d { busy = false }

end_request_stale :
    (t : Ticket) (a : Answer) (d : Dialog) → t.current < d.revision → end_request t a d ≡ d
unfolding end_request release
end_request_stale t a d h =
    looked_stale (λ (x : Dialog). x.revision) free t.current d.is_open
      (receive t.question t.provider t.sql a d) d h

end_request_current :
    (t : Ticket) (a : Answer) (d : Dialog)
    → t.current ≡ d.revision
    → IsFor d t
    → Shows d
    → Left d (end_request t a d)
unfolding end_request release
end_request_current t a d e f s =
    looked_keeps (λ (x : Dialog). x.revision) free t.current (Left d) d.is_open
      (receive t.question t.provider t.sql a d) d (λ x h. h)
      (receive_current t t.question a d f.0 f.1 f.2 s) (omega arith, s)

decisions-IsSafe : IsSafe decisions
decisions-IsSafe = record {
  calm = calm;
  asked = asked;
  handle-Fits = handle-Shows;
  stale = λ t a d h. unchanged decisions d (end_request t a d) (end_request_stale t a d h);
  current = end_request_current;
}

-- In every run of the dialog, whatever the user and the host matrix do while requests wait and in
-- whatever order their answers come: a decision or a history that is shown is a valid one for the
-- selected variant, the provider and the SQL version.
pub shown_answers_fit :
    (d : Dialog) (ts : List Ticket)
    → Reachable decisions d ts
    → DecisionFits d d.result × HistoryFits d d.history
shown_answers_fit d ts r = Reachable-Fits decisions decisions-IsSafe d ts r
