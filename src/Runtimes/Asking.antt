-- ===== src/Runtimes/Asking.antt =====
-- The requests of the dialog: each is made for the selected variant, the provider and the SQL
-- version.
use sql_server_lab.Prelude.{
  Bool, true, false, not, ◌&&◌, ◌||◌, Option, none, some, ◌≡◌, refl, ◌⊎◌, inl, inr, ◌≤◌, ◌<◌, arith,
  Bool-cases,
}
use sql_server_lab.Js.{Value}
use sql_server_lab.Session.{Machine, Answer}
use sql_server_lab.Session.Laws.{ask_calm, ask_sent, ask_any, neither}
use sql_server_lab.Runtimes.{valid_evaluation, valid_history}
use sql_server_lab.Runtimes.Dialog.{
  Dialog, selected, is_supported, clear, Question, read_options, evaluate, read_history, Ticket,
  valid_target, ticket, waiting, begin_read, begin_for, valid_wish, opened_for, begin_wish,
  end_request, Event, open_dialog, close_dialog, press_read, press_history, press_evaluate,
  choose_provider, choose_sql, choose, matrix_asks, handle,
}

-- A decision that is shown was asked for the selected variant; so was a history.
abbrev pub DecisionFits : Dialog → Option Value → Type 0
DecisionFits d none = Unit
DecisionFits d (some view) =
    (o : Value) × (check : Bool) × (selected d ≡ some o)
    × (valid_evaluation view check d.provider d.sql o ≡ true)

abbrev pub HistoryFits : Dialog → Option Value → Type 0
HistoryFits d none = Unit
HistoryFits d (some view) =
    (o : Value) × (selected d ≡ some o) × (valid_history view d.provider d.sql o ≡ true)

abbrev pub Shows : Dialog → Type 0
Shows d = DecisionFits d d.result × HistoryFits d d.history

abbrev pub IsAskedFor : Dialog → Question → Type 0
IsAskedFor d (read_options wanted) = (d.result ≡ none) × (d.history ≡ none)
IsAskedFor d (evaluate check o) = selected d ≡ some o
IsAskedFor d (read_history o) = selected d ≡ some o

abbrev pub IsFor : Dialog → Ticket → Type 0
IsFor d t = (t.provider ≡ d.provider) × (t.sql ≡ d.sql) × IsAskedFor d t.question

abbrev pub decisions : Machine Dialog Event Ticket Answer
decisions = record {
  revision = λ d. d.revision;
  busy = λ d. d.busy;
  stamp = λ t. t.current;
  IsFor = IsFor;
  Fits = Shows;
  handle = handle;
  reply = end_request;
}

abbrev Calm : Dialog → Dialog → Type 0
Calm d d' =
    (d.revision < d'.revision)
    ⊎ ((d'.revision ≡ d.revision) × (d'.busy ≡ d.busy) × ((t : Ticket) → IsFor d t → IsFor d' t))

abbrev Asked : Dialog → Ticket → Dialog → Type 0
Asked d t d' =
    ((d.busy ≡ false) ⊎ (d.revision < d'.revision))
    × (d.revision ≤ d'.revision)
    × (t.current ≡ d'.revision)
    × (d'.busy ≡ true)
    × IsFor d' t

same : (d : Dialog) → Calm d d
same d = inr (refl, refl, λ t f. f)

begin_read_calm :
    (w : Option Value) (d : Dialog) → (begin_read w d).0 ≡ none → Calm d (begin_read w d).1
unfolding begin_read
begin_read_calm w d h =
    ask_calm (ticket (read_options w) d) d (waiting d) d (Calm d) (d.busy || not d.is_open)
      (valid_target d) (same d) (same d) h

begin_for_calm :
    (q : Value → Question) (o : Option Value) (d : Dialog)
    → (begin_for q o d).0 ≡ none
    → Calm d (begin_for q o d).1
unfolding begin_for
begin_for_calm q none d h = same d
begin_for_calm q (some o) d h =
    ask_calm (ticket (q o) d) d (waiting d) d (Calm d) (d.busy || not d.is_open)
      (valid_target d && is_supported o) (same d) (same d) h

-- What an event of the host matrix does, by cases on whether it is heeded.
pub begin_wish_cases :
    (P : Option Ticket × Dialog → Type 0) (detail : Value) (d : Dialog)
    → P (none, d)
    → P (begin_read (some detail) (opened_for detail d))
    → P (begin_wish detail d)
unfolding begin_wish
begin_wish_cases P detail d p q = elim (Bool-cases (valid_wish detail)) [
  | inl e ↦ rw e q
  | inr e ↦ rw e p
]

-- The dialog after `clear` is ahead of the one before, and so is whatever follows.
ahead :
    (detail : Value) (d : Dialog)
    → d.revision < (begin_read (some detail) (opened_for detail d)).1.revision
unfolding begin_read clear
ahead detail d =
    ask_any (ticket (read_options (some detail)) (opened_for detail d)) (opened_for detail d)
      (waiting (opened_for detail d)) (opened_for detail d) (λ x. d.revision < x.revision)
      (false || not true) (valid_target (opened_for detail d)) (omega arith) (omega arith)
      (omega arith)

pub calm : (e : Event) (d : Dialog) → (handle e d).0 ≡ none → Calm d (handle e d).1
unfolding handle clear
calm open_dialog d h = inl (omega arith)
calm close_dialog d h = inl (omega arith)
calm press_read d h = begin_read_calm none d h
calm press_history d h = begin_for_calm read_history (selected d) d h
calm (press_evaluate check) d h = begin_for_calm (evaluate check) (selected d) d h
calm (choose_provider provider) d h = inl (omega arith)
calm (choose_sql sql) d h = inl (omega arith)
calm (choose n) d h = inl (omega arith)
calm (matrix_asks detail) d h =
    begin_wish_cases (λ x. Calm d x.1) detail d (same d) (inl (ahead detail d))

begin_read_asked :
    (w : Option Value) (d : Dialog) (t : Ticket)
    → (begin_read w d).0 ≡ some t
    → Asked d t (begin_read w d).1
unfolding begin_read
begin_read_asked w d t h =
    ask_sent (ticket (read_options w) d) d (waiting d) d (Asked d) (d.busy || not d.is_open)
      (valid_target d) t
      (λ stop go. (
        inl (neither d.busy (not d.is_open) stop).0,
        omega arith,
        refl,
        refl,
        (refl, refl, (refl, refl)),
      ))
      h

begin_for_asked :
    (q : Value → Question) (o : Option Value) (d : Dialog) (t : Ticket)
    → ((v : Value) → o ≡ some v → IsAskedFor (waiting d) (q v))
    → (begin_for q o d).0 ≡ some t
    → Asked d t (begin_for q o d).1
unfolding begin_for
begin_for_asked q none d t f h = cc
begin_for_asked q (some o) d t f h =
    ask_sent (ticket (q o) d) d (waiting d) d (Asked d) (d.busy || not d.is_open)
      (valid_target d && is_supported o) t
      (λ stop go. (
        inl (neither d.busy (not d.is_open) stop).0,
        omega arith,
        refl,
        refl,
        (refl, refl, f o refl),
      ))
      h

-- The first request of a dialog that has just been opened counts for the dialog before.
begin_wish_asked :
    (detail : Value) (d : Dialog) (t : Ticket)
    → (begin_wish detail d).0 ≡ some t
    → Asked d t (begin_wish detail d).1
begin_wish_asked detail d t =
    begin_wish_cases (λ x. x.0 ≡ some t → Asked d t x.1) detail d (λ h. cc)
      (λ h.
        let later = begin_read_asked (some detail) (opened_for detail d) t h in
        let moved = ahead detail d in (inr moved, omega (arith, moved), later.2, later.3, later.4))

pub asked :
    (e : Event) (d : Dialog) (t : Ticket) → (handle e d).0 ≡ some t → Asked d t (handle e d).1
unfolding handle
asked open_dialog d t h = cc
asked close_dialog d t h = cc
asked press_read d t h = begin_read_asked none d t h
asked press_history d t h = begin_for_asked read_history (selected d) d t (λ v e. e) h
asked (press_evaluate check) d t h = begin_for_asked (evaluate check) (selected d) d t (λ v e. e) h
asked (choose_provider provider) d t h = cc
asked (choose_sql sql) d t h = cc
asked (choose n) d t h = cc
asked (matrix_asks detail) d t h = begin_wish_asked detail d t h
