-- ===== src/Collations/Laws.antt =====
-- The catalogue's dialog fills the interface of Session; so what it lists fits its controls.
use sql_server_lab.Prelude.{
  suc, String, true, false, not, ◌&&◌, ◌||◌, List, Option, none, some, ◌≡◌, refl, subst, ◌⊎◌, inl,
  inr, ◌≤◌, ◌<◌, arith, Bool-cases, and_parts, leb,
}
use sql_server_lab.Js.{Value}
use sql_server_lab.Session.{Machine, IsSafe, Answer, lost, arrived, Reachable}
use sql_server_lab.Session.Laws.{
  Reachable-Fits, looked_stale, looked_keeps, unchanged, ask_calm, ask_sent, ask_any, neither,
}
use sql_server_lab.Collations.{
  valid, valid_input, Dialog, Ticket, clear, cancel, begin_search, release, receive, end_search,
  Event, open_dialog, close_dialog, press_search, type_query, choose_sql, handle,
}

abbrev pub Fits : String → Option Value → Type 0
Fits sql none = Unit
Fits sql (some view) = valid view sql ≡ true

abbrev pub IsFor : Dialog → Ticket → Type 0
IsFor d t = t.sql ≡ d.sql

abbrev sent : Dialog → Dialog
sent d = record d { revision = suc d.revision; busy = true; search_disabled = true; shown = none }

abbrev ticket : Dialog → Ticket
ticket d = record { sql = d.sql; query = d.query; current = suc d.revision }

abbrev Calm : Dialog → Dialog → Type 0
Calm d d' =
    (d.revision < d'.revision)
    ⊎ ((d'.revision ≡ d.revision) × (d'.busy ≡ d.busy) × ((t : Ticket) → IsFor d t → IsFor d' t))

calm : (e : Event) (d : Dialog) → (handle e d).0 ≡ none → Calm d (handle e d).1
unfolding handle cancel clear begin_search
calm open_dialog d h = inl (omega arith)
calm close_dialog d h = inl (omega arith)
calm press_search d h =
    ask_calm (ticket d) d (sent d) (clear d) (Calm d) (d.busy || not d.is_open)
      (valid_input d.sql d.query) (inr (refl, refl, λ t f. f)) (inl (omega arith)) h
calm (type_query text) d h = inl (omega arith)
calm (choose_sql version) d h = inl (omega arith)

abbrev Asked : Dialog → Ticket → Dialog → Type 0
Asked d t d' =
    ((d.busy ≡ false) ⊎ (d.revision < d'.revision))
    × (d.revision ≤ d'.revision)
    × (t.current ≡ d'.revision)
    × (d'.busy ≡ true)
    × IsFor d' t

asked : (e : Event) (d : Dialog) (t : Ticket) → (handle e d).0 ≡ some t → Asked d t (handle e d).1
unfolding handle begin_search
asked press_search d t h =
    ask_sent (ticket d) d (sent d) (clear d) (Asked d) (d.busy || not d.is_open)
      (valid_input d.sql d.query) t
      (λ stop go. (inl (neither d.busy (not d.is_open) stop).0, omega arith, refl, refl, refl)) h
asked open_dialog d t h = cc
asked close_dialog d t h = cc
asked (type_query text) d t h = cc
asked (choose_sql version) d t h = cc

abbrev pub Shows : Dialog → Type 0
Shows d = Fits d.sql d.shown

handle-Fits : (e : Event) (d : Dialog) → Shows d → Shows (handle e d).1
unfolding handle cancel clear begin_search
handle-Fits open_dialog d f = tt
handle-Fits close_dialog d f = tt
handle-Fits press_search d f =
    ask_any (ticket d) d (sent d) (clear d) Shows (d.busy || not d.is_open)
      (valid_input d.sql d.query) f tt tt
handle-Fits (type_query text) d f = tt
handle-Fits (choose_sql version) d f = tt

abbrev free : Dialog → Dialog
free d = record d { busy = false; search_disabled = false }

end_search_stale :
    (t : Ticket) (a : Answer) (d : Dialog) → t.current < d.revision → end_search t a d ≡ d
unfolding end_search release
end_search_stale t a d h =
    looked_stale (λ (x : Dialog). x.revision) free t.current d.is_open (receive t a d) d h

-- What an answer to the current search leaves.
abbrev Left : Dialog → Dialog → Type 0
Left d d' = (d.revision ≤ d'.revision) × Shows d'

receive_current : (t : Ticket) (a : Answer) (d : Dialog) → IsFor d t → Left d (receive t a d)
unfolding receive clear
receive_current t lost d f = (omega arith, tt)
receive_current t (arrived size view) d f = elim (Bool-cases (valid view t.sql && leb size 65536)) [
  | inl e ↦
      rw e (omega arith, subst (λ s. valid view s ≡ true) f (and_parts _ (leb size 65536) e).0)
  | inr e ↦ rw e (omega arith, tt)
]

end_search_current :
    (t : Ticket) (a : Answer) (d : Dialog)
    → t.current ≡ d.revision
    → IsFor d t
    → Shows d
    → Left d (end_search t a d)
unfolding end_search release
end_search_current t a d e f s =
    looked_keeps (λ (x : Dialog). x.revision) free t.current (Left d) d.is_open (receive t a d) d
      (λ x h. h) (receive_current t a d f) (omega arith, s)

-- The dialog as a machine.
abbrev pub searches : Machine Dialog Event Ticket Answer
searches = record {
  revision = λ d. d.revision;
  busy = λ d. d.busy;
  stamp = λ t. t.current;
  IsFor = IsFor;
  Fits = Shows;
  handle = handle;
  reply = end_search;
}

searches-IsSafe : IsSafe searches
searches-IsSafe = record {
  calm = calm;
  asked = asked;
  handle-Fits = handle-Fits;
  stale = λ t a d h. unchanged searches d (end_search t a d) (end_search_stale t a d h);
  current = end_search_current;
}

-- In every run of the dialog, whatever the user does while searches wait and in whatever order
-- their answers come, a list of results that is shown is a valid one for the selected version.
pub shown_results_fit :
    (d : Dialog) (ts : List Ticket) (view : Value)
    → Reachable searches d ts
    → d.shown ≡ some view
    → valid view d.sql ≡ true
shown_results_fit d ts view r e =
    subst (Fits d.sql) e (Reachable-Fits searches searches-IsSafe d ts r)
